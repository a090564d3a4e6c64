-- ===== src/Uvc/Tests.antt =====
-- A picture of ten bytes that starts its frame at the third.
use jpl_vision.Common.{
  ℕ, zero, suc, ◌<◌, ◌≡◌, ◌≢◌, refl, false, some, List, [], ◌∷◌, length, get_or, arith,
}
use jpl_vision.Common.Memory.{Array}
use jpl_vision.Uvc.{marker, is_huffman, frame_start_from, memcpy_picture}
use jpl_vision.Uvc.Idem.{placed, memcpy_picture-idempotent}

abbrev ten_bytes : List ℕ
ten_bytes = 255 ∷ 216 ∷ 255 ∷ 192 ∷ 0 ∷ 11 ∷ 255 ∷ 218 ∷ 255 ∷ 217 ∷ []

abbrev AllBytes : List ℕ → Type 0
AllBytes [] = Unit {0}
AllBytes (c ∷ cs) = (c < 256) × AllBytes cs

below : (cs : List ℕ) (i : ℕ) → AllBytes cs → get_or cs i 0 < 256
below [] i a = omega arith
below (c ∷ cs) zero a = a.0
below (c ∷ cs) (suc i) a = below cs i a.1

-- Behind the picture, the memory is 0.
abbrev picture : Array ℕ
picture i = get_or ten_bytes i 0

picture_bytes : (i : ℕ) → picture i < 256
picture_bytes i = below ten_bytes i (ground arith)

no_scan : (j : ℕ) → j < 2 → marker picture j ≢ 65498
no_scan zero l = omega arith
no_scan (suc zero) l = omega arith
no_scan (suc (suc j)) l = absurd (omega (arith, l))

no_table : is_huffman picture ≡ false
unfolding is_huffman
no_table = refl

frame_start : frame_start_from picture 0 10 ≡ some 2
unfolding frame_start_from
frame_start = refl

memcpy_picture-idempotent_example :
    (length (memcpy_picture picture 10) ≡ 430)
    × (memcpy_picture
          (placed (memcpy_picture picture 10) picture)
          (length (memcpy_picture picture 10))
        ≡ memcpy_picture picture 10)
memcpy_picture-idempotent_example =
    memcpy_picture-idempotent picture picture 10 2 picture_bytes no_table frame_start no_scan
      (omega arith)
