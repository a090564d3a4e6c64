-- ===== src/Tif/Write.antt =====
-- Which bytes are written: the buffer afterwards is that before with one sequence of bytes in it.
use jpl_vision.Common.{
  ℕ, zero, suc, ◌+◌, ◌-◌, ◌*◌, ◌/◌, ◌≤◌, ◌<◌, ◌≡◌, ◌∙◌, ◌⊎◌, inl, refl, ap, sym, true, false, ◌||◌,
  not, List, [], ◌∷◌, ◌++◌, length, get_or, ltb, arith, length-append,
}
use jpl_vision.Common.Memory.{Array, update}
use jpl_vision.Common.Int.{pos}
use jpl_vision.Tif.{
  nbo32, nbo16, write_bytes, TifInfo, tag_bytes, write_coords, clear, byte_count, coord_count,
  is_jpeg, overwrite_tif_tags,
}

-- Bytes that are written one after another can be written at once.
write_bytes-append :
    (buf : Array ℕ) (k : ℕ) (xs ys : List ℕ)
    → write_bytes (write_bytes buf k xs) (k + length xs) ys ≡ write_bytes buf k (xs ++ ys)
unfolding write_bytes
write_bytes-append buf k [] ys = ap (λ j. write_bytes buf j ys) (omega arith)
write_bytes-append buf k (x ∷ xs) ys =
    ap (λ j. write_bytes (write_bytes (update buf k x) (k + 1) xs) j ys) (omega arith)
    ∙ write_bytes-append (update buf k x) (k + 1) xs ys

-- The bytes outside stay.
pub write_bytes-outside :
    (buf : Array ℕ) (k : ℕ) (bs : List ℕ) (j : ℕ)
    → (j < k) ⊎ (k + length bs ≤ j)
    → write_bytes buf k bs j ≡ buf j
unfolding write_bytes
write_bytes-outside buf k [] j h = refl
write_bytes-outside buf k (b ∷ bs) j h =
    write_bytes-outside (update buf k b) (k + 1) bs j (ground (arith, h)) ∙ ground (arith, h)

-- The bytes inside are those written.
pub write_bytes-inside :
    (buf : Array ℕ) (k : ℕ) (bs : List ℕ) (i d : ℕ)
    → i < length bs
    → write_bytes buf k bs (k + i) ≡ get_or bs i d
unfolding write_bytes
write_bytes-inside buf k [] i d h = absurd (omega (arith, h))
write_bytes-inside buf k (b ∷ bs) zero d h =
    write_bytes-outside (update buf k b) (k + 1) bs (k + 0) (inl (omega arith)) ∙ ground (arith, h)
write_bytes-inside buf k (b ∷ bs) (suc i) d h =
    ap (write_bytes (update buf k b) (k + 1) bs) (omega arith)
    ∙ write_bytes-inside (update buf k b) (k + 1) bs i d (omega arith)

-- The bytes of the coordinates.
abbrev pub coord_bytes : TifInfo → Array ℕ → ℕ → ℕ → List ℕ
coord_bytes t coord ii zero = []
coord_bytes t coord ii (suc n) =
    nbo16 (t.scale t.vwidth t.width (coord (2 * ii)))
    ++ nbo16 (t.scale t.vheight t.height (coord (2 * ii + 1)))
    ++ coord_bytes t coord (ii + 1) n

abbrev pub zeros : ℕ → List ℕ
zeros zero = []
zeros (suc n) = 0 ∷ zeros n

pub length-coord_bytes :
    (t : TifInfo) (coord : Array ℕ) (ii n : ℕ) → length (coord_bytes t coord ii n) ≡ 4 * n
length-coord_bytes t coord ii zero = refl
length-coord_bytes t coord ii (suc n) = omega (arith, length-coord_bytes t coord (ii + 1) n)

length-zeros : (n : ℕ) → length (zeros n) ≡ n
length-zeros zero = refl
length-zeros (suc n) = omega (arith, length-zeros n)

write_coords-bytes :
    (t : TifInfo) (coord buf : Array ℕ) (ii p n : ℕ)
    → write_coords t coord buf ii p n ≡ write_bytes buf p (coord_bytes t coord ii n)
unfolding write_coords write_bytes
write_coords-bytes t coord buf ii p zero = refl
write_coords-bytes t coord buf ii p (suc n) =
    let x = t.scale t.vwidth t.width (coord (2 * ii)) in
    let y = t.scale t.vheight t.height (coord (2 * ii + 1)) in
    let e : p + 1 + 1 ≡ p + 2 = omega arith in
    let e' : p + 2 + 1 + 1 ≡ p + 4 = omega arith in
    rw (e, e')
      (write_coords-bytes t coord (write_bytes (write_bytes buf p (nbo16 x)) (p + 2) (nbo16 y))
        (ii + 1) (p + 4) n)

clear-bytes : (buf : Array ℕ) (p n : ℕ) → clear buf p n ≡ write_bytes buf p (zeros n)
unfolding clear write_bytes
clear-bytes buf p zero = refl
clear-bytes buf p (suc n) = clear-bytes (update buf p 0) (p + 1) n

-- byte[0] to byte[77].
abbrev pub header_bytes : TifInfo → ℕ → List ℕ
header_bytes t count =
    tag_bytes t count
    ++ nbo32 t.analog_gain
    ++ nbo32 t.digital_gain
    ++ nbo32 t.awb_red_gain
    ++ nbo32 t.awb_blue_gain

-- All bytes that are written into a header with `bytes` bytes of tags, of which `n` coordinates.
abbrev pub written : TifInfo → Array ℕ → ℕ → ℕ → List ℕ
written t coord n bytes =
    header_bytes t n ++ coord_bytes t coord 0 (n / 2) ++ zeros (bytes - 78 - 4 * (n / 2))

pub length-written :
    (t : TifInfo) (coord : Array ℕ) (count bytes : ℕ)
    → 78 ≤ bytes
    → length (written t coord (coord_count bytes count) bytes) ≡ bytes
length-written t coord count bytes h =
    let n = coord_count bytes count in
    let cs = coord_bytes t coord 0 (n / 2) in
    let zs = zeros (bytes - 78 - 4 * (n / 2)) in
    omega (
      arith,
      length-append cs zs,
      length-coord_bytes t coord 0 (n / 2),
      length-zeros (bytes - 78 - 4 * (n / 2)),
    )

written_after_header :
    (t : TifInfo) (coord buf : Array ℕ) (m k : ℕ)
    → clear (write_coords t coord buf 0 90 m) (90 + 4 * m) k
      ≡ write_bytes buf 90 (coord_bytes t coord 0 m ++ zeros k)
written_after_header t coord buf m k =
    let cs = coord_bytes t coord 0 m in
    let e : 90 + length cs ≡ 90 + 4 * m = omega (arith, length-coord_bytes t coord 0 m) in
    clear-bytes (write_coords t coord buf 0 90 m) (90 + 4 * m) k
    ∙ ap (λ b. write_bytes b (90 + 4 * m) (zeros k)) (write_coords-bytes t coord buf 0 90 m)
    ∙ ap (λ p. write_bytes (write_bytes buf 90 cs) p (zeros k)) (sym e)
    ∙ write_bytes-append buf 90 cs (zeros k)

pub overwrite_tif_tags-written :
    (t : TifInfo) (coord : Array ℕ) (count : ℕ) (buf : Array ℕ)
    → is_jpeg buf ≡ true
    → 78 ≤ byte_count buf
    → let n = coord_count (byte_count buf) count in
      overwrite_tif_tags t coord count buf
      ≡ (write_bytes buf 12 (written t coord n (byte_count buf)), pos n)
unfolding overwrite_tif_tags
overwrite_tif_tags-written t coord count buf j h =
    let bytes = byte_count buf in
    let n = coord_count bytes count in
    let guard : (not (is_jpeg buf) || ltb bytes 78) ≡ false = ground (arith, j, h) in
    let k : 12 + bytes - (90 + 4 * (n / 2)) ≡ bytes - 78 - 4 * (n / 2) = omega arith in
    rw (guard, k)
      (ap (λ b. (b, pos n)) (written_after_header t coord _ (n / 2) (bytes - 78 - 4 * (n / 2))))
