-- ===== src/Tif/Read.antt =====
-- What a reader finds in the tags, and which bytes are changed.
use jpl_vision.Common.{
  ℕ, zero, suc, ◌+◌, ◌-◌, ◌*◌, ◌/◌, ◌%◌, ◌^◌, ◌≤◌, ◌<◌, ◌≡◌, ◌∙◌, ◌⊎◌, inl, inr, refl, ap, sym,
  true, false, some, ◌||◌, not, List, [], ◌∷◌, ◌++◌, length, get_or, ltb, if◌then◌else◌, arith,
  length-append, Bool-cases,
}
use jpl_vision.Common.Memory.{Array}
use jpl_vision.Common.Int.{ℤ, pos, negsuc}
use jpl_vision.Tif.{write_bytes, TifInfo, byte_count, coord_count, is_jpeg, overwrite_tif_tags}
use jpl_vision.Tif.Write.{
  write_bytes-outside, write_bytes-inside, coord_bytes, zeros, written, header_bytes,
  length-written, length-coord_bytes, overwrite_tif_tags-written,
}
use jpl_vision.Tif.Reader.{
  HasHeader, IsInfo, tiff_part, read_tags, read_shorts, info_tags, read_shorts-coords,
  read_tags-header,
}

get_or-append : (xs ys : List ℕ) (i d : ℕ) → i < length xs → get_or (xs ++ ys) i d ≡ get_or xs i d
get_or-append [] ys i d h = absurd (omega arith)
get_or-append (x ∷ xs) ys zero d h = refl
get_or-append (x ∷ xs) ys (suc i) d h = get_or-append xs ys i d (omega arith)

get_or-append_right :
    (xs ys : List ℕ) (i d : ℕ) → get_or (xs ++ ys) (length xs + i) d ≡ get_or ys i d
get_or-append_right [] ys i d = ap (λ j. get_or ys j d) (omega arith)
get_or-append_right (x ∷ xs) ys i d =
    let e : suc (length xs) + i ≡ suc (length xs + i) = omega arith in
    rw (e) (get_or-append_right xs ys i d)

-- A byte of what overwrite_tif_tags has written.
tiff_part-written :
    (t : TifInfo) (coord buf : Array ℕ) (n bytes i : ℕ)
    → i < length (written t coord n bytes)
    → tiff_part (write_bytes buf 12 (written t coord n bytes)) i
      ≡ get_or (written t coord n bytes) i 0
tiff_part-written t coord buf n bytes i h =
    write_bytes-inside buf 12 (written t coord n bytes) i 0 h

written-HasHeader :
    (t : TifInfo) (coord buf : Array ℕ) (n bytes : ℕ)
    → HasHeader t n (tiff_part (write_bytes buf 12 (written t coord n bytes)))
written-HasHeader t coord buf n bytes i h =
    let rest = coord_bytes t coord 0 (n / 2) ++ zeros (bytes - 78 - 4 * (n / 2)) in
    tiff_part-written t coord buf n bytes i (omega arith)
    ∙ get_or-append (header_bytes t n) rest i 0 h

written-coords :
    (t : TifInfo) (coord buf : Array ℕ) (n bytes j : ℕ)
    → j < 4 * (n / 2)
    → tiff_part (write_bytes buf 12 (written t coord n bytes)) (78 + j)
      ≡ get_or (coord_bytes t coord 0 (n / 2)) j 0
written-coords t coord buf n bytes j h =
    let cs = coord_bytes t coord 0 (n / 2) in
    let zs = zeros (bytes - 78 - 4 * (n / 2)) in
    let size = length-coord_bytes t coord 0 (n / 2) in
    tiff_part-written t coord buf n bytes (78 + j) (omega (arith, length-append cs zs, size))
    ∙ get_or-append_right (header_bytes t n) (cs ++ zs) j 0
    ∙ get_or-append cs zs j 0 (omega (arith, size))

-- With arguments that have the sizes of their types, and a JPEG header in the buffer that has space
-- for the 78 bytes of tags, the coordinates that fit,
-- at most those given and a multiple of 4, are written, their number is returned, and a reader of
-- TIFF files finds the exposure, the color with the flags, the four gains, and these coordinates,
-- scaled to the video image, as they were given.
pub overwrite_tif_tags_read :
    (t : TifInfo) (coord : Array ℕ) (count : ℕ) (buf : Array ℕ)
    → IsInfo t
    → is_jpeg buf ≡ true
    → 78 ≤ byte_count buf
    → let n = coord_count (byte_count buf) count in
      let (out, retval) = overwrite_tif_tags t coord count buf in
      (n ≤ count)
      × (78 + 2 * n ≤ byte_count buf)
      × (n % 4 ≡ 0)
      × (retval ≡ pos n)
      × (read_tags (tiff_part out) ≡ some (info_tags t coord n))
overwrite_tif_tags_read t coord count buf v j h =
    let bytes = byte_count buf in
    let n = coord_count bytes count in
    let b = tiff_part (write_bytes buf 12 (written t coord n bytes)) in
    let even : 2 * (n / 2) ≡ n = omega arith in
    let found =
      read_tags-header t coord b n v (omega arith) (written-HasHeader t coord buf n bytes) in
    let coords = read_shorts-coords t coord b 0 78 (n / 2) v (written-coords t coord buf n bytes) in
    rw (overwrite_tif_tags-written t coord count buf j h) (
      omega arith,
      omega arith,
      omega arith,
      refl,
      found
          ∙ ap (λ c. some (record (info_tags t coord n) { bbox_tag = c }))
              (ap (read_shorts b 78) (sym even) ∙ coords),
    )

-- overwrite_tif_tags either does nothing and returns -1, or returns the number of coordinates.
overwrite_tif_tags_cases :
    (t : TifInfo) (coord : Array ℕ) (count : ℕ) (buf : Array ℕ)
    → ((is_jpeg buf ≡ false) ⊎ (byte_count buf < 78))
        × (overwrite_tif_tags t coord count buf ≡ (buf, negsuc 0))
      ⊎ ((is_jpeg buf ≡ true) × (78 ≤ byte_count buf))
unfolding overwrite_tif_tags
overwrite_tif_tags_cases t coord count buf =
    elim (Bool-cases (not (is_jpeg buf) || ltb (byte_count buf) 78)) [
      | inl q ↦ inl (ground (arith, q), rw (q) refl)
      | inr q ↦ inr (ground (arith, q))
    ]

get_or-zeros : (n i : ℕ) → get_or (zeros n) i 0 ≡ 0
get_or-zeros zero i = refl
get_or-zeros (suc n) zero = refl
get_or-zeros (suc n) (suc i) = get_or-zeros n i

-- Behind the coordinates there are zeros up to the last of the bytes that are written.
written-cleared :
    (t : TifInfo) (coord buf : Array ℕ) (count bytes k : ℕ)
    → 78 ≤ bytes
    → let n = coord_count bytes count in
      90 + 2 * n ≤ k → k < 12 + bytes → write_bytes buf 12 (written t coord n bytes) k ≡ 0
written-cleared t coord buf count bytes k h a b =
    let n = coord_count bytes count in
    let cs = coord_bytes t coord 0 (n / 2) in
    let zs = zeros (bytes - 78 - 4 * (n / 2)) in
    let even : 2 * (n / 2) ≡ n = omega arith in
    let size = length-coord_bytes t coord 0 (n / 2) in
    let j = k - (90 + 2 * n) in
    let place : k ≡ 12 + (78 + (length cs + j)) = omega (arith, size) in
    ap (write_bytes buf 12 (written t coord n bytes)) place
    ∙ write_bytes-inside buf 12 (written t coord n bytes) (78 + (length cs + j)) 0
        (omega (arith, length-written t coord count bytes h, size))
    ∙ get_or-append_right (header_bytes t n) (cs ++ zs) (length cs + j) 0
    ∙ get_or-append_right cs zs j 0
    ∙ get_or-zeros (bytes - 78 - 4 * (n / 2)) j

-- The byte behind those that the size in the header lets overwrite_tif_tags write.
abbrev pub end_of : ℕ → ℕ
end_of size = if ltb size 8 then 65540 + size else 4 + size

end_of-byte_count :
    (buf : Array ℕ)
    → buf 4 < 256
    → buf 5 < 256
    → 12 + byte_count buf ≡ end_of (buf 4 * 2 ^ 8 + buf 5)
end_of-byte_count buf h4 h5 = ground (arith, h4, h5)

-- Let bytes 4 and 5 be below 256, and `size` the big-endian number in them. Without a JPEG header,
-- or with a size from 8 to 85, overwrite_tif_tags returns -1 and changes nothing. Else it returns a
-- number of coordinates `n`, changes no byte before byte 12 and none from `end` on, and clears each
-- byte from 90 + 2 * n up to `end`. A size of less than 8 is not refused: `end` is then 65540 +
-- size, and else 4 + size.
pub overwrite_tif_tags_changed :
    (t : TifInfo) (coord : Array ℕ) (count : ℕ) (buf : Array ℕ)
    → buf 4 < 256
    → buf 5 < 256
    → let size = buf 4 * 2 ^ 8 + buf 5 in
      let out = overwrite_tif_tags t coord count buf in
      ((is_jpeg buf ≡ false) ⊎ (8 ≤ size) × (size < 86)) × (out ≡ (buf, negsuc 0))
      ⊎ ((is_jpeg buf ≡ true)
          × ((size < 8) ⊎ (86 ≤ size))
          × (n : ℕ) × (out.1 ≡ pos n)
          × ((k : ℕ) → (k < 12) ⊎ (end_of size ≤ k) → out.0 k ≡ buf k)
          × ((k : ℕ) → 90 + 2 * n ≤ k → k < end_of size → out.0 k ≡ 0))
overwrite_tif_tags_changed t coord count buf h4 h5 =
    let e = end_of-byte_count buf h4 h5 in
    elim (overwrite_tif_tags_cases t coord count buf) [
      | inl (r, q) ↦ inl (ground (arith, r, h4, h5), q)
      | inr (j, h) ↦
          let bytes = byte_count buf in
          let n = coord_count bytes count in
          let w = overwrite_tif_tags-written t coord count buf j h in
          inr (
            j,
            ground (arith, h, h4, h5),
            n,
            ap (λ (r : Array ℕ × ℤ). r.1) w,
            λ k o.
                ap (λ (r : Array ℕ × ℤ). r.0 k) w
                ∙ write_bytes-outside buf 12 (written t coord n bytes) k
                    (ground (arith, o, e, length-written t coord count bytes h)),
            λ k a b.
                ap (λ (r : Array ℕ × ℤ). r.0 k) w
                ∙ written-cleared t coord buf count bytes k h a (omega (arith, e, b)),
          )
    ]
