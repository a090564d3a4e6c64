-- ===== src/Color/Encode/Luma.antt =====
-- The Y values that convert_rgb_to_yuv420 leaves in the image.
use jpl_vision.Common.{
  ℕ, zero, suc, ◌+◌, ◌-◌, ◌*◌, ◌/◌, ◌%◌, ◌≤◌, ◌<◌, ◌≡◌, ◌⊎◌, inl, inr, ℕ_discrete, dec_lt, subst,
  sym, ap, ◌∙◌, arith,
}
use jpl_vision.Common.Memory.{Array, update}
use jpl_vision.Color.Encode.{
  y_from_rgb, put_y, encode_pixel, encode_row, encode_rows, convert_rgb_to_yuv420,
}

module _ (width height : ℕ) (rgb : Array ℕ) where
  -- The place `k` holds the Y value of pixel `k`.
  abbrev Good : Array ℕ → ℕ → Type 0
  Good yuv k = yuv k ≡ y_from_rgb rgb k

  -- No U or V value goes to the place `k` in row `ii`.
  abbrev Safe : ℕ → ℕ → Type 0
  Safe ii k = (k < width * height) ⊎ (ii % 2 ≡ 1)

  one_more :
      (yuv : Array ℕ) (k j : ℕ) → (j ≡ k) ⊎ Good yuv j → Good (update yuv k (y_from_rgb rgb k)) j
  one_more yuv k j h = elim (ℕ_discrete j k) [
    | yes e ↦ ground (arith, ap (y_from_rgb rgb) e)
    | no n ↦ ground arith
  ]

  put_y-Good :
      (k : ℕ) (yuv : Array ℕ) (j : ℕ)
      → (j ≡ k) ⊎ (j ≡ k + width) ⊎ Good yuv j
      → Good (put_y width rgb k yuv) j
  unfolding put_y
  put_y-Good k yuv j h = one_more third (k + width + 1) j (
      inr (elim h [
        | inl e ↦
            one_more second (k + width) j
              (inr (one_more first (k + 1) j (inr (one_more yuv k j (inl e)))))
        | inr (inl e) ↦ one_more second (k + width) j (inl e)
        | inr (inr g) ↦
            one_more second (k + width) j
              (inr (one_more first (k + 1) j (inr (one_more yuv k j (inr g)))))
      ]))
    where
      first : Array ℕ
      first = update yuv k (y_from_rgb rgb k)

      second : Array ℕ
      second = update first (k + 1) (y_from_rgb rgb (k + 1))

      third : Array ℕ
      third = update second (k + width) (y_from_rgb rgb (k + width))

  encode_pixel-at :
      (ii jj : ℕ) (yuv : Array ℕ) (j : ℕ)
      → Safe ii j
      → encode_pixel width height rgb ii jj yuv j ≡ put_y width rgb (ii * width + jj) yuv j
  unfolding encode_pixel
  encode_pixel-at ii jj yuv j h = ground arith

  encode_pixel-Good :
      (ii jj : ℕ) (yuv : Array ℕ) (j : ℕ)
      → Safe ii j
      → (j ≡ ii * width + jj) ⊎ (j ≡ ii * width + jj + width) ⊎ Good yuv j
      → Good (encode_pixel width height rgb ii jj yuv) j
  encode_pixel-Good ii jj yuv j h g =
      encode_pixel-at ii jj yuv j h ∙ put_y-Good (ii * width + jj) yuv j g

  encode_row-Good :
      (n ii jj : ℕ) (yuv : Array ℕ) (j : ℕ)
      → Safe ii j
      → ((x : ℕ) × (jj ≤ x) × (x < jj + n) × ((j ≡ ii * width + x) ⊎ (j ≡ ii * width + x + width)))
        ⊎ Good yuv j
      → Good (encode_row n width height rgb ii jj yuv) j
  unfolding encode_row
  encode_row-Good zero ii jj yuv j s h = elim h [
    | inl (x, a, b, e) ↦ absurd (omega arith)
    | inr g ↦ g
  ]
  encode_row-Good (suc n) ii jj yuv j s h = encode_row-Good n ii (jj + 1) _ j s (elim h [
    | inr g ↦ inr (encode_pixel-Good ii jj yuv j s (inr (inr g)))
    | inl (x, a, b, e) ↦ elim (ℕ_discrete x jj) [
      | no m ↦ inl (x, omega arith, omega arith, e)
      | yes m ↦ inr (
          encode_pixel-Good ii jj yuv j s (elim e [
            | inl q ↦ inl (omega (arith, q, m))
            | inr q ↦ inr (inl (omega (arith, q, m)))
          ]))
    ]
  ])

  encode_rows-keeps :
      (n ii : ℕ) (yuv : Array ℕ) (j : ℕ)
      → j < width * height
      → Good yuv j
      → Good (encode_rows n width height rgb ii yuv) j
  unfolding encode_rows
  encode_rows-keeps zero ii yuv j l g = g
  encode_rows-keeps (suc n) ii yuv j l g =
      encode_rows-keeps n (ii + 1) _ j l (encode_row-Good width ii 0 yuv j (inl l) (inr g))

  encode_rows-Good :
      (n ii : ℕ) (yuv : Array ℕ) (x y : ℕ)
      → x < width
      → ii ≤ y
      → y < ii + n
      → y * width + x < width * height
      → Good (encode_rows n width height rgb ii yuv) (y * width + x)
  unfolding encode_rows
  encode_rows-Good zero ii yuv x y lx a b l = absurd (omega arith)
  encode_rows-Good (suc n) ii yuv x y lx a b l = elim (ℕ_discrete ii y) [
    | no m ↦ encode_rows-Good n (ii + 1) _ x y lx (omega arith) (omega arith) l
    | yes m ↦ encode_rows-keeps n (ii + 1) _ (y * width + x) l (
        encode_row-Good width ii 0 yuv (y * width + x) (inl l)
          (inl (x, omega arith, omega arith, inl (ap (λ z. z * width + x) (sym m)))))
  ]

  -- What the last row writes behind the Y values stays there.
  encode_rows-spill :
      (n ii : ℕ) (yuv : Array ℕ) (x last : ℕ)
      → x < width
      → ii + n ≡ last
      → last % 2 ≡ 1
      → Good (encode_rows (suc n) width height rgb ii yuv) (last * width + x + width)
  unfolding encode_rows
  encode_rows-spill zero ii yuv x last lx e odd =
      encode_row-Good width ii 0 yuv (last * width + x + width) (inr (omega (arith, e, odd))) (
        inl (x, omega arith, omega arith, inr (ap (λ z. z * width + x + width) (omega (arith, e)))))
  encode_rows-spill (suc n) ii yuv x last lx e odd =
      encode_rows-spill n (ii + 1) _ x last lx (omega arith) odd

in_image : (w h x y : ℕ) → x < w → y < h → y * w + x < w * h
in_image w zero x y a b = absurd (omega arith)
in_image w (suc h) x y a b = elim (ℕ_discrete y h) [
  | yes e ↦ last e
  | no n ↦ omega (arith, in_image w h x y a (omega arith), grow)
]
  where
    grow : w * suc h ≡ w * h + w
    grow = omega arith

    last : y ≡ h → y * w + x < w * suc h
    last e = let p : y * w ≡ h * w = ap (λ z. z * w) e in omega (arith, p, grow)

-- Of an image with an even number of rows, at least two, and a buffer that is large enough,
-- convert_rgb_to_yuv420 stores the Y value of every pixel in its place. But it goes on for one row:
-- the first `width` places behind the Y values, which are those of U values, hold Y values as well,
-- computed from what stands behind the RGB image.
pub convert_rgb_to_yuv420-luma :
    (width half : ℕ) (rgb : Array ℕ) (yuv_bytes : ℕ) (yuv : Array ℕ) (x y : ℕ)
    → 0 < half
    → width * (2 * half) + width * (2 * half) / 2 ≤ yuv_bytes
    → x < width
    → y ≤ 2 * half
    → (convert_rgb_to_yuv420 width (2 * half) rgb yuv_bytes yuv).0 (y * width + x)
      ≡ y_from_rgb rgb (y * width + x)
unfolding convert_rgb_to_yuv420
convert_rgb_to_yuv420-luma width half rgb yuv_bytes yuv x y pos_half enough lx ly =
    converted ∙ elim (dec_lt y (2 * half)) [
      | yes h ↦
          encode_rows-Good width (2 * half) rgb (2 * half) 0 yuv x y lx (omega arith) (omega arith)
            (in_image width (2 * half) x y lx h)
      | no h ↦ spilled (2 * half - 1) (2 * half) (omega arith) (omega arith) (omega arith)
    ]
  where
    converted :
        (convert_rgb_to_yuv420 width (2 * half) rgb yuv_bytes yuv).0 (y * width + x)
        ≡ encode_rows (2 * half) width (2 * half) rgb 0 yuv (y * width + x)
    converted = ground arith

    spilled :
        (n rows : ℕ)
        → rows ≡ suc n
        → y ≡ suc n
        → n % 2 ≡ 1
        → encode_rows rows width (2 * half) rgb 0 yuv (y * width + x)
          ≡ y_from_rgb rgb (y * width + x)
    spilled n rows e f odd =
        let place : n * width + x + width ≡ y * width + x = omega (arith, ap (λ z. z * width) f) in
        rw e (
          subst (λ j. encode_rows (suc n) width (2 * half) rgb 0 yuv j ≡ y_from_rgb rgb j) place
            (encode_rows-spill width (2 * half) rgb n 0 yuv x n lx (omega arith) odd))
