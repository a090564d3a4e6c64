-- ===== src/Color/Convert.antt =====
-- convert_yuv420_to_rgb gives every pixel the color of what yuv420_get_pixel reads there.
use jpl_vision.Common.{
  ℕ, zero, suc, ◌+◌, ◌*◌, ◌≤◌, ◌<◌, ◌≡◌, refl, ◌∙◌, ℕ_discrete, inl, ◌⊎◌, arith, subst,
}
use jpl_vision.Common.Memory.{Array}
use jpl_vision.Color.{
  Triple, yuv420_get_pixel, rgb_from_yuv, put_rgb, pixel_color, convert_row, convert_rows,
  convert_yuv420_to_rgb,
}

-- The color at `k` is `t`.
pub record HasColor (rgb : Array ℕ) (k : ℕ) (t : Triple) : Type 0 where
  pub red : rgb k ≡ t.first
  pub green : rgb (k + 1) ≡ t.second
  pub blue : rgb (k + 2) ≡ t.third

put_rgb-HasColor : (rgb : Array ℕ) (k : ℕ) (t : Triple) → HasColor (put_rgb rgb k t) k t
put_rgb-HasColor rgb k t = record { red = ground arith; green = ground arith; blue = ground arith }

put_rgb-other :
    (rgb : Array ℕ) (k : ℕ) (t : Triple) (j : ℕ) → (j < k) ⊎ (k + 2 < j) → put_rgb rgb k t j ≡ rgb j
put_rgb-other rgb k t j h = ground arith

module _ (cols rows : ℕ) (yuv : Array ℕ) where
  -- The loop leaves what stands in front of its place.
  convert_row-before :
      (n ii jj : ℕ) (rgb : Array ℕ) (j : ℕ)
      → j < ii * (3 * cols) + 3 * jj
      → convert_row n cols rows yuv ii jj rgb j ≡ rgb j
  unfolding convert_row
  convert_row-before zero ii jj rgb j h = refl
  convert_row-before (suc n) ii jj rgb j h =
      convert_row-before n ii (jj + 1) _ j (omega arith)
      ∙ put_rgb-other rgb (ii * (3 * cols) + 3 * jj) _ j (inl h)

  HasColor-kept :
      (rgb rgb' : Array ℕ) (k stop : ℕ) (t : Triple)
      → k + 2 < stop
      → ((j : ℕ) → j < stop → rgb' j ≡ rgb j)
      → HasColor rgb k t
      → HasColor rgb' k t
  HasColor-kept rgb rgb' k stop t h same c = record {
    red = same k (omega arith) ∙ c.red;
    green = same (k + 1) (omega arith) ∙ c.green;
    blue = same (k + 2) h ∙ c.blue;
  }

  convert_row-HasColor :
      (n ii jj : ℕ) (rgb : Array ℕ) (x : ℕ)
      → jj ≤ x
      → x < jj + n
      → HasColor
          (convert_row n cols rows yuv ii jj rgb)
          (ii * (3 * cols) + 3 * x)
          (pixel_color cols rows yuv ii x)
  unfolding convert_row
  convert_row-HasColor zero ii jj rgb x h l = absurd (omega arith)
  convert_row-HasColor (suc n) ii jj rgb x h l = elim (ℕ_discrete jj x) [
    | no ne ↦ convert_row-HasColor n ii (jj + 1) _ x (omega arith) (omega arith)
    | yes e ↦
        subst
          (λ y.
            HasColor (convert_row (suc n) cols rows yuv ii jj rgb) (ii * (3 * cols) + 3 * y)
              (pixel_color cols rows yuv ii y))
          e
          (HasColor-kept _ _ (ii * (3 * cols) + 3 * jj) (ii * (3 * cols) + 3 * (jj + 1)) _
            (omega arith) (convert_row-before n ii (jj + 1) _) (put_rgb-HasColor rgb _ _))
  ]

  next_row : (ii : ℕ) → (ii + 1) * (3 * cols) ≡ ii * (3 * cols) + 3 * cols
  next_row ii = omega arith

  convert_rows-before :
      (n ii : ℕ) (rgb : Array ℕ) (j : ℕ)
      → j < ii * (3 * cols)
      → convert_rows n cols rows yuv ii rgb j ≡ rgb j
  unfolding convert_rows
  convert_rows-before zero ii rgb j h = refl
  convert_rows-before (suc n) ii rgb j h =
      convert_rows-before n (ii + 1) _ j (omega (arith, next_row ii))
      ∙ convert_row-before cols ii 0 rgb j (omega arith)

  convert_rows-HasColor :
      (n ii : ℕ) (rgb : Array ℕ) (x y : ℕ)
      → x < cols
      → ii ≤ y
      → y < ii + n
      → HasColor
          (convert_rows n cols rows yuv ii rgb)
          (y * (3 * cols) + 3 * x)
          (pixel_color cols rows yuv y x)
  unfolding convert_rows
  convert_rows-HasColor zero ii rgb x y lx h l = absurd (omega arith)
  convert_rows-HasColor (suc n) ii rgb x y lx h l = elim (ℕ_discrete ii y) [
    | no ne ↦ convert_rows-HasColor n (ii + 1) _ x y lx (omega arith) (omega arith)
    | yes e ↦
        subst
          (λ z.
            HasColor (convert_rows (suc n) cols rows yuv ii rgb) (z * (3 * cols) + 3 * x)
              (pixel_color cols rows yuv z x))
          e
          (HasColor-kept _ _ (ii * (3 * cols) + 3 * x) ((ii + 1) * (3 * cols)) _
            (omega (arith, next_row ii)) (convert_rows-before n (ii + 1) _)
            (convert_row-HasColor cols ii 0 rgb x (omega arith) (omega arith)))
  ]

  pixel_color_lem :
      (x y : ℕ)
      → x < cols
      → y < rows
      → let t = yuv420_get_pixel cols rows yuv x y in
        pixel_color cols rows yuv y x ≡ rgb_from_yuv t.first t.second t.third
  unfolding pixel_color yuv420_get_pixel
  pixel_color_lem x y lx ly = ground arith

  -- convert_yuv420_to_rgb gives every pixel of the image the color of the YUV values that
  -- yuv420_get_pixel reads at that place.
  pub convert_yuv420_to_rgb-pixel :
      (rgb : Array ℕ) (x y : ℕ)
      → x < cols
      → y < rows
      → let t = yuv420_get_pixel cols rows yuv x y in
        HasColor
          (convert_yuv420_to_rgb cols rows yuv rgb)
          (y * (3 * cols) + 3 * x)
          (rgb_from_yuv t.first t.second t.third)
  unfolding convert_yuv420_to_rgb
  convert_yuv420_to_rgb-pixel rgb x y lx ly =
      subst (HasColor (convert_rows rows cols rows yuv 0 rgb) (y * (3 * cols) + 3 * x))
        (pixel_color_lem x y lx ly)
        (convert_rows-HasColor rows 0 rgb x y lx (omega arith) (omega arith))
