-- ===== src/Color.antt =====
-- Pixels and colors of YUV420 images: yuv420_get_pixel and convert_yuv420_to_rgb of yuv420.c. The
-- numbers of pixels are taken not to wrap, as for every image that fits in memory.
pub mod Convert
pub mod Encode
mod Tests
use jpl_vision.Common.{ℕ, zero, suc, ◌+◌, ◌*◌, ◌/◌, ◌||◌, ltb, leb, if◌then◌else◌}
use jpl_vision.Common.Memory.{Array, update}
use jpl_vision.Common.Int.{ℤ, pos, pos_part, ◌+ℤ◌, ◌-ℤ◌, scale, ltb_ℤ}

-- A YUV pixel, and an RGB pixel.
pub record Triple : Type 0 where
  pub first : ℕ
  pub second : ℕ
  pub third : ℕ

pub yuv420_get_pixel : ℕ → ℕ → Array ℕ → ℕ → ℕ → Triple
yuv420_get_pixel cols rows yuv x y =
    let pixels = cols * rows in
    let uv_offset = y / 2 * (cols / 2) + x / 2 in
    if leb cols x || leb rows y then record { first = 0; second = 0; third = 0 } else record {
      first = yuv (y * cols + x);
      second = yuv (pixels + uv_offset);
      third = yuv (pixels + uv_offset + pixels / 4);
    }

-- limit255 (val >> 8): a negative value gives 0.
pub limit255_shift : ℤ → ℕ
limit255_shift val =
    if ltb_ℤ val (pos 0)
    then 0
    else if ltb 255 (pos_part val / 256)
    then 255
    else pos_part val / 256

-- The color of a pixel of values y, u and v.
pub rgb_from_yuv : ℕ → ℕ → ℕ → Triple
rgb_from_yuv y u v =
    let c = pos y -ℤ pos 16 in
    let d = pos u -ℤ pos 128 in
    let e = pos v -ℤ pos 128 in
    record {
      first = limit255_shift (scale 298 c +ℤ scale 409 e +ℤ pos 128);
      second = limit255_shift (scale 298 c -ℤ scale 100 d -ℤ scale 208 e +ℤ pos 128);
      third = limit255_shift (scale 298 c +ℤ scale 516 d +ℤ pos 128);
    }

-- row[3 * jj + 0 .. 2] = the color
abbrev pub put_rgb : Array ℕ → ℕ → Triple → Array ℕ
put_rgb rgb k t = update (update (update rgb k t.first) (k + 1) t.second) (k + 2) t.third

-- The color that the loop body computes for column `jj` of row `ii`.
pub pixel_color : ℕ → ℕ → Array ℕ → ℕ → ℕ → Triple
pixel_color cols rows yuv ii jj =
    let pixels = cols * rows in
    let uv_offset = ii / 2 * (cols / 2) + jj / 2 in
    rgb_from_yuv (yuv (ii * cols + jj)) (yuv (pixels + uv_offset))
      (yuv (pixels + uv_offset + pixels / 4))

-- The loop over the columns of row `ii`, from `jj` on with `n` left.
pub convert_row : ℕ → ℕ → ℕ → Array ℕ → ℕ → ℕ → Array ℕ → Array ℕ
convert_row zero cols rows yuv ii jj rgb = rgb
convert_row (suc n) cols rows yuv ii jj rgb =
    convert_row n cols rows yuv ii (jj + 1)
      (put_rgb rgb (ii * (3 * cols) + 3 * jj) (pixel_color cols rows yuv ii jj))

-- The loop over the rows, from `ii` on with `n` left.
pub convert_rows : ℕ → ℕ → ℕ → Array ℕ → ℕ → Array ℕ → Array ℕ
unfolding convert_row
convert_rows zero cols rows yuv ii rgb = rgb
convert_rows (suc n) cols rows yuv ii rgb =
    convert_rows n cols rows yuv (ii + 1) (convert_row cols cols rows yuv ii 0 rgb)

pub convert_yuv420_to_rgb : ℕ → ℕ → Array ℕ → Array ℕ → Array ℕ
unfolding convert_rows
convert_yuv420_to_rgb cols rows yuv rgb = convert_rows rows cols rows yuv 0 rgb
