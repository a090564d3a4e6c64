-- ===== src/Space.antt =====
-- The test image of all colors, yuv_color_space_image.c. What the processor makes of
-- (int)(k * (256.0 / pixels_per_side) + 0.5) is an argument `ramp`, of pixels_per_side and k. The
-- result is `none` where an assert fails.
pub mod Luma
mod Tests
use jpl_vision.Common.{
  ℕ, zero, suc, ◌+◌, ◌-◌, ◌*◌, ◌/◌, ◌%◌, min, ◌&&◌, Option, none, some, ltb, ◌==◌, if◌then◌else◌,
}
use jpl_vision.Common.Memory.{Array, update}
use jpl_vision.Common.Int.{ℤ, pos, ltb_ℤ, pos_part}

-- limit, of the number that is rounded
pub limit : ℤ → ℕ
limit rounded =
    if ltb_ℤ rounded (pos 0) then 0 else if ltb_ℤ (pos 255) rounded then 255 else pos_part rounded

-- A loop that sets `n` elements from index `k` on to `v`.
pub set_run : ℕ → Array ℕ → ℕ → ℕ → Array ℕ
set_run zero yuv k v = yuv
set_run (suc n) yuv k v = set_run n (update yuv k v) (k + 1) v

-- The loops over the rows from `ii` on, with `n` left: first those in the square, then those below.
pub y_rows : ℕ → ℕ → ℕ → ℕ → Array ℕ → ℕ → Array ℕ
unfolding set_run
y_rows zero cols side y yuv ii = yuv
y_rows (suc n) cols side y yuv ii =
    y_rows n cols side y
      (set_run (cols - side) (set_run side yuv (ii * cols) y) (ii * cols + side) 0) (ii + 1)

pub black_rows : ℕ → ℕ → Array ℕ → ℕ → Array ℕ
unfolding set_run
black_rows zero cols yuv ii = yuv
black_rows (suc n) cols yuv ii = black_rows n cols (set_run cols yuv (ii * cols) 0) (ii + 1)

-- The loop over the columns of a row of U and V values, from `jj2` on with `n` left, in the square.
pub ramp_row : ℕ → (ℕ → ℕ → ℤ) → ℕ → ℕ → Array ℕ → ℕ → ℕ → ℕ → Array ℕ
unfolding limit
ramp_row zero ramp side ii2 yuv u_offset v_offset jj2 = yuv
ramp_row (suc n) ramp side ii2 yuv u_offset v_offset jj2 =
    let us = update yuv (u_offset + jj2) (limit (ramp side (2 * jj2))) in
    ramp_row n ramp side ii2 (update us (v_offset + jj2) (limit (ramp side (side - 2 * ii2))))
      u_offset v_offset (jj2 + 1)

-- The same beside the square.
pub gray_row : ℕ → Array ℕ → ℕ → ℕ → ℕ → Array ℕ
gray_row zero yuv u_offset v_offset jj2 = yuv
gray_row (suc n) yuv u_offset v_offset jj2 =
    gray_row n (update (update yuv (u_offset + jj2) 128) (v_offset + jj2) 128) u_offset v_offset
      (jj2 + 1)

pub uv_rows : ℕ → (ℕ → ℕ → ℤ) → ℕ → ℕ → ℕ → Array ℕ → ℕ → Array ℕ
unfolding ramp_row gray_row
uv_rows zero ramp cols rows side yuv ii2 = yuv
uv_rows (suc n) ramp cols rows side yuv ii2 =
    let u_offset = cols * rows + ii2 * (cols / 2) in
    let v_offset = u_offset + cols * rows / 4 in
    let square = ramp_row (side / 2) ramp side ii2 yuv u_offset v_offset 0 in
    uv_rows n ramp cols rows side
      (gray_row (cols / 2 - side / 2) square u_offset v_offset (side / 2)) (ii2 + 1)

pub gray_rows : ℕ → ℕ → ℕ → Array ℕ → ℕ → Array ℕ
unfolding gray_row
gray_rows zero cols rows yuv ii2 = yuv
gray_rows (suc n) cols rows yuv ii2 =
    let u_offset = cols * rows + ii2 * (cols / 2) in
    gray_rows n cols rows (gray_row (cols / 2) yuv u_offset (u_offset + cols * rows / 4) 0)
      (ii2 + 1)

pub yuv_color_space_image : (ℕ → ℕ → ℤ) → ℕ → ℕ → ℕ → Array ℕ → Option (Array ℕ)
unfolding y_rows black_rows uv_rows gray_rows
yuv_color_space_image ramp cols rows y yuv =
    let side = min cols rows in
    let y1 = y_rows side cols side y yuv 0 in
    let y2 = black_rows (rows - side) cols y1 side in
    let uv1 = uv_rows (side / 2) ramp cols rows side y2 0 in
    let uv2 = gray_rows (rows / 2 - side / 2) cols rows uv1 (side / 2) in
    if cols % 2 == 0 && rows % 2 == 0 then some uv2 else none
