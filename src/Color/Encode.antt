-- ===== src/Color/Encode.antt =====
-- convert_rgb_to_yuv420 of yuv420.c. The components of `rgb` are bytes; the two color differences
-- are computed from a sum that is moved up by 128 * 256, so that it is not negative before the shift.
pub mod Luma
use jpl_vision.Common.{ℕ, zero, suc, ◌+◌, ◌-◌, ◌*◌, ◌/◌, ◌%◌, Bool, ◌&&◌, ltb, ◌==◌, if◌then◌else◌}
use jpl_vision.Common.Memory.{Array, update}
use jpl_vision.Common.Int.{ℤ, pos, negsuc}

-- The components of the pixel at place `k` of an RGB image.
pub y_from_rgb : Array ℕ → ℕ → ℕ
y_from_rgb rgb k =
    ((66 * rgb (k * 3) + 129 * rgb (k * 3 + 1) + 25 * rgb (k * 3 + 2) + 128) / 256 + 16) % 256

pub u_from_rgb : Array ℕ → ℕ → ℕ
u_from_rgb rgb k =
    (112 * rgb (k * 3 + 2) + 128 + 32768 - 38 * rgb (k * 3) - 74 * rgb (k * 3 + 1)) / 256 % 256

pub v_from_rgb : Array ℕ → ℕ → ℕ
v_from_rgb rgb k =
    (112 * rgb (k * 3) + 128 + 32768 - 94 * rgb (k * 3 + 1) - 18 * rgb (k * 3 + 2)) / 256 % 256

-- The mean of a component over a pixel and its right, lower and lower right neighbor.
abbrev pub mean_of_four : (ℕ → ℕ) → ℕ → ℕ → ℕ
mean_of_four part k width =
    (part k + part (k + 1) + part (k + width) + part (k + width + 1) + 2) / 4

-- The four Y values that the loop body writes.
pub put_y : ℕ → Array ℕ → ℕ → Array ℕ → Array ℕ
put_y width rgb k yuv =
    update
      (update (update (update yuv k (y_from_rgb rgb k)) (k + 1) (y_from_rgb rgb (k + 1)))
        (k + width) (y_from_rgb rgb (k + width)))
      (k + width + 1) (y_from_rgb rgb (k + width + 1))

-- The loop body for column `jj` of row `ii`.
pub encode_pixel : ℕ → ℕ → Array ℕ → ℕ → ℕ → Array ℕ → Array ℕ
unfolding put_y
encode_pixel width height rgb ii jj yuv =
    let pixels = width * height in
    let k = ii * width + jj in
    let uvno = ii / 2 * (width / 2) + jj / 2 in
    let with_y = put_y width rgb k yuv in
    let with_u = update with_y (pixels + uvno) (mean_of_four (u_from_rgb rgb) k width) in
    if ii % 2 == 0 && jj % 2 == 0
    then update with_u (pixels + pixels / 4 + uvno) (mean_of_four (v_from_rgb rgb) k width)
    else with_y

-- The columns of row `ii`, from `jj` on with `n` left.
pub encode_row : ℕ → ℕ → ℕ → Array ℕ → ℕ → ℕ → Array ℕ → Array ℕ
unfolding encode_pixel
encode_row zero width height rgb ii jj yuv = yuv
encode_row (suc n) width height rgb ii jj yuv =
    encode_row n width height rgb ii (jj + 1) (encode_pixel width height rgb ii jj yuv)

-- The rows from `ii` on, with `n` left.
pub encode_rows : ℕ → ℕ → ℕ → Array ℕ → ℕ → Array ℕ → Array ℕ
unfolding encode_row
encode_rows zero width height rgb ii yuv = yuv
encode_rows (suc n) width height rgb ii yuv =
    encode_rows n width height rgb (ii + 1) (encode_row width width height rgb ii 0 yuv)

pub convert_rgb_to_yuv420 : ℕ → ℕ → Array ℕ → ℕ → Array ℕ → Array ℕ × ℤ
unfolding encode_rows
convert_rgb_to_yuv420 width height rgb yuv_bytes yuv =
    let pixels = width * height in
    let required = pixels + pixels / 2 in
    if ltb yuv_bytes required
    then (yuv, negsuc 0)
    else (encode_rows height width height rgb 0 yuv, pos required)
