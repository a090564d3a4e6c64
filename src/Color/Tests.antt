-- ===== src/Color/Tests.antt =====
-- A gray RGB image of two rows of four pixels, and a YUV image of the same size.
use jpl_vision.Common.{ℕ, ◌+◌, ◌*◌, ◌≡◌, ltb, if◌then◌else◌, arith}
use jpl_vision.Common.Memory.{Array}
use jpl_vision.Color.{rgb_from_yuv, yuv420_get_pixel, convert_yuv420_to_rgb}
use jpl_vision.Color.Convert.{HasColor, convert_yuv420_to_rgb-pixel}
use jpl_vision.Color.Encode.{y_from_rgb, convert_rgb_to_yuv420}
use jpl_vision.Color.Encode.Luma.{convert_rgb_to_yuv420-luma}

-- The image has 24 bytes.
abbrev gray : Array ℕ
gray k = if ltb k 24 then 100 else 0

abbrev blank : Array ℕ
blank k = 0

abbrev yuv_image : Array ℕ
yuv_image k = if ltb k 8 then 60 + k else 120 + k

convert_yuv420_to_rgb-pixel_example :
    let t = yuv420_get_pixel 4 2 yuv_image 3 1 in
    HasColor
      (convert_yuv420_to_rgb 4 2 yuv_image blank)
      (1 * (3 * 4) + 3 * 3)
      (rgb_from_yuv t.first t.second t.third)
convert_yuv420_to_rgb-pixel_example =
    convert_yuv420_to_rgb-pixel 4 2 yuv_image blank 3 1 (omega arith) (omega arith)

-- The first U value of the image becomes the Y value of what stands behind the RGB image.
convert_rgb_to_yuv420-luma_example :
    (convert_rgb_to_yuv420 4 (2 * 1) gray 12 blank).0 (2 * 4 + 0) ≡ y_from_rgb gray (2 * 4 + 0)
convert_rgb_to_yuv420-luma_example =
    convert_rgb_to_yuv420-luma 4 1 gray 12 blank 0 2 (omega arith) (omega arith) (omega arith)
      (omega arith)
