-- ===== src/Space/Tests.antt =====
-- The image of 8 columns and 6 rows.
use jpl_vision.Common.{ℕ, ◌+◌, ◌*◌, ◌/◌, ◌≡◌, refl, some, arith}
use jpl_vision.Common.Memory.{Array}
use jpl_vision.Common.Int.{ℤ, pos}
use jpl_vision.Space.{yuv_color_space_image}
use jpl_vision.Space.Luma.{yuv_color_space_image-luma}

abbrev ramp : ℕ → ℕ → ℤ
ramp side k = pos (k * 256 / side)

yuv_color_space_image-luma_example :
    (out : Array ℕ) × (yuv_color_space_image ramp 8 6 77 (λ k. 1) ≡ some out)
    × (out (5 * 8 + 3) ≡ 77)
yuv_color_space_image-luma_example =
    yuv_color_space_image-luma ramp 8 6 77 3 5 (λ k. 1) refl refl (omega arith) (omega arith)
