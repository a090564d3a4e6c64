-- ===== src/Tif/Tests.antt =====
-- A header of 100 bytes for the tags, of which the data of one box fits, and one of 5 bytes.
use jpl_vision.Common.{
  ℕ, ◌+◌, ◌*◌, ◌%◌, ◌^◌, ◌≤◌, ◌≡◌, refl, ◌<◌, ◌⊎◌, false, true, some, ◌==◌, if◌then◌else◌, arith,
}
use jpl_vision.Common.Memory.{Array}
use jpl_vision.Common.Int.{pos, negsuc}
use jpl_vision.Tif.{TifInfo, byte_count, coord_count, is_jpeg, overwrite_tif_tags}
use jpl_vision.Tif.Reader.{read_tags, tiff_part, info_tags}
use jpl_vision.Tif.Read.{overwrite_tif_tags_read, overwrite_tif_tags_changed}

-- The scale of an image of half the width and height.
abbrev info : TifInfo
info = record {
  width = 320;
  height = 240;
  vwidth = 640;
  vheight = 480;
  exposure = 33_000;
  analog_gain = 0x3f80_0000;
  digital_gain = 0x3fc0_0000;
  awb_red_gain = 0x4000_0000;
  awb_blue_gain = 0x3f00_0000;
  yuv_0 = 100;
  yuv_1 = 120;
  yuv_2 = 140;
  flags = 1;
  scale = λ v w c. 2 * c % 2 ^ 16;
}

abbrev box : Array ℕ
box k = 10 + k

abbrev jpeg : ℕ → Array ℕ
jpeg size k =
    if k == 0
    then 0xff
    else if k == 1
    then 0xd8
    else if k == 2
    then 0xff
    else if k == 3
    then 0xe1
    else if k == 5
    then size
    else 0

overwrite_tif_tags_read_example :
    let n = coord_count (byte_count (jpeg 108)) 8 in
    let (out, retval) = overwrite_tif_tags info box 8 (jpeg 108) in
    (n ≤ 8)
    × (78 + 2 * n ≤ byte_count (jpeg 108))
    × (n % 4 ≡ 0)
    × (retval ≡ pos n)
    × (read_tags (tiff_part out) ≡ some (info_tags info box n))
overwrite_tif_tags_read_example =
    overwrite_tif_tags_read info box 8 (jpeg 108)
      (record {
        exposure_size = omega arith;
        analog_size = omega arith;
        digital_size = omega arith;
        red_size = omega arith;
        blue_size = omega arith;
        scale_size = λ v w c. omega arith;
      })
      refl (omega arith)

overwrite_tif_tags_changed_example :
    let out = overwrite_tif_tags info box 8 (jpeg 5) in
    ((is_jpeg (jpeg 5) ≡ false) ⊎ (8 ≤ 5) × (5 < 86)) × (out ≡ (jpeg 5, negsuc 0))
    ⊎ ((is_jpeg (jpeg 5) ≡ true)
        × ((5 < 8) ⊎ (86 ≤ 5))
        × (n : ℕ) × (out.1 ≡ pos n)
        × ((k : ℕ) → (k < 12) ⊎ (65545 ≤ k) → out.0 k ≡ jpeg 5 k)
        × ((k : ℕ) → 90 + 2 * n ≤ k → k < 65545 → out.0 k ≡ 0))
overwrite_tif_tags_changed_example =
    overwrite_tif_tags_changed info box 8 (jpeg 5) (omega arith) (omega arith)
