-- ===== src/Blobs/Draw/Tests.antt =====
-- Two boxes in an image of 16 columns and 8 rows, of which one belongs to a blob that is too small.
use jpl_vision.Common.{ℕ, ◌+◌, ◌*◌, ◌≡◌, ◌==◌, if◌then◌else◌, arith}
use jpl_vision.Common.Memory.{Array}
use jpl_vision.Blobs.Types.{BlobList, BlobStats}
use jpl_vision.Blobs.Forest.Tests.{four_entries}
use jpl_vision.Blobs.Draw.{draw_bounding_boxes}
use jpl_vision.Blobs.Draw.Luma.{on_large_border, draw_bounding_boxes-luma}

abbrev boxed : ℕ → BlobStats
boxed k = record {
  count = if k == 0 then 3 else 20;
  sum_x = 0;
  sum_y = 0;
  min_x = 2;
  max_x = 9;
  min_y = 1;
  max_y = 6;
}

abbrev two_boxes : BlobList
two_boxes = record four_entries {
  root_info = λ k. record { stats = boxed k; set_index = k };
  used_root_list_count = 2;
}

abbrev white : Array ℕ
white k = if k == 0 then 255 else 128

abbrev gray : Array ℕ
gray k = k

draw_bounding_boxes-luma_example :
    draw_bounding_boxes two_boxes 5 white 16 8 gray (6 * 16 + 4) ≡ 255
unfolding on_large_border
draw_bounding_boxes-luma_example =
    draw_bounding_boxes-luma two_boxes 5 16 8 4 6 white gray
      (λ k l. record {
        wide = omega arith;
        high = omega arith;
        right = omega arith;
        bottom = omega arith;
      })
      (omega arith) (omega arith)
