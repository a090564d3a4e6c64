-- ===== src/Blobs/Total.antt =====
-- get_total_blob_pixel_count of detect_color_blobs.c: the pixels in all blobs.
pub mod Changes
use jpl_vision.Common.{ℕ, zero, suc, ◌+◌, ◌%◌}
use jpl_vision.Common.Memory.{Array}
use jpl_vision.Blobs.Types.{BlobList, RootInfo, u32}

-- The loop from root entry `i`, with `n` rounds left.
total_from : Array RootInfo → ℕ → ℕ → ℕ → ℕ
total_from info zero i total = total
total_from info (suc n) i total = total_from info n (i + 1) ((total + (info i).stats.count) % u32)

pub get_total_blob_pixel_count : BlobList → ℕ
unfolding total_from
get_total_blob_pixel_count p = total_from p.root_info p.used_root_list_count 0 0
