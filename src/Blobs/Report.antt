-- ===== src/Blobs/Report.antt =====
-- What is read out of a Blob_List after the detection: blob_list_purge_small_bboxes,
-- copy_best_bounding_boxes and copy_best_bboxes_to_blob_stats_array of detect_color_blobs.c.
pub mod Purge
pub mod Copy
mod Tests
use jpl_vision.Common.{
  ℕ, zero, suc, ◌+◌, ◌-◌, ◌*◌, ◌/◌, Option, none, some, ltb, leb, if◌then◌else◌, ◌>>=◌,
}
use jpl_vision.Common.Memory.{Array, update}
use jpl_vision.Blobs.Types.{BlobList, BlobStats, RootInfo}
use jpl_vision.Blobs.Forest.{set_root_list_entry}

-- The first loop: how many root entries at the start are large enough, with `n` rounds left.
pub large_prefix : ℕ → Array RootInfo → ℕ → ℕ → ℕ
large_prefix zero info min_pixels ok = ok
large_prefix (suc n) info min_pixels ok =
    let rest = large_prefix n info min_pixels (ok + 1) in
    if ltb (info ok).stats.count min_pixels then ok else rest

-- The second loop, from root entry `rx` on, with `n` rounds left: the new list and ok_count.
pub compact : ℕ → BlobList → ℕ → ℕ → ℕ → Option (BlobList × ℕ)
compact zero p min_pixels ok rx = some (p, ok)
compact (suc n) p min_pixels ok rx =
    let keep = (do
      let moved = record p { root_info = update p.root_info ok (p.root_info rx) }
      q ← set_root_list_entry moved ok (moved.root_info rx).set_index
      compact n q min_pixels (ok + 1) (rx + 1)) in
    let skip = compact n p min_pixels ok (rx + 1) in
    if leb min_pixels (p.root_info rx).stats.count then keep else skip

-- The new list; the code returns its used_root_list_count.
pub blob_list_purge_small_bboxes : BlobList → ℕ → Option BlobList
unfolding large_prefix compact
blob_list_purge_small_bboxes p min_pixels = do
  let used = p.used_root_list_count
  let ok = large_prefix used p.root_info min_pixels 0
  (q, count) ← compact (used - ok) p min_pixels ok ok
  some (record q { used_root_list_count = count })

-- bbox_element[k * 4 + 0 .. 3] = the box of `s`
abbrev pub write_box : Array ℕ → ℕ → BlobStats → Array ℕ
write_box out k s =
    update (update (update (update out (k * 4) s.min_x) (k * 4 + 1) s.min_y) (k * 4 + 2) s.max_x)
      (k * 4 + 3) s.max_y

-- The loop from root entry `k` on, with `n` rounds left: the array and the final `k`.
pub copy_boxes : ℕ → Array RootInfo → ℕ → Array ℕ → ℕ → Array ℕ × ℕ
copy_boxes zero info limit out k = (out, k)
copy_boxes (suc n) info limit out k =
    let out' = write_box out k (info k).stats in
    let rest = copy_boxes n info limit out' (k + 1) in
    if leb (limit / 4) (k + 1) then (out', k + 1) else rest

-- qsort_r with the comparison of sort_blobs_by_pixel_count is an argument: what it makes of the
-- first `n` elements of an array.
pub copy_best_bounding_boxes :
    (ℕ → Array RootInfo → Array RootInfo) → BlobList → ℕ → Array ℕ → BlobList × Array ℕ × ℕ
unfolding copy_boxes
copy_best_bounding_boxes qsort p limit out =
    let info = qsort p.used_root_list_count p.root_info in
    let (out', k) = copy_boxes p.used_root_list_count info limit out 0 in
    (record p { root_info = info }, out', k * 4)

-- The loop from root entry `i` on, with `n` rounds left: the array and the final `i`.
pub copy_stats : ℕ → Array RootInfo → ℕ → Array BlobStats → ℕ → Array BlobStats × ℕ
copy_stats zero info limit out i = (out, i)
copy_stats (suc n) info limit out i =
    let out' = update out i (info i).stats in
    let rest = copy_stats n info limit out' (i + 1) in if leb limit i then (out', i) else rest

pub copy_best_bboxes_to_blob_stats_array : BlobList → ℕ → Array BlobStats → Array BlobStats × ℕ
unfolding copy_stats
copy_best_bboxes_to_blob_stats_array p limit out =
    copy_stats p.used_root_list_count p.root_info limit out 0
