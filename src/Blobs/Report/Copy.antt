-- ===== src/Blobs/Report/Copy.antt =====
-- What the two copying functions write, and where.
use jpl_vision.Common.{
  ℕ, zero, suc, ◌+◌, ◌*◌, ◌/◌, ◌≤◌, ◌<◌, ◌≡◌, min, max, ◌==◌, arith, dec_lt, ltb, if◌then◌else◌,
}
use jpl_vision.Common.Memory.{Array, update}
use jpl_vision.Blobs.Types.{BlobList, BlobStats, RootInfo}
use jpl_vision.Blobs.Report.{
  copy_boxes, write_box, copy_best_bounding_boxes, copy_stats, copy_best_bboxes_to_blob_stats_array,
}

copy_stats-at :
    (n : ℕ) (info : Array RootInfo) (limit : ℕ) (out : Array BlobStats) (i j : ℕ)
    → i ≤ limit
    → ((copy_stats n info limit out i).1 ≡ min (i + n) limit)
      × ((copy_stats n info limit out i).0 j ≡ (
          if ltb j i
          then out j
          else (if ltb j (min (i + n) (limit + 1)) then (info j).stats else out j)))
unfolding copy_stats
copy_stats-at zero info limit out i j h = ground arith
copy_stats-at (suc n) info limit out i j h = elim (dec_lt i limit) [
  | no k ↦ ground arith
  | yes k ↦ ground (arith, copy_stats-at n info limit (update out i (info i).stats) (i + 1) j)
]

-- copy_best_bboxes_to_blob_stats_array returns the number of blobs, or `limit` if there are more.
-- It writes that many elements, in the order of the root list, and, if there are more blobs than
-- `limit`, also the element behind the `limit` elements of the array that it was given.
pub copy_stats_lem :
    (p : BlobList) (limit : ℕ) (out : Array BlobStats) (j : ℕ)
    → let (out', n) = copy_best_bboxes_to_blob_stats_array p limit out in
      (n ≡ min p.used_root_list_count limit)
      × (out' j ≡ (
          if ltb j (min p.used_root_list_count (limit + 1)) then (p.root_info j).stats else out j))
unfolding copy_best_bboxes_to_blob_stats_array
copy_stats_lem p limit out j =
    ground (arith, copy_stats-at p.used_root_list_count p.root_info limit out 0 j)

-- The coordinate at place `c` of a box: left, top, right, bottom.
abbrev pub box_at : BlobStats → ℕ → ℕ
box_at s zero = s.min_x
box_at s (suc zero) = s.min_y
box_at s (suc (suc zero)) = s.max_x
box_at s (suc (suc (suc c))) = s.max_y

write_box-at :
    (out : Array ℕ) (k : ℕ) (s : BlobStats) (i c : ℕ)
    → c < 4
    → write_box out k s (i * 4 + c) ≡ (if i == k then box_at s c else out (i * 4 + c))
write_box-at out k s i zero h = ground arith
write_box-at out k s i (suc zero) h = ground arith
write_box-at out k s i (suc (suc zero)) h = ground arith
write_box-at out k s i (suc (suc (suc zero))) h = ground arith
write_box-at out k s i (suc (suc (suc (suc c)))) h = absurd (omega arith)

copy_boxes-at :
    (n : ℕ) (info : Array RootInfo) (limit : ℕ) (out : Array ℕ) (k i c : ℕ)
    → c < 4
    → k < max 1 (limit / 4)
    → ((copy_boxes n info limit out k).1 ≡ min (k + n) (max 1 (limit / 4)))
      × ((copy_boxes n info limit out k).0 (i * 4 + c) ≡ (
          if ltb i k
          then out (i * 4 + c)
          else (if ltb i (min (k + n) (max 1 (limit / 4)))
              then box_at (info i).stats c
              else out (i * 4 + c))))
unfolding copy_boxes
copy_boxes-at zero info limit out k i c h l = ground arith
copy_boxes-at (suc n) info limit out k i c h l = elim (dec_lt (k + 1) (limit / 4)) [
  | no m ↦ ground (arith, write_box-at out k (info k).stats i c h)
  | yes m ↦ ground (
    arith,
    write_box-at out k (info k).stats i c h,
    copy_boxes-at n info limit (write_box out k (info k).stats) (k + 1) i c h,
  )
]

-- copy_best_bounding_boxes writes the boxes of the first root entries, as qsort_r has ordered them,
-- four coordinates each: as many as the array of `limit` elements holds, but one at least if there is
-- a blob, also if the array holds fewer than four elements. It returns the number of coordinates.
pub copy_boxes_lem :
    (qsort : ℕ → Array RootInfo → Array RootInfo) (p : BlobList) (limit : ℕ) (out : Array ℕ)
    (i c : ℕ)
    → c < 4
    → let (q, out', n) = copy_best_bounding_boxes qsort p limit out in
      let boxes = min p.used_root_list_count (max 1 (limit / 4)) in
      (n ≡ boxes * 4)
      × (out' (i * 4 + c) ≡ (
          if ltb i boxes
          then box_at (qsort p.used_root_list_count p.root_info i).stats c
          else out (i * 4 + c)))
unfolding copy_best_bounding_boxes
copy_boxes_lem qsort p limit out i c h = ground (
  arith,
  copy_boxes-at p.used_root_list_count (qsort p.used_root_list_count p.root_info) limit out 0 i c h,
)
