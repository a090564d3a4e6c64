-- ===== src/Blobs/Report/Tests.antt =====
-- What is read out of the list of four entries, whose two blobs have 6 and 12 pixels.
use jpl_vision.Common.{ℕ, ◌+◌, ◌≤◌, ◌≡◌, some, min, ltb, if◌then◌else◌, ◌==◌}
use jpl_vision.Common.Memory.{Array}
use jpl_vision.Blobs.Types.{BlobList, RootInfo}
use jpl_vision.Blobs.Forest.Tests.{
  some_stats, four_entries, four_reps, four_depths, four_entries-IsForest,
}
use jpl_vision.Blobs.Report.{blob_list_purge_small_bboxes, copy_best_bboxes_to_blob_stats_array}
use jpl_vision.Blobs.Report.Purge.{entries, large, purge_lem}
use jpl_vision.Blobs.Report.Copy.{copy_stats_lem}

purge_lem_example :
    (q : BlobList) × (blob_list_purge_small_bboxes four_entries 8 ≡ some q)
    × (entries q.root_info q.used_root_list_count ≡ large 8 (entries four_entries.root_info 2))
    × (q.used_root_list_count ≤ 2)
purge_lem_example = purge_lem 8 four_entries four_reps four_depths four_entries-IsForest

-- A sort of two elements by falling pixel counts.
abbrev sort_two : ℕ → Array RootInfo → Array RootInfo
sort_two n info =
    if ltb (info 0).stats.count (info 1).stats.count
    then (λ r. if r == 0 then info 1 else if r == 1 then info 0 else info r)
    else info

copy_stats_lem_example :
    let (out', n) = copy_best_bboxes_to_blob_stats_array four_entries 1 (λ k. some_stats 0) in
    (n ≡ min 2 1)
    × (out' 1 ≡ (if ltb 1 (min 2 (1 + 1)) then (four_entries.root_info 1).stats else some_stats 0))
copy_stats_lem_example = copy_stats_lem four_entries 1 (λ k. some_stats 0) 1
