-- ===== src/Blobs/Union.antt =====
-- yuv_run_union of detect_color_blobs.c: two runs that touch are put into one blob.
pub mod Attach
pub mod Start
pub mod Merge
pub mod Spec
pub mod Result
pub mod Tests
use jpl_vision.Common.{
  ℕ, zero, suc, ◌+◌, ◌%◌, not, ◌&&◌, Option, none, some, ltb, ◌==◌, if◌then◌else◌, ◌>>=◌, ◌>>◌,
  assert,
}
use jpl_vision.Blobs.Types.{BlobList, YuvRun, u16, not_a_root}
use jpl_vision.Blobs.Stats.{stats_add_singleton}
use jpl_vision.Blobs.Forest.{make_set, find_root, link, with_stats}

-- stats_add_singleton on the root entry `rx`, for the run `b` of row `b_row`
pub add_run : BlobList → ℕ → ℕ → YuvRun → BlobList
add_run p rx b_row b =
    with_stats p rx (stats_add_singleton (p.root_info rx).stats (b_row % u16) b.run_low b.run_high)

abbrev pub labelled : YuvRun → ℕ → YuvRun
labelled r root = record r { parent_index = root }

-- Neither run has a blob: a new one is made for `a`, and `b` is added to it. Without space for it
-- make_set returns 0, whose root_list_index is NOT_A_ROOT_LIST_INDEX, and the runs are lost.
pub start_blob : BlobList → ℕ → YuvRun → ℕ → YuvRun → Option (BlobList × YuvRun × YuvRun)
start_blob p a_row a b_row b = do
  (a_root, q) ← make_set p a a_row
  assert (ltb a_root q.used_blob_set_count)
  let rx = (q.blob_set a_root).root_list_index
  some (if rx == not_a_root then q else add_run q rx b_row b, labelled a a_root, labelled b a_root)

-- `a` has a blob, and `b` has none.
pub attach : BlobList → YuvRun → ℕ → YuvRun → Option (BlobList × YuvRun × YuvRun)
attach p a b_row b = do
  (a_root, q) ← find_root p a.parent_index
  assert (ltb a_root q.used_blob_set_count)
  let rx = (q.blob_set a_root).root_list_index
  assert (not (rx == not_a_root))
  some (add_run q rx b_row b, labelled a a_root, labelled b a_root)

-- Both runs have blobs.
pub merge : BlobList → YuvRun → YuvRun → Option (BlobList × YuvRun × YuvRun)
merge p a b = do
  (a_root, q) ← find_root p a.parent_index
  (b_root, q') ← find_root q b.parent_index
  if a_root == b_root then some (q', a, b) else do
    (link_root, q'') ← link q' a_root b_root
    some (q'', labelled a link_root, labelled b link_root)

-- Where only `b` has a blob the code swaps the two runs.
pub yuv_run_union : BlobList → ℕ → YuvRun → ℕ → YuvRun → Option (BlobList × YuvRun × YuvRun)
yuv_run_union p a_row a b_row b =
    if a.parent_index == 0 && b.parent_index == 0
    then start_blob p a_row a b_row b
    else (if a.parent_index == 0
        then (do (q, b', a') ← attach p b a_row a; some (q, a', b'))
        else (if b.parent_index == 0 then attach p a b_row b else merge p a b))
