-- ===== src/Blobs/Detect/Connected.antt =====
-- What detect_color_blobs makes of connected runs, in an image without marks.
use jpl_vision.Common.{ℕ, ◌+◌, ◌*◌, ◌%◌, ◌≤◌, ◌<◌, ◌≡◌, refl, false, some, List, [], ◌∷◌, arith}
use jpl_vision.Common.Memory.{Array}
use jpl_vision.Blobs.Types.{BlobList, YuvRun, u16, u32}
use jpl_vision.Blobs.Forest.Valid.{IsForest}
use jpl_vision.Blobs.Store.{blob_list_clear}
use jpl_vision.Blobs.Store.Valid.{
  blob_list_clear-IsForest, blob_list_clear-limits, blob_list_clear-used,
}
use jpl_vision.Blobs.Runs.{Thresholds}
use jpl_vision.Blobs.Rows.Steps.{AllEvolve, gain}
use jpl_vision.Blobs.Detect.{scan_rows, detect_color_blobs}
use jpl_vision.Blobs.Rows.Colors.{Pure, SameOn}
use jpl_vision.Blobs.Rows.Recolor.{AllColored}
use jpl_vision.Blobs.Detect.RowRuns.{run_count, LabelsOf, scan}
use jpl_vision.Blobs.Detect.Labels.{
  labels_from, Connected, RowsColored, TouchingAgree, all_in_blobs,
}
use jpl_vision.Blobs.Detect.Labelled.{Labelled, scan_rows-Labelled}
use jpl_vision.Blobs.Total.{get_total_blob_pixel_count}
use jpl_vision.Blobs.Total.Changes.{total-empty}

-- Given a list whose limits fit in 16 bits and an image with an even number of columns below 65536: if
-- no marks are wanted and the list has an entry and a root for twice as many runs as there are in the
-- image, besides entry 0, then detect_color_blobs leaves a valid list and the image as it was. The
-- labels are those that the runs of the rows have in the code, each row as yuv_run_row_union returns
-- it when it is the upper of two rows, and the last one as it is returned at the end: entries of the
-- list, or 0 for no blob, at the columns that are found in the image. Every two runs of neighbouring
-- rows that share a column are in one blob. If the runs are colored so that runs which share a column
-- have the same color, then all runs of a blob have the same color. The counts of all blobs of the
-- list are together the pixels of the runs that are in a blob, modulo 2^32. A run that shares no
-- column with a run of a neighbouring row can be in no blob.
pub detect_color_blobs-Connected :
    (p : BlobList) (t : Thresholds) (half rows : ℕ) (yuv : Array ℕ) (color : ℕ → ℕ → ℕ)
    → p.max_blob_set_count < u16
    → p.max_root_list_count < u16
    → 2 * half < u16
    → 1 + 2 * run_count t half rows yuv 0 rows ≤ p.max_blob_set_count
    → 2 * run_count t half rows yuv 0 rows ≤ p.max_root_list_count
    → TouchingAgree t half rows yuv color 0 rows
    → (q : BlobList) × (rep : ℕ → ℕ) × (depth : ℕ → ℕ) × (labels : List (List YuvRun))
      × (blob_color : ℕ → ℕ) × (detect_color_blobs p t false (2 * half) rows yuv ≡ some (q, yuv))
      × (labels_from t half rows yuv rows 0 (scan t half rows yuv (blob_list_clear p) [] [])
          ≡ some ([] ∷ labels))
      × IsForest q rep depth
      × LabelsOf t half rows yuv q.used_blob_set_count 0 rows labels
      × Connected rep [] labels
      × Pure q rep blob_color
      × RowsColored blob_color color 0 labels
      × (get_total_blob_pixel_count q ≡ all_in_blobs labels % u32)
unfolding detect_color_blobs
detect_color_blobs-Connected p t half rows yuv color hs hr small sets roots touch = (
  r.list,
  r.rep',
  r.depth,
  r.labels,
  colored.0,
  ground (arith, r.returns),
  traced r.row r.evolve r.traced,
  r.forest,
  r.are_runs,
  connected_labels r.row r.evolve r.connected,
  colored.1,
  colored.4,
  counted r.row r.evolve r.counted,
)
  where
    limits :
        ((blob_list_clear p).max_blob_set_count ≡ p.max_blob_set_count)
        × ((blob_list_clear p).max_root_list_count ≡ p.max_root_list_count)
    limits = blob_list_clear-limits p

    used :
        ((blob_list_clear p).used_blob_set_count ≡ 1)
        × ((blob_list_clear p).used_root_list_count ≡ 0)
    used = blob_list_clear-used p

    r :
        Labelled t half rows yuv rows 0
          (blob_list_clear p)
          (λ i. i)
          []
          (scan_rows rows t false
            (2 * half)
            rows
            0
            (scan t half rows yuv (blob_list_clear p) [] []))
          (labels_from t half rows yuv rows 0 (scan t half rows yuv (blob_list_clear p) [] []))
    r =
        scan_rows-Labelled t half rows yuv rows 0 (blob_list_clear p) [] [] (λ i. i) (λ i. 0) small
          refl (blob_list_clear-IsForest p hs hr) tt tt
          (omega (arith, limits.0, used.0, sets), omega (arith, limits.1, used.1, roots))

    colored :
        (blob_color : ℕ → ℕ) × Pure r.list r.rep' blob_color
        × SameOn (blob_list_clear p) (λ i. i) blob_color
        × AllColored blob_color (λ low. 0) r.row
        × RowsColored blob_color color 0 r.labels
    colored =
        r.colors (λ i. i) (λ low. 0) color (λ h x y ix iy o. absurd ix) touch
          (λ i j hi li hj lj e. e) tt

    connected_labels :
        (row : List YuvRun)
        → AllEvolve r.rep' [] row
        → Connected r.rep' row r.labels
        → Connected r.rep' [] r.labels
    connected_labels [] e c = c
    connected_labels (x ∷ row) e c = absurd e

    traced :
        (row : List YuvRun)
        → AllEvolve r.rep' [] row
        → labels_from t half rows yuv rows 0 (scan t half rows yuv (blob_list_clear p) [] [])
          ≡ some (row ∷ r.labels)
        → labels_from t half rows yuv rows 0 (scan t half rows yuv (blob_list_clear p) [] [])
          ≡ some ([] ∷ r.labels)
    traced [] e c = c
    traced (x ∷ row) e c = absurd e

    counted :
        (row : List YuvRun)
        → AllEvolve r.rep' [] row
        → get_total_blob_pixel_count r.list
          ≡ (get_total_blob_pixel_count (blob_list_clear p) + gain [] row + all_in_blobs r.labels)
            % u32
        → get_total_blob_pixel_count r.list ≡ all_in_blobs r.labels % u32
    counted row e c = omega (arith, c, total-empty (blob_list_clear p) used.1)
