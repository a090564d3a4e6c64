-- ===== src/Blobs/Detect/Tests.antt =====
-- A detection in an image of eight columns and two rows, whose rows are equal.
use jpl_vision.Common.{
  ◌%◌, ℕ, ◌-◌, ◌*◌, ◌≤◌, ◌≡◌, refl, true, false, some, List, [], ◌∷◌, ltb, if◌then◌else◌, arith,
}
use jpl_vision.Common.Memory.{Array}
use jpl_vision.Blobs.Types.{BlobList, YuvRun, u32}
use jpl_vision.Blobs.Forest.Valid.{IsForest}
use jpl_vision.Blobs.Forest.Tests.{four_entries}
use jpl_vision.Blobs.Runs.Tests.{limits, uv_values, y_values}
use jpl_vision.Blobs.Detect.{highlight_row, detect_color_blobs}
use jpl_vision.Blobs.Detect.Highlight.{MarkedAt, highlight_row-at}
use jpl_vision.Blobs.Detect.Image.{detect_color_blobs-valid}
use jpl_vision.Blobs.Rows.Colors.{Pure}
use jpl_vision.Blobs.Detect.RowRuns.{scan, LabelsOf, run_count-bound}
use jpl_vision.Blobs.Detect.Connected.{detect_color_blobs-Connected}
use jpl_vision.Blobs.Detect.Labels.{labels_from, Connected, RowsColored, all_in_blobs}
use jpl_vision.Blobs.Store.{blob_list_clear}
use jpl_vision.Blobs.Total.{get_total_blob_pixel_count}

abbrev image : Array ℕ
image k = if ltb k 8 then y_values k else if ltb k 16 then y_values (k - 8) else uv_values (k - 16)

abbrev marked_runs : List YuvRun
marked_runs =
    record { parent_index = 0; run_low = 2; run_high = 4 }
    ∷ record { parent_index = 0; run_low = 5; run_high = 7 }
    ∷ []

detect_color_blobs-valid_example :
    (q : BlobList) × (yuv' : Array ℕ) × (rep : ℕ → ℕ) × (depth : ℕ → ℕ) × (detect_color_blobs
        four_entries limits true
        (2 * 4)
        2
        image
      ≡ some (q, yuv'))
    × IsForest q rep depth
    × (q.max_blob_set_count ≡ 10)
    × (q.max_root_list_count ≡ 6)
    × ((k : ℕ) → 2 * (2 * 4) ≤ k → yuv' k ≡ image k)
    × (true ≡ false → ◌≡◌ {A = Array ℕ} yuv' image)
detect_color_blobs-valid_example =
    detect_color_blobs-valid four_entries limits true 4 2 image (omega arith) (omega arith)
      (omega arith)

highlight_row-at_example :
    MarkedAt (highlight_row image 8 8 marked_runs 0) image 8 8 marked_runs 0 10
highlight_row-at_example =
    highlight_row-at image 8 8 marked_runs 0 10
      (omega arith, omega arith, omega arith, (omega arith, omega arith, omega arith, tt))
      (omega arith)

abbrev spacious : BlobList
spacious = record four_entries { max_blob_set_count = 20; max_root_list_count = 20 }

detect_color_blobs-Connected_example :
    (q : BlobList) × (rep : ℕ → ℕ) × (depth : ℕ → ℕ) × (labels : List (List YuvRun))
    × (blob_color : ℕ → ℕ) × (detect_color_blobs spacious limits false (2 * 4) 2 image
        ≡ some (q, image))
    × (labels_from limits 4 2 image 2 0 (scan limits 4 2 image (blob_list_clear spacious) [] [])
        ≡ some ([] ∷ labels))
    × IsForest q rep depth
    × LabelsOf limits 4 2 image q.used_blob_set_count 0 2 labels
    × Connected rep [] labels
    × Pure q rep blob_color
    × RowsColored blob_color (λ row low. 7) 0 labels
    × (get_total_blob_pixel_count q ≡ all_in_blobs labels % u32)
detect_color_blobs-Connected_example =
    detect_color_blobs-Connected spacious limits 4 2 image (λ row low. 7) (omega arith)
      (omega arith) (omega arith)
      (omega (arith, run_count-bound limits 4 2 image 0 2 (omega arith)))
      (omega (arith, run_count-bound limits 4 2 image 0 2 (omega arith)))
      (λ k lo hi a b ia ib o. refl)
