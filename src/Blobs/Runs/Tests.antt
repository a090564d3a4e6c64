-- ===== src/Blobs/Runs/Tests.antt =====
-- The runs of one row of an image of eight columns and two rows.
use jpl_vision.Common.{ℕ, ◌+◌, ◌*◌, ◌≤◌, ◌<◌, ◌≡◌, ◌↔◌, refl, [], ◌∷◌, ◌==◌, if◌then◌else◌, arith}
use jpl_vision.Common.Memory.{Array}
use jpl_vision.Blobs.Runs.{Thresholds, create_uv_run_sequence, detect_yuv_runs_in_row}
use jpl_vision.Blobs.Runs.Covers.{YuvCovers, YuvSorted}
use jpl_vision.Blobs.Runs.Pixels.{UvIn, detected_pixels}

abbrev pub limits : Thresholds
limits = record { y_low = 100; u_low = 90; u_high = 110; v_low = 140; v_high = 160 }

-- U and V of the four pairs of columns: all but the first pair are within the limits.
abbrev pub uv_values : Array ℕ
uv_values k =
    if k == 0
    then 20
    else if k == 4
    then 150
    else if k == 5
    then 150
    else if k == 6
    then 150
    else if k == 7
    then 150
    else 100

-- Column 4 is too dark.
abbrev pub y_values : Array ℕ
y_values k = if k == 4 then 50 else 120

-- The last column of the pairs that are within the limits, 7, is in no run.
uv_runs_of_row :
    create_uv_run_sequence 8 2 uv_values limits ≡ record { run_low = 2; run_high = 7 } ∷ []
unfolding create_uv_run_sequence
uv_runs_of_row = refl

yuv_runs_of_row :
    detect_yuv_runs_in_row 8 y_values (record { run_low = 2; run_high = 7 } ∷ []) 100
    ≡ record { parent_index = 0; run_low = 2; run_high = 4 }
      ∷ record { parent_index = 0; run_low = 5; run_high = 7 }
      ∷ []
unfolding detect_yuv_runs_in_row
yuv_runs_of_row = refl

detected_pixels_example :
    let rs =
      detect_yuv_runs_in_row
        (2 * 4)
        y_values
        (create_uv_run_sequence (2 * 4) 2 uv_values limits)
        limits.y_low in
    YuvSorted 0 (2 * 4) rs
    × ((x : ℕ)
        → YuvCovers rs x ↔ (
            (x + 1 < 2 * 4)
            × UvIn (2 * 4 * 2) uv_values limits x
            × UvIn (2 * 4 * 2) uv_values limits (x + 1)
            × (100 ≤ y_values x)))
detected_pixels_example = detected_pixels 4 2 uv_values limits (omega arith) y_values
