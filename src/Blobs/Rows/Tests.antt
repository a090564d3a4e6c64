-- ===== src/Blobs/Rows/Tests.antt =====
-- Two rows: a run of the blob of entry 1 above a run of the blob of entry 4 and a run without a blob.
use jpl_vision.Common.{List, [], ◌∷◌, arith}
use jpl_vision.Blobs.Types.{YuvRun}
use jpl_vision.Blobs.Forest.Tests.{four_entries, four_reps, four_depths, four_entries-IsForest}
use jpl_vision.Blobs.Union.Tests.{in_third, in_fourth}
use jpl_vision.Blobs.Rows.{yuv_run_row_union}
use jpl_vision.Blobs.Rows.Advance.{Rounds}
use jpl_vision.Blobs.Rows.Together.{yuv_run_row_union-Rounds}

abbrev upper_row : List YuvRun
upper_row = in_third ∷ []

abbrev lower_row : List YuvRun
lower_row = in_fourth ∷ record { parent_index = 0; run_low = 5; run_high = 9 } ∷ []

yuv_run_row_union-Rounds_example :
    Rounds four_entries four_reps upper_row lower_row 3
      (yuv_run_row_union four_entries 8 upper_row 9 lower_row)
yuv_run_row_union-Rounds_example =
    yuv_run_row_union-Rounds four_entries four_reps four_depths 8 upper_row 9 lower_row 20
      four_entries-IsForest (omega arith, tt) (omega arith, (omega arith, tt))
      (omega arith, omega arith, omega arith, tt)
      (omega arith, omega arith, omega arith, (omega arith, omega arith, omega arith, tt))
