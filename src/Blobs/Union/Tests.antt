-- ===== src/Blobs/Union/Tests.antt =====
-- A run without a blob touches a run of the blob of entry 1, and a run of the blob of entry 4
-- touches one of the blob of entry 1.
use jpl_vision.Common.{arith}
use jpl_vision.Blobs.Types.{YuvRun}
use jpl_vision.Blobs.Forest.Tests.{four_entries, four_reps, four_depths, four_entries-IsForest}
use jpl_vision.Blobs.Union.{yuv_run_union}
use jpl_vision.Blobs.Union.Spec.{Outcome}
use jpl_vision.Blobs.Union.Result.{yuv_run_union-Outcome}

abbrev pub in_third : YuvRun
in_third = record { parent_index = 3; run_low = 2; run_high = 6 }

abbrev pub in_fourth : YuvRun
in_fourth = record { parent_index = 4; run_low = 0; run_high = 4 }

yuv_run_union-Outcome_example :
    Outcome four_entries four_reps in_third in_fourth
      (yuv_run_union four_entries 8 in_third 9 in_fourth)
yuv_run_union-Outcome_example =
    yuv_run_union-Outcome four_entries four_reps four_depths 8 in_third 9 in_fourth
      four_entries-IsForest (omega arith) (omega arith)
