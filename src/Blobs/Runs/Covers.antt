-- ===== src/Blobs/Runs/Covers.antt =====
-- The pixels of a list of runs.
use jpl_vision.Common.{ℕ, ◌≤◌, ◌<◌, ◌⊎◌, List, [], ◌∷◌, ◌+◌}
use jpl_vision.Blobs.Types.{UvRun, YuvRun}

-- Column `x` lies in one of the runs.
abbrev pub UvCovers : List UvRun → ℕ → Type 0
UvCovers [] x = ⊥
UvCovers (r ∷ rs) x = (r.run_low ≤ x) × (x < r.run_high) ⊎ UvCovers rs x

abbrev pub YuvCovers : List YuvRun → ℕ → Type 0
YuvCovers [] x = ⊥
YuvCovers (r ∷ rs) x = (r.run_low ≤ x) × (x < r.run_high) ⊎ YuvCovers rs x

-- The runs are not empty, stand in order with a gap between them, and lie in the columns from `lo`
-- up to `hi`.
abbrev pub UvSorted : ℕ → ℕ → List UvRun → Type 0
UvSorted lo hi [] = Unit {0}
UvSorted lo hi (r ∷ rs) =
    (lo ≤ r.run_low)
    × (r.run_low < r.run_high)
    × (r.run_high ≤ hi)
    × UvSorted (r.run_high + 1) hi rs

abbrev pub YuvSorted : ℕ → ℕ → List YuvRun → Type 0
YuvSorted lo hi [] = Unit {0}
YuvSorted lo hi (r ∷ rs) =
    (lo ≤ r.run_low)
    × (r.run_low < r.run_high)
    × (r.run_high ≤ hi)
    × YuvSorted (r.run_high + 1) hi rs
