-- ===== src/Blobs/Detect/Labels.antt =====
-- The labels that the rows of an image get, and what is said of them.
use jpl_vision.Common.{
  ◌%◌, ◌-◌, ◌==◌, ◌>>=◌, if◌then◌else◌, ℕ, zero, suc, ◌+◌, ◌*◌, ◌≤◌, ◌<◌, ◌≡◌, refl, false, Option,
  some, List, [], ◌∷◌, arith,
}
use jpl_vision.Common.Memory.{Array}
use jpl_vision.Blobs.Types.{YuvRun, u32}
use jpl_vision.Blobs.Runs.{Thresholds}
use jpl_vision.Blobs.Rows.{yuv_run_row_union}
use jpl_vision.Blobs.Stats.{run_length}
use jpl_vision.Blobs.Rows.Steps.{gain, newly_trans, AllEvolve, Together}
use jpl_vision.Blobs.Rows.Later.{SameColumns}
use jpl_vision.Blobs.Detect.{Scan, scan_row}
use jpl_vision.Blobs.Runs.Fresh.{AllFresh}
use jpl_vision.Blobs.Rows.Recolor.{AllColored, Agree}
use jpl_vision.Blobs.Detect.RowRuns.{row_runs}

module _ (t : Thresholds) (half rows : ℕ) where
  -- The labels of the runs, row by row: of the row before `ii`, which the state `s` has, and of the `n`
  -- rows from `ii` on. scan_row gives a row to yuv_run_row_union twice, as the lower of two rows and
  -- then as the upper one. What it is after the second call is its labels; there is no second call
  -- for the last row.
  unfoldable pub labels_from : Array ℕ → ℕ → ℕ → Scan → Option (List (List YuvRun))
  unfolding scan_row
  labels_from yuv zero ii s = some (s.yuv_run0 ∷ [])
  labels_from yuv (suc n) ii s = do
    (list, run0, run1) ←
        yuv_run_row_union s.list ((ii + u32 - 1) % u32) s.yuv_run0 ii (row_runs t half rows yuv ii)
    s' ← scan_row t false (2 * half) rows ii s
    labels ← labels_from yuv n (ii + 1) s'
    some (run0 ∷ labels)

-- Runs of neighbouring rows that share a column are in one blob, from the row `xs` on.
abbrev pub Connected : (ℕ → ℕ) → List YuvRun → List (List YuvRun) → Type 0
Connected rep xs [] = Unit {0}
Connected rep xs (ys ∷ rows) = Together rep xs ys × Connected rep ys rows

-- The blobs of the runs of the rows from `ii` on have the colors that `color` gives to a row and the
-- first column of a run.
abbrev pub RowsColored : (ℕ → ℕ) → (ℕ → ℕ → ℕ) → ℕ → List (List YuvRun) → Type 0
RowsColored blob_color color ii [] = Unit {0}
RowsColored blob_color color ii (ys ∷ labels) =
    AllColored blob_color (color ii) ys × RowsColored blob_color color (ii + 1) labels

-- Runs of neighbouring rows that share a column have one color, in `n` rows from `ii` on.
abbrev pub TouchingAgree : Thresholds → ℕ → ℕ → Array ℕ → (ℕ → ℕ → ℕ) → ℕ → ℕ → Type 0
TouchingAgree t half rows yuv color ii n =
    (k : ℕ)
    → ii ≤ k
    → k + 1 < ii + n
    → Agree (color k) (color (k + 1)) (row_runs t half rows yuv k)
        (row_runs t half rows yuv (k + 1))

-- The pixels of the runs that are in a blob.
abbrev pub in_blobs : List YuvRun → ℕ
in_blobs [] = 0
in_blobs (r ∷ rs) =
    (if r.parent_index == 0 then 0 else run_length r.run_low r.run_high) + in_blobs rs

abbrev pub all_in_blobs : List (List YuvRun) → ℕ
all_in_blobs [] = 0
all_in_blobs (ys ∷ rows) = in_blobs ys + all_in_blobs rows

-- The gain of two steps is the sum of theirs.
pub gain_trans :
    (rep rep' : ℕ → ℕ) (rs ss ts : List YuvRun)
    → AllEvolve rep rs ss
    → AllEvolve rep' ss ts
    → gain rs ts ≡ gain rs ss + gain ss ts
gain_trans rep rep' [] [] [] e f = omega arith
gain_trans rep rep' [] [] (t ∷ ts) e f = absurd f
gain_trans rep rep' [] (s ∷ ss) ts e f = absurd e
gain_trans rep rep' (r ∷ rs) [] ts e f = absurd e
gain_trans rep rep' (r ∷ rs) (s ∷ ss) [] e f = absurd f
gain_trans rep rep' (r ∷ rs) (s ∷ ss) (t ∷ ts) e f =
    omega (arith, newly_trans rep rep' r s t e.0 f.0, gain_trans rep rep' rs ss ts e.1 f.1)

pub gain_fresh : (rs ss : List YuvRun) → AllFresh rs → SameColumns rs ss → gain rs ss ≡ in_blobs ss
gain_fresh [] [] h e = refl
gain_fresh [] (s ∷ ss) h e = absurd e
gain_fresh (r ∷ rs) [] h e = absurd e
gain_fresh (r ∷ rs) (s ∷ ss) h e = let k = gain_fresh rs ss h.1 e.2 in rw (h.0, k, e.0, e.1) refl
