-- ===== src/Blobs/Detect/RowRuns.antt =====
-- The runs of the rows of an image, and how scan_row comes by them, if no marks are wanted.
use jpl_vision.Common.{
  ℕ, zero, suc, max, ◌+◌, ◌-◌, ◌*◌, ◌/◌, ◌%◌, ◌≤◌, ◌<◌, ◌≡◌, refl, false, some, List, [], ◌∷◌, ◌==◌,
  if◌then◌else◌, arith, length, ap, Bool-cases, inl, inr,
}
use jpl_vision.Common.Memory.{Array}
use jpl_vision.Blobs.Types.{BlobList, UvRun, YuvRun, u16, u32}
use jpl_vision.Blobs.Forest.Valid.{IsForest}
use jpl_vision.Blobs.Runs.{Thresholds, create_uv_run_sequence, detect_yuv_runs_in_row}
use jpl_vision.Blobs.Runs.Covers.{YuvSorted}
use jpl_vision.Blobs.Runs.Pixels.{create_uv_run_sequence-pixels, bright_pixels}
use jpl_vision.Blobs.Runs.Fresh.{AllFresh, detect_yuv_runs_in_row-AllFresh}
use jpl_vision.Blobs.Rows.{yuv_run_row_union}
use jpl_vision.Blobs.Rows.Steps.{Known}
use jpl_vision.Blobs.Rows.Advance.{Rounds}
use jpl_vision.Blobs.Rows.Together.{yuv_run_row_union-Rounds}
use jpl_vision.Blobs.Rows.Later.{SameColumns}
use jpl_vision.Blobs.Detect.{Scan, scan_row}
use jpl_vision.Blobs.Detect.Image.{AllFresh-Known}

YuvSorted-length :
    (lo hi : ℕ) (rs : List YuvRun) → YuvSorted lo hi rs → lo + 2 * length rs ≤ max lo (hi + 1)
YuvSorted-length lo hi [] o = omega arith
YuvSorted-length lo hi (r ∷ rs) o =
    omega (arith, o.0, o.1, o.2, YuvSorted-length (r.run_high + 1) hi rs o.3)

module _ (t : Thresholds) (half rows : ℕ) (yuv : Array ℕ) where
  -- The row of U and V values for two rows of the image.
  uv_row : ℕ → Array ℕ
  uv_row pair k = yuv (2 * half * rows + pair * (2 * half / 2) + k)

  pub pair_uv_runs : ℕ → List UvRun
  unfolding uv_row
  pair_uv_runs pair = create_uv_run_sequence (2 * half) rows (uv_row pair) t

  abbrev pub row_uv_runs : ℕ → List UvRun
  row_uv_runs ii = pair_uv_runs (ii / 2)

  -- The runs of row `ii` of the image.
  pub row_runs : ℕ → List YuvRun
  row_runs ii =
      detect_yuv_runs_in_row (2 * half) (λ k. yuv (ii * (2 * half) + k)) (row_uv_runs ii) t.y_low

  -- The number of runs in `n` rows from `ii` on.
  abbrev pub run_count : ℕ → ℕ → ℕ
  run_count ii zero = 0
  run_count ii (suc n) = length (row_runs ii) + run_count (ii + 1) n

  -- `labels` are the runs of `n` rows from `ii` on, each in a blob of the list or in none.
  abbrev pub LabelsOf : ℕ → ℕ → ℕ → List (List YuvRun) → Type 0
  LabelsOf used ii zero [] = Unit {0}
  LabelsOf used ii zero (ys ∷ labels) = ⊥
  LabelsOf used ii (suc n) [] = ⊥
  LabelsOf used ii (suc n) (ys ∷ labels) =
      SameColumns (row_runs ii) ys × Known used ys × LabelsOf used (ii + 1) n labels

  abbrev pub scan : BlobList → List UvRun → List YuvRun → Scan
  scan p us xs = record { list = p; uv_runs = us; yuv_run0 = xs; yuv = yuv }

  -- The uv runs at row `ii`: new ones in an even row, and those of the row before in an odd one.
  abbrev pub UvAt : ℕ → List UvRun → Type 0
  UvAt ii us = (if ii % 2 == 0 then row_uv_runs ii else us) ≡ row_uv_runs ii

  pub UvAt-next : (ii : ℕ) → UvAt (ii + 1) (row_uv_runs ii)
  UvAt-next ii = elim (Bool-cases ((ii + 1) % 2 == 0)) [
    | inl q ↦ rw (q) refl
    | inr q ↦ let same : ii / 2 ≡ (ii + 1) / 2 = ground (arith, q) in rw (q) (ap pair_uv_runs same)
  ]

  pub scan_row-scan :
      (ii : ℕ) (p : BlobList) (us : List UvRun) (xs : List YuvRun) (q : BlobList)
      (xs' ys : List YuvRun)
      → UvAt ii us
      → yuv_run_row_union p ((ii + u32 - 1) % u32) xs ii (row_runs ii) ≡ some (q, xs', ys)
      → scan_row t false (2 * half) rows ii (scan p us xs) ≡ some (scan q (row_uv_runs ii) ys)
  unfolding scan_row row_runs pair_uv_runs uv_row
  scan_row-scan ii p us xs q xs' ys u e = rw (u, e) refl

  pub row_runs-sorted : (ii : ℕ) → 2 * half < u16 → YuvSorted 0 (2 * half) (row_runs ii)
  unfolding row_runs pair_uv_runs
  row_runs-sorted ii small =
      let found = (create_uv_run_sequence-pixels half rows (uv_row (ii / 2)) t small).0 in
      (bright_pixels half rows (uv_row (ii / 2)) t small (λ k. yuv (ii * (2 * half) + k)) _ found).0

  pub row_runs-AllFresh : (ii : ℕ) → AllFresh (row_runs ii)
  unfolding row_runs
  row_runs-AllFresh ii =
      detect_yuv_runs_in_row-AllFresh (2 * half) (λ k. yuv (ii * (2 * half) + k)) t.y_low
        (row_uv_runs ii)

  abbrev pub RowRounds : ℕ → BlobList → (ℕ → ℕ) → List YuvRun → Type 0
  RowRounds ii p rep xs =
      Rounds p rep xs (row_runs ii) (length xs + length (row_runs ii))
        (yuv_run_row_union p ((ii + u32 - 1) % u32) xs ii (row_runs ii))

  pub row_rounds :
      (ii : ℕ) (p : BlobList) (xs : List YuvRun) (rep depth : ℕ → ℕ)
      → 2 * half < u16
      → IsForest p rep depth
      → Known p.used_blob_set_count xs
      → YuvSorted 0 (2 * half) xs
      → RowRounds ii p rep xs
  row_rounds ii p xs rep depth small v k o =
      yuv_run_row_union-Rounds p rep depth ((ii + u32 - 1) % u32) xs ii (row_runs ii) (2 * half) v k
        (AllFresh-Known _ (row_runs ii) (omega (arith, v.roots_lt)) (row_runs-AllFresh ii)) o
        (row_runs-sorted ii small)

  -- A row has at most one run for every two columns.
  pub run_count-bound : (ii n : ℕ) → 2 * half < u16 → run_count ii n ≤ n * half
  run_count-bound ii zero small = omega arith
  run_count-bound ii (suc n) small =
      let size = YuvSorted-length 0 (2 * half) (row_runs ii) (row_runs-sorted ii small) in
      grind (arith, size, run_count-bound (ii + 1) n small)
