-- ===== src/Blobs/Detect.antt =====
-- detect_color_blobs of detect_color_blobs.c: the runs of each row are found, marked in the image if
-- wanted, and united with those of the row before.
pub mod Highlight
pub mod Image
pub mod RowRuns
pub mod Labels
pub mod Labelled
pub mod Connected
mod Tests
use jpl_vision.Common.{
  ℕ, zero, suc, ◌+◌, ◌-◌, ◌*◌, ◌/◌, ◌%◌, max, Bool, Option, none, some, List, [], ◌∷◌, ltb, ◌==◌,
  if◌then◌else◌, ◌>>=◌,
}
use jpl_vision.Common.Memory.{Array, update}
use jpl_vision.Blobs.Types.{BlobList, UvRun, YuvRun, u32}
use jpl_vision.Blobs.Store.{blob_list_clear}
use jpl_vision.Blobs.Runs.{Thresholds, create_uv_run_sequence, detect_yuv_runs_in_row}
use jpl_vision.Blobs.Rows.{yuv_run_row_union}

-- while (kk < stop) { y_row[kk] /= 2; ++kk; }, with `n` rounds
pub suppress : ℕ → Array ℕ → ℕ → Array ℕ
suppress zero yuv k = yuv
suppress (suc n) yuv k = suppress n (update yuv k (yuv k / 2)) (k + 1)

-- int y = y_row[kk] * 2; if (y > 255) y = 255;
abbrev pub brighter : ℕ → ℕ
brighter y = if ltb 255 (y * 2) then 255 else y * 2

pub brighten : ℕ → Array ℕ → ℕ → Array ℕ
brighten zero yuv k = yuv
brighten (suc n) yuv k = brighten n (update yuv k (brighter (yuv k))) (k + 1)

-- The marks in the row at `base`, from column `kk` on.
pub highlight_row : Array ℕ → ℕ → ℕ → List YuvRun → ℕ → Array ℕ
unfolding suppress brighten
highlight_row yuv base cols [] kk = suppress (cols - kk) yuv (base + kk)
highlight_row yuv base cols (r ∷ rs) kk =
    let low = max kk r.run_low in
    let dark = suppress (r.run_low - kk) yuv (base + kk) in
    let lit = brighten (r.run_high - low) dark (base + low) in
    highlight_row lit base cols rs (max low r.run_high)

-- What the loop over the rows carries along.
pub record Scan : Type 0 where
  pub list : BlobList
  pub uv_runs : List UvRun
  pub yuv_run0 : List YuvRun
  pub yuv : Array ℕ

-- One row. `&yuv[k]` is the array from element `k` on.
pub scan_row : Thresholds → Bool → ℕ → ℕ → ℕ → Scan → Option Scan
unfolding highlight_row
scan_row t highlight cols rows ii s = do
  let uv_row = λ (k : ℕ). s.yuv (cols * rows + ii / 2 * (cols / 2) + k)
  let uv_runs = if ii % 2 == 0 then create_uv_run_sequence cols rows uv_row t else s.uv_runs
  let y_row = λ (k : ℕ). s.yuv (ii * cols + k)
  let yuv_run1 = detect_yuv_runs_in_row cols y_row uv_runs t.y_low
  let yuv = if highlight then highlight_row s.yuv (ii * cols) cols yuv_run1 0 else s.yuv
  (list, run0, run1) ← yuv_run_row_union s.list ((ii + u32 - 1) % u32) s.yuv_run0 ii yuv_run1
  some (record { list = list; uv_runs = uv_runs; yuv_run0 = run1; yuv = yuv })

-- The rows from `ii` on, with `n` left.
pub scan_rows : ℕ → Thresholds → Bool → ℕ → ℕ → ℕ → Scan → Option Scan
unfolding scan_row
scan_rows zero t highlight cols rows ii s = some s
scan_rows (suc n) t highlight cols rows ii s = do
  s' ← scan_row t highlight cols rows ii s
  scan_rows n t highlight cols rows (ii + 1) s'

-- The list and the image afterwards.
pub detect_color_blobs :
    BlobList → Thresholds → Bool → ℕ → ℕ → Array ℕ → Option (BlobList × Array ℕ)
unfolding scan_rows
detect_color_blobs p t highlight cols rows yuv = do
  let start : Scan = record { list = blob_list_clear p; uv_runs = []; yuv_run0 = []; yuv = yuv }
  s ← scan_rows rows t highlight cols rows 0 start
  some (s.list, s.yuv)
