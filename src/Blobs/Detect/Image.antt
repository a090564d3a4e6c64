-- ===== src/Blobs/Detect/Image.antt =====
-- detect_color_blobs as a whole: it ends, fails no assert, and leaves a valid list.
use jpl_vision.Common.{
  ℕ, zero, suc, ◌+◌, ◌-◌, ◌*◌, ◌/◌, ◌%◌, ◌≤◌, ◌<◌, ◌≡◌, refl, Bool, true, false, Option, some, List,
  [], ◌∷◌, ◌==◌, if◌then◌else◌, ◌∙◌, arith, length,
}
use jpl_vision.Common.Memory.{Array}
use jpl_vision.Blobs.Types.{BlobList, UvRun, YuvRun, u16, u32}
use jpl_vision.Blobs.Forest.Valid.{IsForest}
use jpl_vision.Blobs.Store.{blob_list_clear}
use jpl_vision.Blobs.Store.Valid.{blob_list_clear-IsForest, blob_list_clear-limits}
use jpl_vision.Blobs.Runs.{Thresholds, create_uv_run_sequence, detect_yuv_runs_in_row}
use jpl_vision.Blobs.Runs.Covers.{UvSorted, YuvSorted}
use jpl_vision.Blobs.Runs.Pixels.{create_uv_run_sequence-pixels, bright_pixels}
use jpl_vision.Blobs.Runs.Fresh.{AllFresh, detect_yuv_runs_in_row-AllFresh}
use jpl_vision.Blobs.Rows.{yuv_run_row_union}
use jpl_vision.Blobs.Rows.Steps.{Known, AllEvolve-YuvSorted}
use jpl_vision.Blobs.Rows.Advance.{Rounds}
use jpl_vision.Blobs.Rows.Together.{yuv_run_row_union-Rounds}
use jpl_vision.Blobs.Detect.{Scan, scan_row, scan_rows, highlight_row, detect_color_blobs}
use jpl_vision.Blobs.Detect.Highlight.{highlight_row-at}

-- What holds between two rows.
pub record IsScan (cols : ℕ) (s : Scan) : Type 0 where
  pub rep : ℕ → ℕ
  pub depth : ℕ → ℕ
  pub forest : IsForest s.list rep depth
  pub known : Known s.list.used_blob_set_count s.yuv_run0
  pub sorted : YuvSorted 0 cols s.yuv_run0
  pub uv_sorted : UvSorted 0 cols s.uv_runs

pub AllFresh-Known : (n : ℕ) (rs : List YuvRun) → 0 < n → AllFresh rs → Known n rs
AllFresh-Known n [] h f = tt
AllFresh-Known n (r ∷ rs) h f = (omega (arith, f.0), AllFresh-Known n rs h f.1)

UvSorted-if :
    (b : Bool) (hi : ℕ) (us ws : List UvRun)
    → UvSorted 0 hi us
    → UvSorted 0 hi ws
    → UvSorted 0 hi (if b then us else ws)
UvSorted-if true hi us ws h k = h
UvSorted-if false hi us ws h k = k

outside_row :
    (b : Bool) (k : ℕ) (marked plain : Array ℕ)
    → (b ≡ true → marked k ≡ plain k)
    → (if b then marked else plain) k ≡ plain k
outside_row true k marked plain h = h refl
outside_row false k marked plain h = refl

module _ (t : Thresholds) (highlight : Bool) (half rows : ℕ) (small : 2 * half < u16) where
  -- A row keeps what holds between rows.
  record RowDone (ii : ℕ) (s : Scan) : Type 0 where
    next : Scan
    returns : scan_row t highlight (2 * half) rows ii s ≡ some next
    valid : IsScan (2 * half) next
    max_sets : next.list.max_blob_set_count ≡ s.list.max_blob_set_count
    max_roots : next.list.max_root_list_count ≡ s.list.max_root_list_count
    outside : (k : ℕ) → ii < rows → rows * (2 * half) ≤ k → next.yuv k ≡ s.yuv k
    unmarked : highlight ≡ false → ◌≡◌ {A = Array ℕ} next.yuv s.yuv

  scan_row-RowDone : (ii : ℕ) (s : Scan) → IsScan (2 * half) s → RowDone ii s
  unfolding scan_row
  scan_row-RowDone ii s v = record {
    next = record { list = r.list; uv_runs = uv_runs; yuv_run0 = r.runs_b; yuv = marked };
    returns = ground (arith, r.returns);
    valid = record {
      rep = r.rep';
      depth = r.depth;
      forest = r.forest;
      known = r.known_b;
      sorted = AllEvolve-YuvSorted r.rep' 0 (2 * half) yuv_run1 r.runs_b r.evolve_b found;
      uv_sorted = uv_found;
    };
    max_sets = r.max_sets;
    max_roots = r.max_roots;
    outside = λ k h l.
        outside_row highlight k (highlight_row s.yuv (ii * (2 * half)) (2 * half) yuv_run1 0) s.yuv
          (λ m. beyond k (below_end h l) m);
    unmarked = λ e. rw e refl;
  }
    where
      uv_row : Array ℕ
      uv_row k = s.yuv (2 * half * rows + ii / 2 * (2 * half / 2) + k)

      y_row : Array ℕ
      y_row k = s.yuv (ii * (2 * half) + k)

      uv_runs : List UvRun
      uv_runs = if ii % 2 == 0 then create_uv_run_sequence (2 * half) rows uv_row t else s.uv_runs

      uv_found : UvSorted 0 (2 * half) uv_runs
      uv_found =
          UvSorted-if (ii % 2 == 0) (2 * half) _ _
            (create_uv_run_sequence-pixels half rows uv_row t small).0 v.uv_sorted

      yuv_run1 : List YuvRun
      yuv_run1 = detect_yuv_runs_in_row (2 * half) y_row uv_runs t.y_low

      found : YuvSorted 0 (2 * half) yuv_run1
      found = (bright_pixels half rows uv_row t small y_row uv_runs uv_found).0

      marked : Array ℕ
      marked =
          if highlight then highlight_row s.yuv (ii * (2 * half)) (2 * half) yuv_run1 0 else s.yuv

      below_end : {k : ℕ} → ii < rows → rows * (2 * half) ≤ k → ii * (2 * half) + 2 * half ≤ k
      below_end h l = grind arith

      beyond :
          (k : ℕ)
          → ii * (2 * half) + 2 * half ≤ k
          → highlight ≡ true
          → highlight_row s.yuv (ii * (2 * half)) (2 * half) yuv_run1 0 k ≡ s.yuv k
      beyond k h m = ground (
        arith,
        highlight_row-at s.yuv (ii * (2 * half)) (2 * half) yuv_run1 0 k found (omega arith),
      )

      r :
          Rounds s.list v.rep s.yuv_run0 yuv_run1
            (length s.yuv_run0 + length yuv_run1)
            (yuv_run_row_union s.list ((ii + u32 - 1) % u32) s.yuv_run0 ii yuv_run1)
      r =
          yuv_run_row_union-Rounds s.list v.rep v.depth ((ii + u32 - 1) % u32) s.yuv_run0 ii
            yuv_run1 (2 * half) v.forest v.known
            (AllFresh-Known _ yuv_run1 (omega (arith, v.forest.roots_lt))
              (detect_yuv_runs_in_row-AllFresh (2 * half) y_row t.y_low uv_runs))
            v.sorted found

  -- What the loop over the rows leaves.
  record RowsDone (p : BlobList) (yuv : Array ℕ) (result : Option Scan) : Type 0 where
    last : Scan
    returns : result ≡ some last
    valid : IsScan (2 * half) last
    max_sets : last.list.max_blob_set_count ≡ p.max_blob_set_count
    max_roots : last.list.max_root_list_count ≡ p.max_root_list_count
    outside : (k : ℕ) → rows * (2 * half) ≤ k → last.yuv k ≡ yuv k
    unmarked : highlight ≡ false → ◌≡◌ {A = Array ℕ} last.yuv yuv

  scan_rows-RowsDone :
      (n ii : ℕ) (s : Scan)
      → IsScan (2 * half) s
      → n + ii ≤ rows
      → RowsDone s.list s.yuv (scan_rows n t highlight (2 * half) rows ii s)
  unfolding scan_rows
  scan_rows-RowsDone zero ii s v h = record {
    last = s;
    returns = refl;
    valid = v;
    max_sets = refl;
    max_roots = refl;
    outside = λ k l. refl;
    unmarked = λ e. refl;
  }
  scan_rows-RowsDone (suc n) ii s v h =
      let d = scan_row-RowDone ii s v in
      let e = scan_rows-RowsDone n (ii + 1) d.next d.valid (omega arith) in
      record {
        last = e.last;
        returns = ground (arith, d.returns, e.returns);
        valid = e.valid;
        max_sets = e.max_sets ∙ d.max_sets;
        max_roots = e.max_roots ∙ d.max_roots;
        outside = λ k l. e.outside k l ∙ d.outside k (omega arith) l;
        unmarked = λ m. e.unmarked m ∙ d.unmarked m;
      }

-- Given a list whose limits fit in 16 bits, thresholds, and an image with an even number of columns
-- below 65536, detect_color_blobs fails no assert and ends, and its list is valid and has the limits
-- that it had. It changes the image in the Y values at most, and not at all if no marks are wanted.
pub detect_color_blobs-valid :
    (p : BlobList) (t : Thresholds) (highlight : Bool) (half rows : ℕ) (yuv : Array ℕ)
    → p.max_blob_set_count < u16
    → p.max_root_list_count < u16
    → 2 * half < u16
    → (q : BlobList) × (yuv' : Array ℕ) × (rep : ℕ → ℕ) × (depth : ℕ → ℕ) × (detect_color_blobs p t
          highlight
          (2 * half)
          rows
          yuv
        ≡ some (q, yuv'))
      × IsForest q rep depth
      × (q.max_blob_set_count ≡ p.max_blob_set_count)
      × (q.max_root_list_count ≡ p.max_root_list_count)
      × ((k : ℕ) → rows * (2 * half) ≤ k → yuv' k ≡ yuv k)
      × (highlight ≡ false → yuv' ≡ yuv)
unfolding detect_color_blobs
detect_color_blobs-valid p t highlight half rows yuv hs hr small = (
  r.last.list,
  r.last.yuv,
  r.valid.rep,
  r.valid.depth,
  ground (arith, r.returns),
  r.valid.forest,
  r.max_sets ∙ limits.0,
  r.max_roots ∙ limits.1,
  r.outside,
  r.unmarked,
)
  where
    start : Scan
    start = record { list = blob_list_clear p; uv_runs = []; yuv_run0 = []; yuv = yuv }

    limits :
        ((blob_list_clear p).max_blob_set_count ≡ p.max_blob_set_count)
        × ((blob_list_clear p).max_root_list_count ≡ p.max_root_list_count)
    limits = blob_list_clear-limits p

    r :
        RowsDone t highlight half rows small
          (blob_list_clear p)
          yuv
          (scan_rows rows t highlight (2 * half) rows 0 start)
    r =
        scan_rows-RowsDone t highlight half rows small rows 0 start
          (record {
            rep = λ i. i;
            depth = λ i. 0;
            forest = blob_list_clear-IsForest p hs hr;
            known = tt;
            sorted = tt;
            uv_sorted = tt;
          })
          (omega arith)
