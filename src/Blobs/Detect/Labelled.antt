-- ===== src/Blobs/Detect/Labelled.antt =====
-- The rows of an image that are scanned one after another, with the labels that their runs get.
use jpl_vision.Common.{
  ◌%◌, sym, ℕ, zero, suc, ◌+◌, ◌*◌, ◌≤◌, ◌<◌, ◌≡◌, ◌∙◌, refl, false, Option, some, List, [], ◌∷◌,
  arith, length,
}
use jpl_vision.Common.Memory.{Array}
use jpl_vision.Blobs.Types.{BlobList, UvRun, YuvRun, u16, u32}
use jpl_vision.Blobs.Forest.Valid.{IsForest}
use jpl_vision.Blobs.Runs.{Thresholds}
use jpl_vision.Blobs.Runs.Covers.{YuvSorted}
use jpl_vision.Blobs.Rows.Steps.{
  gain, gain_refl, Known, AllEvolve, AllEvolve-refl, AllEvolve-YuvSorted,
}
use jpl_vision.Blobs.Rows.Round.{Keeps, Space}
use jpl_vision.Blobs.Rows.Steps.{Known-mono}
use jpl_vision.Blobs.Rows.Later.{
  AllEvolve-HasColumns, AllEvolve-SameColumns, AllEvolve-length, Keeps-trans, AllEvolve-later,
  Together-later,
}
use jpl_vision.Blobs.Detect.{Scan, scan_rows}
use jpl_vision.Blobs.Runs.Fresh.{AllFresh}
use jpl_vision.Blobs.Detect.Image.{AllFresh-Known}
use jpl_vision.Blobs.Rows.Colors.{Pure, SameOn}
use jpl_vision.Blobs.Rows.Recolor.{AllColored, AllColored-same, Agree}
use jpl_vision.Blobs.Total.{get_total_blob_pixel_count}
use jpl_vision.Blobs.Total.Changes.{total-lt}
use jpl_vision.Blobs.Detect.Labels.{
  labels_from, Connected, RowsColored, TouchingAgree, in_blobs, all_in_blobs, gain_fresh,
  gain_trans,
}
use jpl_vision.Blobs.Detect.RowRuns.{
  row_runs, row_runs-AllFresh, run_count, LabelsOf, scan, UvAt, UvAt-next, row_uv_runs,
  scan_row-scan, row_runs-sorted, RowRounds, row_rounds,
}

AllFresh-AllColored :
    (blob_color f : ℕ → ℕ) (rs : List YuvRun) → AllFresh rs → AllColored blob_color f rs
AllFresh-AllColored blob_color f [] h = tt
AllFresh-AllColored blob_color f (r ∷ rs) h =
    (λ k. absurd (omega (arith, k, h.0)), AllFresh-AllColored blob_color f rs h.1)

pub gain_row :
    (total0 total1 total2 a b c d e : ℕ)
    → total1 ≡ (total0 + a + b) % u32
    → total2 ≡ (total1 + c + d) % u32
    → e ≡ b + c
    → total2 ≡ (total0 + a + (e + d)) % u32
gain_row total0 total1 total2 a b c d e h k l = omega (arith, h, k, l)

module _ (t : Thresholds) (half rows : ℕ) (yuv : Array ℕ) where
  -- The rows from `ii` on, scanned after the row `xs`.
  pub record Labelled (n ii : ℕ) (p : BlobList) (rep : ℕ → ℕ) (xs : List YuvRun)
      (result : Option Scan) (trace : Option (List (List YuvRun))) : Type 0 where
    pub list : BlobList
    pub us : List UvRun
    pub last : List YuvRun
    pub rep' : ℕ → ℕ
    pub depth : ℕ → ℕ
    pub row : List YuvRun
    pub labels : List (List YuvRun)
    pub traced : trace ≡ some (row ∷ labels)
    pub counted :
        get_total_blob_pixel_count list
        ≡ (get_total_blob_pixel_count p + gain xs row + all_in_blobs labels) % u32
    pub returns : result ≡ some (scan t half rows yuv list us last)
    pub forest : IsForest list rep' depth
    pub sets_from : p.used_blob_set_count ≤ list.used_blob_set_count
    pub keeps : Keeps p rep rep'
    pub known : Known list.used_blob_set_count row
    pub evolve : AllEvolve rep' xs row
    pub are_runs : LabelsOf t half rows yuv list.used_blob_set_count ii n labels
    pub connected : Connected rep' row labels
    pub colors :
        (blob_color f : ℕ → ℕ) (color : ℕ → ℕ → ℕ)
        → (0 < n → Agree f (color ii) xs (row_runs t half rows yuv ii))
        → TouchingAgree t half rows yuv color ii n
        → Pure p rep blob_color
        → AllColored blob_color f xs
        → (blob_color' : ℕ → ℕ) × Pure list rep' blob_color'
          × SameOn p blob_color blob_color'
          × AllColored blob_color' f row
          × RowsColored blob_color' color ii labels

  -- A row put in front of the rows behind it.
  Labelled-row :
      (n ii : ℕ) (p : BlobList) (us : List UvRun) (xs : List YuvRun) (rep : ℕ → ℕ)
      → UvAt t half rows yuv ii us
      → Known p.used_blob_set_count xs
      → 0 < p.used_blob_set_count
      → (r : RowRounds t half rows yuv ii p rep xs)
      → Space p (length xs + length (row_runs t half rows yuv ii))
      → Labelled n
          (ii + 1)
          r.list
          r.rep'
          r.runs_b
          (scan_rows n t false
            (2 * half)
            rows
            (ii + 1)
            (scan t half rows yuv r.list (row_uv_runs t half rows yuv ii) r.runs_b))
          (labels_from t half rows yuv n
            (ii + 1)
            (scan t half rows yuv r.list (row_uv_runs t half rows yuv ii) r.runs_b))
      → Labelled
          (suc n)
          ii
          p
          rep
          xs
          (scan_rows (suc n) t false (2 * half) rows ii (scan t half rows yuv p us xs))
          (labels_from t half rows yuv (suc n) ii (scan t half rows yuv p us xs))
  unfolding scan_rows labels_from
  Labelled-row n ii p us xs rep u k known_pos r space e = record {
    list = e.list;
    us = e.us;
    last = e.last;
    rep' = e.rep';
    depth = e.depth;
    row = r.runs_a;
    labels = e.row ∷ e.labels;
    traced =
        rw
          (
            r.returns,
            scan_row-scan t half rows yuv ii p us xs r.list r.runs_a r.runs_b u r.returns,
            e.traced,
          )
          refl;
    counted =
        let ys = row_runs t half rows yuv ii in
        gain_row (get_total_blob_pixel_count p) (get_total_blob_pixel_count r.list)
          (get_total_blob_pixel_count e.list) (gain xs r.runs_a) (gain ys r.runs_b)
          (gain r.runs_b e.row) (all_in_blobs e.labels) (in_blobs e.row) r.counted e.counted
          (sym (
              gain_fresh ys e.row (row_runs-AllFresh t half rows yuv ii)
                (AllEvolve-SameColumns r.rep' e.rep' ys r.runs_b e.row r.evolve_b e.evolve))
            ∙ gain_trans r.rep' e.rep' ys r.runs_b e.row r.evolve_b e.evolve);
    returns =
        rw (scan_row-scan t half rows yuv ii p us xs r.list r.runs_a r.runs_b u r.returns)
          e.returns;
    forest = e.forest;
    sets_from = omega (arith, r.sets_from, e.sets_from);
    keeps = Keeps-trans p r.list rep r.rep' e.rep' r.sets_from r.keeps e.keeps;
    known = Known-mono _ _ r.runs_a e.sets_from r.known_a;
    evolve =
        AllEvolve-later r.list r.rep' e.rep' e.keeps xs r.runs_a (Known-mono _ _ xs r.sets_from k)
          r.known_a r.evolve_a;
    are_runs = (
      AllEvolve-SameColumns r.rep' e.rep' (row_runs t half rows yuv ii) r.runs_b e.row r.evolve_b
          e.evolve,
      e.known,
      e.are_runs,
    );
    connected = (
      Together-later r.list r.rep' e.rep' e.keeps r.runs_a r.runs_b e.row r.known_a r.known_b
          e.evolve (r.together space),
      e.connected,
    );
    colors = λ blob_color f color first touch pure cx.
        let (mid, mid_pure, mid_same, ca, cb) =
          r.colors blob_color f (color ii) (first (omega arith)) k
            (AllFresh-Known _ (row_runs t half rows yuv ii) known_pos
              (row_runs-AllFresh t half rows yuv ii))
            pure cx
            (AllFresh-AllColored blob_color (color ii) (row_runs t half rows yuv ii)
              (row_runs-AllFresh t half rows yuv ii)) in
        let (last, last_pure, last_same, c_row, c_rows) =
          e.colors mid (color ii) color
            (λ h x y ix iy o.
              touch ii (omega arith) (omega arith) x y
                (AllEvolve-HasColumns r.rep' x (row_runs t half rows yuv ii) r.runs_b r.evolve_b ix)
                iy o)
            (λ j lo hi. touch j (omega arith) (omega arith)) mid_pure cb in
        (
          last,
          last_pure,
          λ i h. last_same i (omega (arith, r.sets_from)) ∙ mid_same i h,
          AllColored-same r.list mid last f r.runs_a last_same r.known_a ca,
          (c_row, c_rows),
        );
  }

  pub scan_rows-Labelled :
      (n ii : ℕ) (p : BlobList) (us : List UvRun) (xs : List YuvRun) (rep depth : ℕ → ℕ)
      → 2 * half < u16
      → UvAt t half rows yuv ii us
      → IsForest p rep depth
      → Known p.used_blob_set_count xs
      → YuvSorted 0 (2 * half) xs
      → Space p (length xs + 2 * run_count t half rows yuv ii n)
      → Labelled n ii p rep xs
          (scan_rows n t false (2 * half) rows ii (scan t half rows yuv p us xs))
          (labels_from t half rows yuv n ii (scan t half rows yuv p us xs))
  unfolding scan_rows labels_from
  scan_rows-Labelled zero ii p us xs rep depth small u v k o space = record {
    list = p;
    us = us;
    last = xs;
    rep' = rep;
    depth = depth;
    row = xs;
    labels = [];
    traced = refl;
    counted = omega (arith, gain_refl xs, total-lt p);
    returns = refl;
    forest = v;
    sets_from = omega arith;
    keeps = λ i j hi li hj lj e. e;
    known = k;
    evolve = AllEvolve-refl rep xs;
    are_runs = tt;
    connected = tt;
    colors = λ blob_color f color first touch pure cx. (blob_color, pure, λ i h. refl, cx, tt);
  }
  scan_rows-Labelled (suc n) ii p us xs rep depth small u v k o space =
      let r = row_rounds t half rows yuv ii p xs rep depth small v k o in
      let ys = row_runs t half rows yuv ii in
      let size = AllEvolve-length r.rep' ys r.runs_b r.evolve_b in
      let sorted =
        AllEvolve-YuvSorted r.rep' 0 (2 * half) ys r.runs_b r.evolve_b
          (row_runs-sorted t half rows yuv ii small) in
      Labelled-row n ii p us xs rep u k (omega (arith, v.roots_lt)) r
        (omega (arith, space.0), omega (arith, space.1))
        (scan_rows-Labelled n (ii + 1) r.list (row_uv_runs t half rows yuv ii) r.runs_b r.rep'
          r.depth small (UvAt-next t half rows yuv ii) r.forest r.known_b sorted
          (
            omega (arith, space.0, size, r.sets_to, r.max_sets),
            omega (arith, space.1, size, r.roots_to, r.max_roots),
          ))
