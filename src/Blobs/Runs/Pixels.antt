-- ===== src/Blobs/Runs/Pixels.antt =====
-- The pixels of one row that the two run finders detect together.
use jpl_vision.Common.{
  ℕ, ◌+◌, ◌*◌, ◌/◌, ◌≤◌, ◌<◌, ◌≡◌, ◌↔◌, refl, sym, ◌∙◌, inl, true, List, [], ◌∷◌, arith, length,
}
use jpl_vision.Common.Memory.{Array}
use jpl_vision.Blobs.Types.{UvRun, u16}
use jpl_vision.Blobs.Runs.{
  Thresholds, uv_is_in, uv_runs_from, create_uv_run_sequence, detect_yuv_runs_in_row,
}
use jpl_vision.Blobs.Runs.Covers.{UvCovers, YuvCovers, UvSorted, YuvSorted}
use jpl_vision.Blobs.Runs.Uv.{Right, uv_runs_from-Right}
use jpl_vision.Blobs.Runs.Yuv.{Within, yuv_runs_from-Within}

-- The pixel in column `x` is within the limits on U and V.
abbrev pub UvIn : ℕ → Array ℕ → Thresholds → ℕ → Type 0
UvIn pixels uv_row t x = uv_is_in pixels uv_row t x ≡ true

-- One pair of U and V values serves both columns of a pair.
uv_is_in-pair :
    (pixels : ℕ) (uv_row : Array ℕ) (t : Thresholds) (x : ℕ)
    → uv_is_in pixels uv_row t (2 * (x / 2)) ≡ uv_is_in pixels uv_row t x
unfolding uv_is_in
uv_is_in-pair pixels uv_row t x = rw (half x)
  where
    half : (k : ℕ) → 2 * (k / 2) / 2 ≡ k / 2
    half k = omega arith

module _ (half rows : ℕ) (uv_row : Array ℕ) (t : Thresholds) (small : 2 * half < u16) where
  runs : List UvRun
  runs = create_uv_run_sequence (2 * half) rows uv_row t

  uv-Right : Right (uv_is_in (2 * half * rows) uv_row t) half 0 runs
  unfolding runs create_uv_run_sequence
  uv-Right = rw (← start) (
      uv_runs_from-Right (uv_is_in (2 * half * rows) uv_row t) half (2 * half + 1) 0 small
        (omega arith) (omega arith))
    where
      start :
          uv_runs_from (2 * half + 1) (uv_is_in (2 * half * rows) uv_row t) (2 * half) (2 * 0)
          ≡ create_uv_run_sequence (2 * half) rows uv_row t
      start = refl

  pair :
      (x : ℕ)
      → uv_is_in (2 * half * rows) uv_row t (2 * (x / 2)) ≡ uv_is_in (2 * half * rows) uv_row t x
  pair = uv_is_in-pair (2 * half * rows) uv_row t

  -- Of an even number of columns the uv runs cover exactly the columns that are within the limits on
  -- U and V together with the column to their right, in order and with gaps between the runs.
  pub create_uv_run_sequence-pixels :
      UvSorted 0 (2 * half) (create_uv_run_sequence (2 * half) rows uv_row t)
      × ((x : ℕ)
          → UvCovers (create_uv_run_sequence (2 * half) rows uv_row t) x ↔ (
              (x + 1 < 2 * half)
              × UvIn (2 * half * rows) uv_row t x
              × UvIn (2 * half * rows) uv_row t (x + 1)))
  unfolding runs
  create_uv_run_sequence-pixels = (
    uv-Right.sorted,
    λ x. (
      λ c. let w = uv-Right.sound x c in (w.1, sym (pair x) ∙ w.2, sym (pair (x + 1)) ∙ w.3),
      λ w. uv-Right.complete x (omega arith, w.0, pair x ∙ w.1, pair (x + 1) ∙ w.2),
    ),
  )

  -- detect_yuv_runs_in_row on any sorted uv runs: exactly their bright pixels.
  pub bright_pixels :
      (y_row : Array ℕ) (us : List UvRun)
      → UvSorted 0 (2 * half) us
      → let rs = detect_yuv_runs_in_row (2 * half) y_row us t.y_low in
        YuvSorted 0 (2 * half) rs
        × ((x : ℕ) → YuvCovers rs x ↔ (UvCovers us x × (t.y_low ≤ y_row x)))
  unfolding detect_yuv_runs_in_row
  bright_pixels y_row [] o = (tt, λ x. (λ c. absurd c, λ c. absurd c.0))
  bright_pixels y_row (u ∷ us) o = (w.sorted, λ x. (w.sound x, λ c. w.complete x c.0 c.1))
    where
      w :
          Within
            (2 * half)
            small
            y_row
            t.y_low
            0
            (u ∷ us)
            (detect_yuv_runs_in_row (2 * half) y_row (u ∷ us) t.y_low)
      w =
          yuv_runs_from-Within (2 * half) small y_row t.y_low (2 * half + length us + 1) 0 u.run_low
            u us o.1 o.2 o.3 (omega arith) (inl (omega arith))

  -- A pixel of a row of an even number of columns is detected if its Y value is high enough and it
  -- is within the limits on U and V together with the pixel to its right, and only then. The runs
  -- stand in order, are not empty, and have gaps between them.
  pub detected_pixels :
      (y_row : Array ℕ)
      → let rs =
          detect_yuv_runs_in_row
            (2 * half)
            y_row
            (create_uv_run_sequence (2 * half) rows uv_row t)
            t.y_low in
        YuvSorted 0 (2 * half) rs
        × ((x : ℕ)
            → YuvCovers rs x ↔ (
                (x + 1 < 2 * half)
                × UvIn (2 * half * rows) uv_row t x
                × UvIn (2 * half * rows) uv_row t (x + 1)
                × (t.y_low ≤ y_row x)))
  detected_pixels y_row = (
    found.0,
    λ x. (
      λ c. let (u, b) = (found.1 x).0 c in let w = (uv.1 x).0 u in (w.0, w.1, w.2, b),
      λ w. (found.1 x).1 ((uv.1 x).1 (w.0, w.1, w.2), w.3),
    ),
  )
    where
      uv :
          UvSorted 0 (2 * half) (create_uv_run_sequence (2 * half) rows uv_row t)
          × ((x : ℕ)
              → UvCovers (create_uv_run_sequence (2 * half) rows uv_row t) x ↔ (
                  (x + 1 < 2 * half)
                  × UvIn (2 * half * rows) uv_row t x
                  × UvIn (2 * half * rows) uv_row t (x + 1)))
      uv = create_uv_run_sequence-pixels

      found :
          let rs =
            detect_yuv_runs_in_row
              (2 * half)
              y_row
              (create_uv_run_sequence (2 * half) rows uv_row t)
              t.y_low in
          YuvSorted 0 (2 * half) rs
          × ((x : ℕ)
              → YuvCovers rs x ↔ (
                  UvCovers (create_uv_run_sequence (2 * half) rows uv_row t) x
                  × (t.y_low ≤ y_row x)))
      found = bright_pixels y_row (create_uv_run_sequence (2 * half) rows uv_row t) uv.0
