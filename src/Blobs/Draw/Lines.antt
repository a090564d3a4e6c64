-- ===== src/Blobs/Draw/Lines.antt =====
-- Which elements are written.
use jpl_vision.Common.{
  ℕ, zero, suc, ◌+◌, ◌-◌, ◌*◌, ◌≤◌, ◌<◌, ◌≡◌, ◌≢◌, ◌∙◌, ◌⊎◌, inl, inr, refl, ap, arith,
}
use jpl_vision.Common.Plane.{index_inj}
use jpl_vision.Common.Memory.{Array}
use jpl_vision.Blobs.Types.{BlobStats}
use jpl_vision.Blobs.Draw.{paint_two, paint_four}

-- The elements that the loop writes.
abbrev pub Written : ℕ → ℕ → ℕ → ℕ → ℕ → Type 0
Written n a b step k = (i : ℕ) × (i < n) × ((k ≡ a + i * step) ⊎ (k ≡ b + i * step))

Written-later :
    (n a b step k : ℕ) → Written n (a + step) (b + step) step k → Written (suc n) a b step k
Written-later n a b step k (i, l, inl e) = (suc i, omega arith, inl (grind (arith, e)))
Written-later n a b step k (i, l, inr e) = (suc i, omega arith, inr (grind (arith, e)))

pub paint_two-miss :
    (n : ℕ) (yuv : Array ℕ) (a b step v k : ℕ)
    → ¬ Written n a b step k
    → paint_two n yuv a b step v k ≡ yuv k
unfolding paint_two
paint_two-miss zero yuv a b step v k h = refl
paint_two-miss (suc n) yuv a b step v k h =
    paint_two-miss n _ (a + step) (b + step) step v k (λ w. h (Written-later n a b step k w))
    ∙ ground (arith, not_a, not_b)
  where
    not_a : k ≢ a
    not_a e = h (zero, omega arith, inl (grind arith))

    not_b : k ≢ b
    not_b e = h (zero, omega arith, inr (grind arith))

pub paint_two-keeps :
    (n : ℕ) (yuv : Array ℕ) (a b step v k : ℕ) → yuv k ≡ v → paint_two n yuv a b step v k ≡ v
unfolding paint_two
paint_two-keeps zero yuv a b step v k h = h
paint_two-keeps (suc n) yuv a b step v k h =
    paint_two-keeps n _ (a + step) (b + step) step v k (ground (arith, h))

pub paint_two-hit :
    (n : ℕ) (yuv : Array ℕ) (a b step v k : ℕ)
    → Written n a b step k
    → paint_two n yuv a b step v k ≡ v
unfolding paint_two
paint_two-hit zero yuv a b step v k w = absurd (omega (arith, w.1))
paint_two-hit (suc n) yuv a b step v k (zero, l, e) =
    paint_two-keeps n _ (a + step) (b + step) step v k
      (let z : 0 * step ≡ 0 = omega arith in ground (arith, e, z))
paint_two-hit (suc n) yuv a b step v k (suc i, l, e) =
    paint_two-hit n _ (a + step) (b + step) step v k (
      i,
      omega arith,
      (let z : suc i * step ≡ step + i * step = grind arith in ground (arith, e, z)),
    )

pub paint_four-miss :
    (n : ℕ) (yuv : Array ℕ) (a b apart step u v k : ℕ)
    → k < a
    → k < b
    → paint_four n yuv a b apart step u v k ≡ yuv k
unfolding paint_four
paint_four-miss zero yuv a b apart step u v k h g = refl
paint_four-miss (suc n) yuv a b apart step u v k h g =
    paint_four-miss n _ (a + step) (b + step) apart step u v k (omega arith) (omega arith)
    ∙ ground (arith, h, g)

-- The column of the top and bottom lines of a box, and the row of the left and right ones.
abbrev pub OnRows : BlobStats → ℕ → ℕ → Type 0
OnRows s x y = (s.min_x ≤ x) × (x ≤ s.max_x) × ((y ≡ s.min_y) ⊎ (y ≡ s.max_y))

abbrev pub OnColumns : BlobStats → ℕ → ℕ → Type 0
OnColumns s x y = (s.min_y ≤ y) × (y ≤ s.max_y) × ((x ≡ s.min_x) ⊎ (x ≡ s.max_x))

module _ (s : BlobStats) (cols x y : ℕ) (in_x : x < cols) (box_x : s.max_x < cols)
    (wide : s.min_x ≤ s.max_x) where
  abbrev pub RowsWritten : Type 0
  RowsWritten =
      Written (s.max_x + 1 - s.min_x) (s.min_y * cols + s.min_x) (s.max_y * cols + s.min_x) 1
        (y * cols + x)

  abbrev pub ColumnsWritten : Type 0
  ColumnsWritten =
      Written (s.max_y + 1 - s.min_y) (s.min_x + s.min_y * cols) (s.max_x + s.min_y * cols) cols
        (y * cols + x)

  pub OnRows-written : OnRows s x y → RowsWritten
  OnRows-written (lo, hi, inl e) =
      (x - s.min_x, omega arith, inl (omega (arith, ap (λ j. j * cols) e)))
  OnRows-written (lo, hi, inr e) =
      (x - s.min_x, omega arith, inr (omega (arith, ap (λ j. j * cols) e)))

  pub written-OnRows : RowsWritten → OnRows s x y
  written-OnRows (i, l, inl e) =
      let at = index_inj cols x y (s.min_x + i) s.min_y in_x (omega arith) (omega arith) in
      (omega (arith, at.0), omega (arith, at.0), inl at.1)
  written-OnRows (i, l, inr e) =
      let at = index_inj cols x y (s.min_x + i) s.max_y in_x (omega arith) (omega arith) in
      (omega (arith, at.0), omega (arith, at.0), inr at.1)

  rows_sum : (i : ℕ) → (s.min_y + i) * cols ≡ s.min_y * cols + i * cols
  rows_sum i = grind arith

  pub OnColumns-written : OnColumns s x y → ColumnsWritten
  OnColumns-written (lo, hi, e) =
      let row : s.min_y + (y - s.min_y) ≡ y = omega arith in
      let sum = rows_sum (y - s.min_y) in
      let at = ap (λ j. j * cols) row in (y - s.min_y, omega arith, ground (arith, e, sum, at))

  pub written-OnColumns : ColumnsWritten → OnColumns s x y
  written-OnColumns (i, l, inl e) =
      let at =
        index_inj cols x y s.min_x (s.min_y + i) in_x (omega arith) (omega (arith, rows_sum i)) in
      (omega (arith, at.1), omega (arith, at.1), inl at.0)
  written-OnColumns (i, l, inr e) =
      let at =
        index_inj cols x y s.max_x (s.min_y + i) in_x (omega arith) (omega (arith, rows_sum i)) in
      (omega (arith, at.1), omega (arith, at.1), inr at.0)
