-- ===== src/Blobs/Rows/Steps.antt =====
-- What happens to the runs of two rows while they are united, and how such steps are put together.
use jpl_vision.Common.{ℕ, ◌+◌, ◌≤◌, ◌<◌, ◌≡◌, refl, List, [], ◌∷◌, arith}
use jpl_vision.Blobs.Types.{YuvRun}
use jpl_vision.Blobs.Runs.Covers.{YuvSorted}
use jpl_vision.Blobs.Stats.{run_length}
use jpl_vision.Blobs.Union.Spec.{newly}

-- Each run is in a blob of the list, or in none.
abbrev pub Known : ℕ → List YuvRun → Type 0
Known n [] = Unit {0}
Known n (r ∷ rs) = (r.parent_index < n) × Known n rs

pub Known-mono : (n m : ℕ) (rs : List YuvRun) → n ≤ m → Known n rs → Known m rs
Known-mono n m [] h k = tt
Known-mono n m (r ∷ rs) h k = (omega (arith, k.0), Known-mono n m rs h k.1)

-- A run keeps its columns, and stays in the blob that it is in.
abbrev pub Evolves : (ℕ → ℕ) → YuvRun → YuvRun → Type 0
Evolves rep r s =
    (s.run_low ≡ r.run_low)
    × (s.run_high ≡ r.run_high)
    × (0 < r.parent_index → (0 < s.parent_index) × (rep s.parent_index ≡ rep r.parent_index))

abbrev pub AllEvolve : (ℕ → ℕ) → List YuvRun → List YuvRun → Type 0
AllEvolve rep [] [] = Unit {0}
AllEvolve rep [] (s ∷ ss) = ⊥
AllEvolve rep (r ∷ rs) [] = ⊥
AllEvolve rep (r ∷ rs) (s ∷ ss) = Evolves rep r s × AllEvolve rep rs ss

-- The pixels of the runs that have come into a blob.
abbrev pub gain : List YuvRun → List YuvRun → ℕ
gain [] ss = 0
gain (r ∷ rs) [] = 0
gain (r ∷ rs) (s ∷ ss) = newly r s + gain rs ss

pub AllEvolve-refl : (rep : ℕ → ℕ) (rs : List YuvRun) → AllEvolve rep rs rs
AllEvolve-refl rep [] = tt
AllEvolve-refl rep (r ∷ rs) = ((refl, refl, λ h. (h, refl)), AllEvolve-refl rep rs)

pub gain_refl : (rs : List YuvRun) → gain rs rs ≡ 0
gain_refl [] = refl
gain_refl (r ∷ rs) = ground (arith, gain_refl rs)

-- The gain of two steps is the sum of theirs.
pub newly_trans :
    (rep rep' : ℕ → ℕ) (r s t : YuvRun)
    → Evolves rep r s
    → Evolves rep' s t
    → newly r t ≡ newly r s + newly s t
newly_trans rep rep' r s t e f = ground (arith, e, f, ap2 run_length e.0 e.1)
  where
    ap2 :
        (g : ℕ → ℕ → ℕ)
        → s.run_low ≡ r.run_low
        → s.run_high ≡ r.run_high
        → g s.run_low s.run_high ≡ g r.run_low r.run_high
    ap2 g x y = rw (x, y)

-- Two runs share a column.
abbrev pub Overlap : YuvRun → YuvRun → Type 0
Overlap a b = (a.run_low < b.run_high) × (b.run_low < a.run_high)

-- Both runs are in one blob.
abbrev pub OneBlob : (ℕ → ℕ) → YuvRun → YuvRun → Type 0
OneBlob rep a b =
    (0 < a.parent_index) × (0 < b.parent_index) × (rep a.parent_index ≡ rep b.parent_index)

-- Every two runs of the two rows that share a column are in one blob.
abbrev pub WithRow : (ℕ → ℕ) → YuvRun → List YuvRun → Type 0
WithRow rep a [] = Unit {0}
WithRow rep a (b ∷ bs) = (Overlap a b → OneBlob rep a b) × WithRow rep a bs

abbrev pub Together : (ℕ → ℕ) → List YuvRun → List YuvRun → Type 0
Together rep [] bs = Unit {0}
Together rep (a ∷ rest) bs = WithRow rep a bs × Together rep rest bs

abbrev pub WithRun : (ℕ → ℕ) → List YuvRun → YuvRun → Type 0
WithRun rep [] b = Unit {0}
WithRun rep (a ∷ rest) b = (Overlap a b → OneBlob rep a b) × WithRun rep rest b

pub Together-nil : (rep : ℕ → ℕ) (rs : List YuvRun) → Together rep rs []
Together-nil rep [] = tt
Together-nil rep (r ∷ rs) = (tt, Together-nil rep rs)

pub Together-cons :
    (rep : ℕ → ℕ) (rs : List YuvRun) (b : YuvRun) (bs : List YuvRun)
    → WithRun rep rs b
    → Together rep rs bs
    → Together rep rs (b ∷ bs)
Together-cons rep [] b bs h k = tt
Together-cons rep (r ∷ rs) b bs h k = ((h.0, k.0), Together-cons rep rs b bs h.1 k.1)

pub AllEvolve-YuvSorted :
    (rep : ℕ → ℕ) (lo hi : ℕ) (rs ss : List YuvRun)
    → AllEvolve rep rs ss
    → YuvSorted lo hi rs
    → YuvSorted lo hi ss
AllEvolve-YuvSorted rep lo hi [] [] e o = tt
AllEvolve-YuvSorted rep lo hi [] (s ∷ ss) e o = absurd e
AllEvolve-YuvSorted rep lo hi (r ∷ rs) [] e o = absurd e
AllEvolve-YuvSorted rep lo hi (r ∷ rs) (s ∷ ss) e o = (
  omega (arith, o.0),
  omega (arith, o.1),
  omega (arith, o.2),
  AllEvolve-YuvSorted rep (s.run_high + 1) hi rs ss e.1 (rw e.0.1 o.3),
)

-- A run that ends before all others begin shares no column with them.
pub WithRow-apart :
    (rep : ℕ → ℕ) (a : YuvRun) (lo hi : ℕ) (bs : List YuvRun)
    → a.run_high ≤ lo
    → YuvSorted lo hi bs
    → WithRow rep a bs
WithRow-apart rep a lo hi [] h o = tt
WithRow-apart rep a lo hi (b ∷ bs) h o = (
  λ v. absurd (omega (arith, o.0, v)),
  WithRow-apart rep a (b.run_high + 1) hi bs (omega (arith, o.0, o.1)) o.3,
)

pub WithRun-apart :
    (rep : ℕ → ℕ) (b : YuvRun) (lo hi : ℕ) (rs : List YuvRun)
    → b.run_high ≤ lo
    → YuvSorted lo hi rs
    → WithRun rep rs b
WithRun-apart rep b lo hi [] h o = tt
WithRun-apart rep b lo hi (r ∷ rs) h o = (
  λ v. absurd (omega (arith, o.0, v)),
  WithRun-apart rep b (r.run_high + 1) hi rs (omega (arith, o.0, o.1)) o.3,
)
