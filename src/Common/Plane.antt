-- ===== src/Common/Plane.antt =====
-- Places in an image that is stored row after row.
use Prim.Native.Nat.{ℕ, ◌+◌, ◌*◌, ◌≤◌, ◌<◌}
use mathlib.Core.Path.{◌≡◌, ap}
use native.Mathlib.Decide.{dec_lt}
use native.Mathlib.Omega.{arith}

pub rows_apart : (cols y y' : ℕ) → y < y' → y * cols + cols ≤ y' * cols
rows_apart cols y y' h = grind arith

-- The element of column `x` and row `y` belongs to one column and row.
pub index_inj :
    (cols x y x' y' : ℕ)
    → x < cols
    → x' < cols
    → y * cols + x ≡ y' * cols + x'
    → (x ≡ x') × (y ≡ y')
index_inj cols x y x' y' h h' e = elim (dec_lt y y') [
  | yes l ↦ absurd (omega (arith, rows_apart cols y y' l))
  | no m ↦ elim (dec_lt y' y) [
    | yes l ↦ absurd (omega (arith, rows_apart cols y' y l))
    | no l ↦ let same : y ≡ y' = omega arith in (omega (arith, ap (λ j. j * cols) same), same)
  ]
]
