-- ===== src/Common/Memory.antt =====
-- A C array as the function from its indices to its elements, and sums over an initial part of it.
-- That an index is inside the array is proved of the code, not built into the type.
use Prim.Native.Nat.{ℕ, zero, suc, ◌+◌, ◌<◌}
use mathlib.Core.Path.{◌≡◌, refl, sym}
use mathlib.Core.Logic.{◌≢◌}
use native.Mathlib.Decide.{ℕ_discrete}
use mathlib.Core.List.{List, [], ◌∷◌}
use native.Mathlib.Omega.{arith}
use jpl_vision.Common.Tests.{◌==◌, if◌then◌else◌}

abbrev pub Array {ℓ} : Type ℓ → Type ℓ
Array A = ℕ → A

-- a[i] = v
abbrev pub update {ℓ} : {A : Type ℓ} → Array A → ℕ → A → Array A
update a i v j = if j == i then v else a j

-- The first `n` elements, in order, from index `i` on.
unfoldable pub slice {ℓ} : {A : Type ℓ} → Array A → ℕ → ℕ → List A
slice a i zero = []
slice a i (suc n) = a i ∷ slice a (i + 1) n

unfoldable pub sum_below : ℕ → (ℕ → ℕ) → ℕ
sum_below zero f = 0
sum_below (suc n) f = sum_below n f + f n

pub sum_below-congr :
    (n : ℕ) (f g : ℕ → ℕ) → ((i : ℕ) → i < n → f i ≡ g i) → sum_below n f ≡ sum_below n g
unfolding sum_below
sum_below-congr zero f g h = refl
sum_below-congr (suc n) f g h =
    omega (arith, sum_below-congr n f g (λ i l. h i (omega arith)), h n (omega arith))

-- Changing one element changes the sum by the difference.
pub sum_below-update :
    (n : ℕ) (f g : ℕ → ℕ) (k : ℕ)
    → k < n
    → ((i : ℕ) → i ≢ k → f i ≡ g i)
    → sum_below n f + g k ≡ sum_below n g + f k
unfolding sum_below
sum_below-update zero f g k l h = elim l [ ]
sum_below-update (suc n) f g k l h = elim (ℕ_discrete k n) [
  | yes e ↦ last e
  | no ne ↦ omega (arith, sum_below-update n f g k (omega arith) h, h n (λ e. ne (sym e)))
]
  where
    last : k ≡ n → sum_below (suc n) f + g k ≡ sum_below (suc n) g + f k
    last e = rw e (omega (arith, sum_below-congr n f g (λ i q. h i (λ p. absurd (omega arith)))))
