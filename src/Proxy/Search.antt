-- ===== src/Proxy/Search.antt =====
-- The search for a text by search_pattern_compare and search_pattern_matches, which go back to the
-- start of the text after a byte that does not fit.
use jpl_vision.Common.{
  ℕ, zero, suc, ◌+◌, ◌≤◌, ◌<◌, ◌≡◌, refl, ap, sym, inl, inr, ◌⊎◌, Bool, true, false, some, List, [],
  ◌∷◌, ◌++◌, length, get_elem?, get_or, ◌==◌, if◌then◌else◌, arith,
}
use jpl_vision.Proxy.{SearchPattern, search_pattern_compare, search_pattern_matches}

abbrev pub pattern_at : List ℕ → ℕ → SearchPattern
pattern_at text m = record { string = text; matched = m }

-- How many characters are matched after the byte `c`.
abbrev pub next : List ℕ → ℕ → ℕ → ℕ
next text m c = if get_or text m 0 == c then m + 1 else 0

abbrev pub AllNonzero : List ℕ → Type 0
AllNonzero [] = Unit {0}
AllNonzero (c ∷ cs) = (0 < c) × AllNonzero cs

char_at :
    (text : List ℕ) (m : ℕ)
    → m ≤ length text
    → get_elem? (text ++ 0 ∷ []) m ≡ some (get_or text m 0)
char_at [] zero h = refl
char_at [] (suc m) h = absurd (omega arith)
char_at (x ∷ text) zero h = refl
char_at (x ∷ text) (suc m) h = char_at text m (omega arith)

get_or-end : (text : List ℕ) → get_or text (length text) 0 ≡ 0
get_or-end [] = refl
get_or-end (x ∷ text) = get_or-end text

get_or-nonzero : (text : List ℕ) (m : ℕ) → AllNonzero text → m < length text → 0 < get_or text m 0
get_or-nonzero [] m a h = omega arith
get_or-nonzero (x ∷ text) zero a h = a.0
get_or-nonzero (x ∷ text) (suc m) a h = get_or-nonzero text m a.1 (omega arith)

pub search_pattern_compare-next :
    (text : List ℕ) (m c : ℕ)
    → m ≤ length text
    → search_pattern_compare (pattern_at text m) c ≡ some (pattern_at text (next text m c))
unfolding search_pattern_compare
search_pattern_compare-next text m c h = rw (char_at text m h) (pick (get_or text m 0 == c))
  where
    pick :
        (b : Bool)
        → some (if b then pattern_at text (m + 1) else pattern_at text 0)
          ≡ some (pattern_at text (if b then m + 1 else 0))
    pick true = refl
    pick false = refl

pub next-bound : (text : List ℕ) (m c : ℕ) → 0 < c → m ≤ length text → next text m c ≤ length text
next-bound text m c pc h = ground (arith, get_or-end text)

at_end_or_before : (m n : ℕ) → m ≤ n → (m ≡ n) ⊎ (m < n)
at_end_or_before m n h = ground arith

test_same : (n : ℕ) → (n == n) ≡ true
test_same n = ground arith

pub search_pattern_matches_iff :
    (text : List ℕ) (m : ℕ)
    → AllNonzero text
    → m ≤ length text
    → search_pattern_matches (pattern_at text m) ≡ some (m == length text)
unfolding search_pattern_matches
search_pattern_matches_iff text m a h = elim (at_end_or_before m (length text) h) [
  | inl e ↦
      rw (e, char_at text (length text) (omega arith), get_or-end text)
        (ap some (sym (test_same (length text))))
  | inr l ↦ rw (char_at text m h) (let p = get_or-nonzero text m a l in ap some (ground arith))
]
