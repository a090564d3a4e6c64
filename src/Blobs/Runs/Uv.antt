-- ===== src/Blobs/Runs/Uv.antt =====
-- create_uv_run_sequence covers the pixels that are within the U and V limits with their right
-- neighbours.
use jpl_vision.Common.{
  ℕ, zero, suc, ◌+◌, ◌-◌, ◌*◌, ◌/◌, ◌%◌, ◌≤◌, ◌<◌, ◌≡◌, ◌∙◌, ◌⊎◌, inl, inr, Bool, true, false, List,
  [], ◌∷◌, Bool-cases, arith, ap, ℕ_discrete, dec_lt,
}
use jpl_vision.Blobs.Types.{UvRun, u16}
use jpl_vision.Blobs.Runs.{uv_run_end, uv_runs_from}
use jpl_vision.Blobs.Runs.Covers.{UvCovers, UvSorted}

module _ (is_in : ℕ → Bool) (half : ℕ) where
  -- Where the run that is open before the pair of columns `2 * k` ends.
  record Ends (k e : ℕ) : Type 0 where
    after : k ≤ e
    within : e ≤ half
    inside : (j : ℕ) → k ≤ j → j < e → is_in (2 * j) ≡ true
    stops : (e ≡ half) ⊎ (is_in (2 * e) ≡ false)

  Ends-step : (k e : ℕ) → is_in (2 * k) ≡ true → Ends (k + 1) e → Ends k e
  Ends-step k e t w = record {
    after = omega (arith, w.after);
    within = w.within;
    inside = λ j p q. elim (ℕ_discrete j k) [
      | yes same ↦ rw same t
      | no other ↦ w.inside j (omega arith) q
    ];
    stops = w.stops;
  }

  Ends-stop : (k : ℕ) → k ≤ half → (k ≡ half) ⊎ (is_in (2 * k) ≡ false) → Ends k k
  Ends-stop k h s = record {
    after = omega arith;
    within = h;
    inside = λ j p q. absurd (omega arith);
    stops = s;
  }

  -- The inner loop ends within its fuel.
  uv_run_end-Ends :
      (fuel k : ℕ)
      → k ≤ half
      → half < k + fuel
      → (e : ℕ) × (uv_run_end fuel is_in (2 * half) (2 * k) ≡ 2 * e) × Ends k e
  unfolding uv_run_end
  uv_run_end-Ends zero k h l = absurd (omega arith)
  uv_run_end-Ends (suc fuel) k h l = elim (dec_lt k half) [
    | yes lt ↦ elim (Bool-cases (is_in (2 * k))) [
      | inl t ↦
          let (e, eq, w) = uv_run_end-Ends fuel (k + 1) (omega arith) (omega arith) in
          (e, ground (arith, eq, next), Ends-step k e t w)
      | inr f ↦ (k, ground arith, Ends-stop k h (inr f))
    ]
    | no ge ↦ (k, ground arith, Ends-stop k h (inl (omega arith)))
  ]
    where
      next :
          uv_run_end fuel is_in (2 * half) (2 * k + 2)
          ≡ uv_run_end fuel is_in (2 * half) (2 * (k + 1))
      next = ap (uv_run_end fuel is_in (2 * half)) (omega arith)

  -- The pair of columns of `x` is within the limits.
  abbrev pub In : ℕ → Type 0
  In x = is_in (2 * (x / 2)) ≡ true

  -- What the outer loop from the pair of columns `2 * k` on has to cover.
  abbrev pub Wanted : ℕ → ℕ → Type 0
  Wanted k x = (2 * k ≤ x) × (x + 1 < 2 * half) × In x × In (x + 1)

  -- The runs from `k` on are right.
  pub record Right (k : ℕ) (rs : List UvRun) : Type 0 where
    pub sound : (x : ℕ) → UvCovers rs x → Wanted k x
    pub complete : (x : ℕ) → Wanted k x → UvCovers rs x
    pub sorted : UvSorted (2 * k) (2 * half) rs

  Right-end : (k : ℕ) → half ≤ k → Right k []
  Right-end k h = record { sound = λ x c. absurd c; complete = λ x wa. omega arith; sorted = tt }

  -- A pair that is outside the limits is passed over.
  Right-skip : (k : ℕ) (rs : List UvRun) → is_in (2 * k) ≡ false → Right (k + 1) rs → Right k rs
  Right-skip k rs f r = record {
    sound = λ x c. let wa = r.sound x c in (omega (arith, wa.0), wa.1, wa.2, wa.3);
    complete = λ x wa. elim (ℕ_discrete (x / 2) k) [
      | yes e ↦ absurd (outside x e wa.2)
      | no ne ↦ r.complete x (omega (arith, wa.0), wa.1, wa.2, wa.3)
    ];
    sorted = lower rs r.sorted;
  }
    where
      outside : (x : ℕ) → x / 2 ≡ k → ¬ In x
      outside x e t = cc (f, ap (λ j. is_in (2 * j)) e)

      lower : (l : List UvRun) → UvSorted (2 * (k + 1)) (2 * half) l → UvSorted (2 * k) (2 * half) l
      lower [] o = tt
      lower (u ∷ us) o = (omega (arith, o.0), o.1, o.2, o.3)

  -- The open run `2 * k .. 2 * e - 1` and what is found from `e` on.
  Right-run :
      (k e : ℕ) (u : UvRun) (rs : List UvRun)
      → is_in (2 * k) ≡ true
      → Ends (k + 1) e
      → u.run_low ≡ 2 * k
      → u.run_high + 1 ≡ 2 * e
      → Right e rs
      → Right k (u ∷ rs)
  Right-run k e u rs t w lo hi r = record {
    sound = λ x c. elim c [
      | inl (a, b) ↦ (
        omega arith,
        omega (arith, w.within),
        inside x (omega arith) (omega arith),
        inside (x + 1) (omega arith) (omega arith),
      )
      | inr d ↦ let wa = r.sound x d in (omega (arith, wa.0, w.after), wa.1, wa.2, wa.3)
    ];
    complete = λ x wa. elim (dec_lt x u.run_high) [
      | yes b ↦ inl (omega (arith, wa.0), b)
      | no nb ↦ elim (dec_lt x (2 * e)) [
        | yes b ↦ absurd (edge x (omega arith) wa.1 wa.3)
        | no nb' ↦ inr (r.complete x (omega arith, wa.1, wa.2, wa.3))
      ]
    ];
    sorted = (omega arith, omega (arith, w.after), omega (arith, w.within), rw hi r.sorted);
  }
    where
      inside : (x : ℕ) → 2 * k ≤ x → x < 2 * e → In x
      inside x a b = (Ends-step k e t w).inside (x / 2) (omega arith) (omega arith)

      edge : (x : ℕ) → (x + 1) / 2 ≡ e → x + 1 < 2 * half → ¬ In (x + 1)
      edge x m b i = elim w.stops [
        | inl z ↦ omega arith
        | inr f ↦ cc (f, ap (λ j. is_in (2 * j)) m)
      ]

  pub uv_runs_from-Right :
      (fuel k : ℕ)
      → 2 * half < u16
      → k ≤ half
      → half < k + fuel
      → Right k (uv_runs_from fuel is_in (2 * half) (2 * k))
  unfolding uv_runs_from
  uv_runs_from-Right zero k w h l = absurd (omega arith)
  uv_runs_from-Right (suc fuel) k w h l = elim (dec_lt k half) [
    | no ge ↦ rw (done ge) (Right-end k (omega arith))
    | yes lt ↦ elim (Bool-cases (is_in (2 * k))) [
      | inr f ↦
          rw (passed lt f)
            (Right-skip k _ f (uv_runs_from-Right fuel (k + 1) w (omega arith) (omega arith)))
      | inl t ↦
          let (e, eq, en) = uv_run_end-Ends (2 * half) (k + 1) (omega arith) (omega arith) in
          rw (found lt t e eq) (
            Right-run k e _ _ t en (omega arith) (omega (arith, en.after, en.within))
              (uv_runs_from-Right fuel e w en.within (omega (arith, en.after))))
    ]
  ]
    where
      done : ¬ (k < half) → uv_runs_from (suc fuel) is_in (2 * half) (2 * k) ≡ []
      done ge = ground arith

      passed :
          k < half
          → is_in (2 * k) ≡ false
          → uv_runs_from (suc fuel) is_in (2 * half) (2 * k)
            ≡ uv_runs_from fuel is_in (2 * half) (2 * (k + 1))
      passed lt f = ground (arith, ap (uv_runs_from fuel is_in (2 * half)) even)
        where
          even : 2 * k + 2 ≡ 2 * (k + 1)
          even = omega arith

      found :
          k < half
          → is_in (2 * k) ≡ true
          → (e : ℕ) → uv_run_end (2 * half) is_in (2 * half) (2 * (k + 1)) ≡ 2 * e
          → uv_runs_from (suc fuel) is_in (2 * half) (2 * k)
            ≡ record { run_low = (2 * k) % u16; run_high = (2 * e + u16 - 1) % u16 }
              ∷ uv_runs_from fuel is_in (2 * half) (2 * e)
      found lt t e eq = ground (arith, stop)
        where
          even : 2 * k + 2 ≡ 2 * (k + 1)
          even = omega arith

          stop : uv_run_end (2 * half) is_in (2 * half) (2 * k + 2) ≡ 2 * e
          stop = ap (uv_run_end (2 * half) is_in (2 * half)) even ∙ eq
