-- ===== src/Blobs/Runs/Yuv.antt =====
-- detect_yuv_runs_in_row covers exactly the bright pixels of the uv runs.
use jpl_vision.Common.{
  ℕ, zero, suc, ◌+◌, ◌%◌, ◌≤◌, ◌<◌, ◌≡◌, refl, ◌⊎◌, inl, inr, Bool, true, false, ◌&&◌, List, [],
  ◌∷◌, ltb, leb, Bool-cases, arith, dec_lt,
}
use jpl_vision.Common.Memory.{Array}
use jpl_vision.Blobs.Types.{UvRun, YuvRun, u16}
use jpl_vision.Blobs.Runs.{advance, yuv_runs_from}
use jpl_vision.Blobs.Runs.Covers.{UvCovers, YuvCovers, UvSorted, YuvSorted}

-- Where a loop that advances while `test` holds stops.
record Stops (test : ℕ → Bool) (stop yi e : ℕ) : Type 0 where
  from : yi ≤ e
  upto : e ≤ stop
  all : (j : ℕ) → yi ≤ j → j < e → test j ≡ true
  why : (e ≡ stop) ⊎ (test e ≡ false)

advance-Stops :
    (fuel : ℕ) (test : ℕ → Bool) (stop yi : ℕ)
    → yi ≤ stop
    → stop ≤ yi + fuel
    → Stops test stop yi (advance fuel test stop yi)
unfolding advance
advance-Stops zero test stop yi h l = record {
  from = omega arith;
  upto = h;
  all = λ j a b. absurd (omega arith);
  why = inl (omega arith);
}
advance-Stops (suc fuel) test stop yi h l = elim (Bool-cases (ltb yi stop && test yi)) [
  | inl t ↦ rw t (further t (advance-Stops fuel test stop (yi + 1) (ground arith) (omega arith)))
  | inr f ↦ rw f (record {
    from = omega arith;
    upto = h;
    all = λ j a b. absurd (omega arith);
    why = ground arith;
  })
]
  where
    further :
        {e : ℕ} → ltb yi stop && test yi ≡ true → Stops test stop (yi + 1) e → Stops test stop yi e
    further t s = record {
      from = omega (arith, s.from);
      upto = s.upto;
      all = λ j a b. elim (dec_lt yi j) [
        | yes k ↦ s.all j (omega arith) b
        | no k ↦ let e : j ≡ yi = omega arith in rw e (ground arith)
      ];
      why = s.why;
    }

module _ (cols : ℕ) (small : cols < u16) (y_row : Array ℕ) (y_low : ℕ) where
  abbrev pub Bright : ℕ → Type 0
  Bright x = y_low ≤ y_row x

  -- The runs found in the uv runs `us`, from column `lo` on.
  pub record Within (lo : ℕ) (us : List UvRun) (rs : List YuvRun) : Type 0 where
    pub sound : (x : ℕ) → YuvCovers rs x → UvCovers us x × Bright x
    pub complete : (x : ℕ) → UvCovers us x → Bright x → YuvCovers rs x
    pub sorted : YuvSorted lo cols rs

  -- The uv run `u`, cut at the left by `yi`.
  abbrev pub cut : UvRun → ℕ → UvRun
  cut u yi = record u { run_low = yi }

  YuvSorted-lower :
      (lo hi : ℕ) (rs : List YuvRun) → lo ≤ hi → YuvSorted hi cols rs → YuvSorted lo cols rs
  YuvSorted-lower lo hi [] h s = tt
  YuvSorted-lower lo hi (r ∷ rs) h s = (omega (arith, s.0), s.1, s.2, s.3)

  -- Nothing of the rest of `u` is bright.
  Within-dark :
      (lo yi : ℕ) (u : UvRun) (us : List UvRun) (rs : List YuvRun)
      → lo ≤ u.run_high + 1
      → ((x : ℕ) → yi ≤ x → x < u.run_high → ltb (y_row x) y_low ≡ true)
      → Within (u.run_high + 1) us rs
      → Within lo (cut u yi ∷ us) rs
  Within-dark lo yi u us rs h dark w = record {
    sound = λ x c. (inr (w.sound x c).0, (w.sound x c).1);
    complete = λ x c b. elim c [
      | inl (p, q) ↦ absurd (ground (arith, dark x p q, b))
      | inr d ↦ w.complete x d b
    ];
    sorted = YuvSorted-lower lo (u.run_high + 1) rs h w.sorted;
  }

  -- A bright run `start .. stop` in `u`, and what is found behind it.
  Within-run :
      (lo yi start stop : ℕ) (u : UvRun) (us vs : List UvRun) (rs : List YuvRun)
      → Stops (λ k. ltb (y_row k) y_low) u.run_high yi start
      → Stops (λ k. leb y_low (y_row k)) u.run_high (start + 1) stop
      → leb y_low (y_row start) ≡ true
      → lo ≤ start
      → u.run_high ≤ cols
      → ((x : ℕ) → UvCovers vs x → (stop ≤ x) × (x < u.run_high) ⊎ UvCovers us x)
      → ((x : ℕ) → stop ≤ x → x < u.run_high → Bright x → UvCovers vs x)
      → ((x : ℕ) → UvCovers us x → UvCovers vs x)
      → Within (stop + 1) vs rs
      → Within lo
          (cut u yi ∷ us)
          (record { parent_index = 0; run_low = start % u16; run_high = stop % u16 } ∷ rs)
  Within-run lo yi start stop u us vs rs s t b l h into left right w = record {
    sound = λ x c. elim c [
      | inl (p, q) ↦ (
        inl (omega (arith, s.from, starts), omega (arith, t.upto, stops)),
        shown x (omega (arith, starts)) (omega (arith, stops)),
      )
      | inr d ↦ (behind x (into x (w.sound x d).0), (w.sound x d).1)
    ];
    complete = λ x c br. elim c [
      | inr d ↦ inr (w.complete x (right x d) br)
      | inl (p, q) ↦ elim (dec_lt x start) [
        | yes k ↦ absurd (ground (arith, s.all x p k, br))
        | no k ↦ elim (dec_lt x stop) [
          | yes m ↦ inl (omega (arith, starts), omega (arith, stops))
          | no m ↦ inr (w.complete x (left x (omega arith) q br) br)
        ]
      ]
    ];
    sorted = (
      omega (arith, starts),
      omega (arith, starts, stops, t.from),
      omega (arith, stops, t.upto),
      rw stops w.sorted,
    );
  }
    where
      stops : stop % u16 ≡ stop
      stops = omega (arith, t.upto)

      starts : start % u16 ≡ start
      starts = omega (arith, t.upto, t.from)

      shown : (x : ℕ) → start ≤ x → x < stop → Bright x
      shown x p q = elim (dec_lt start x) [
        | yes k ↦ ground (arith, t.all x (omega arith) q)
        | no k ↦ let e : x ≡ start = omega arith in rw e (ground arith)
      ]

      behind :
          (x : ℕ)
          → (stop ≤ x) × (x < u.run_high) ⊎ UvCovers us x
          → (yi ≤ x) × (x < u.run_high) ⊎ UvCovers us x
      behind x (inl (p, q)) = inl (omega (arith, s.from, t.from), q)
      behind x (inr d) = inr d

  -- What the loop does behind the last pixel of a uv run.
  abbrev next_runs : ℕ → List UvRun → List YuvRun
  next_runs fuel us = elim us [
    | [] ↦ []
    | u' ∷ us' ↦ yuv_runs_from fuel cols y_row y_low u' us' u'.run_low
  ]

  abbrev pub Claim : ℕ → Type 0
  Claim fuel =
      (lo yi : ℕ) (u : UvRun) (us : List UvRun)
      → yi < u.run_high
      → u.run_high ≤ cols
      → UvSorted (u.run_high + 1) cols us
      → cols < yi + fuel
      → ((lo ≤ yi) ⊎ (lo ≡ yi + 1) × (leb y_low (y_row yi) ≡ false))
      → Within lo (cut u yi ∷ us) (yuv_runs_from fuel cols y_row y_low u us yi)

  Within-next :
      (fuel lo : ℕ) (us : List UvRun)
      → Claim fuel
      → UvSorted lo cols us
      → cols < lo + fuel
      → Within lo us (next_runs fuel us)
  Within-next fuel lo [] claim o l = record {
    sound = λ x c. absurd c;
    complete = λ x c b. absurd c;
    sorted = tt;
  }
  Within-next fuel lo (u ∷ us) claim o l =
      claim lo u.run_low u us o.1 o.2 o.3 (omega (arith, o.0)) (inl o.0)

  -- One round of the loop.
  yuv_runs_from-step :
      (fuel lo yi : ℕ) (u : UvRun) (us : List UvRun)
      → Claim fuel
      → yi < u.run_high
      → u.run_high ≤ cols
      → UvSorted (u.run_high + 1) cols us
      → cols < yi + suc fuel
      → ((lo ≤ yi) ⊎ (lo ≡ yi + 1) × (leb y_low (y_row yi) ≡ false))
      → Within lo (cut u yi ∷ us) (yuv_runs_from (suc fuel) cols y_row y_low u us yi)
  unfolding yuv_runs_from
  yuv_runs_from-step fuel lo yi u us claim h k o l e = elim (dec_lt start high) [
    | no ge ↦ rw (dark ge) (
        Within-dark lo yi u us _ (omega (arith, e)) (λ x p q. s.all x p (omega (arith, s.upto)))
          rest)
    | yes lt ↦ elim (Bool-cases (leb high stop)) [
      | inl full ↦ rw (ran lt full) (
          Within-run lo yi start stop u us us _ s (t lt) (bright lt) (low lt) k (λ x c. inr c)
            (λ x p q b. absurd (ground arith)) (λ x c. c) (rw (at_end lt full) rest))
      | inr more ↦ rw (stopped lt more) (
          Within-run lo yi start stop u us (cut u stop ∷ us) _ s (t lt) (bright lt) (low lt) k
            (λ x c. c) (λ x p q b. inl (p, q)) (λ x c. inr c)
            (claim (stop + 1) stop u us (ground arith) k o (omega (arith, s.from, (t lt).from))
              (inr (refl, ground (arith, (t lt).why)))))
    ]
  ]
    where
      high : ℕ
      high = u.run_high

      start : ℕ
      start = advance high (λ j. ltb (y_row j) y_low) high yi

      stop : ℕ
      stop = advance high (λ j. leb y_low (y_row j)) high (start + 1)

      s : Stops (λ j. ltb (y_row j) y_low) high yi start
      s = advance-Stops high (λ j. ltb (y_row j) y_low) high yi (omega arith) (omega arith)

      t : start < high → Stops (λ j. leb y_low (y_row j)) high (start + 1) stop
      t lt =
          advance-Stops high (λ j. leb y_low (y_row j)) high (start + 1) (omega arith) (omega arith)

      bright : start < high → leb y_low (y_row start) ≡ true
      bright lt = ground (arith, s.why)

      low : start < high → lo ≤ start
      low lt = elim (dec_lt yi start) [
        | yes m ↦ omega (arith, e)
        | no m ↦ let q : start ≡ yi = omega (arith, s.from) in ground (arith, e, q, bright lt)
      ]

      rest : Within (high + 1) us (next_runs fuel us)
      rest = Within-next fuel (high + 1) us claim o (omega arith)

      at_end : start < high → leb high stop ≡ true → stop ≡ high
      at_end lt full = ground (arith, (t lt).upto)

      dark :
          ¬ (start < high) → yuv_runs_from (suc fuel) cols y_row y_low u us yi ≡ next_runs fuel us
      dark ge = ground arith

      ran :
          start < high
          → leb high stop ≡ true
          → yuv_runs_from (suc fuel) cols y_row y_low u us yi
            ≡ record { parent_index = 0; run_low = start % u16; run_high = stop % u16 }
              ∷ next_runs fuel us
      ran lt full = ground arith

      stopped :
          start < high
          → leb high stop ≡ false
          → yuv_runs_from (suc fuel) cols y_row y_low u us yi
            ≡ record { parent_index = 0; run_low = start % u16; run_high = stop % u16 }
              ∷ yuv_runs_from fuel cols y_row y_low u us stop
      stopped lt more = ground arith

  pub yuv_runs_from-Within : (fuel : ℕ) → Claim fuel
  yuv_runs_from-Within zero lo yi u us h k o l e = absurd (omega arith)
  yuv_runs_from-Within (suc fuel) lo yi u us h k o l e =
      yuv_runs_from-step fuel lo yi u us (yuv_runs_from-Within fuel) h k o l e
