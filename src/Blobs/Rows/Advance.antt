-- ===== src/Blobs/Rows/Advance.antt =====
-- All rounds of yuv_run_row_union, one put in front of the others.
use jpl_vision.Common.{
  ℕ, suc, ◌+◌, ◌%◌, ◌≤◌, ◌<◌, ◌≡◌, refl, ◌∙◌, sym, ap, subst, some, List, [], ◌∷◌, arith,
}
use jpl_vision.Blobs.Types.{BlobList, YuvRun, u32}
use jpl_vision.Blobs.Total.{get_total_blob_pixel_count}
use jpl_vision.Blobs.Forest.Valid.{IsForest}
use jpl_vision.Blobs.Runs.Covers.{YuvSorted}
use jpl_vision.Blobs.Rows.Recolor.{Recolors, Recolor-swap, Recolors-swap, Recolors-advance}
use jpl_vision.Blobs.Rows.{Joined, behind_a, behind_b}
use jpl_vision.Blobs.Rows.Steps.{
  Known, Evolves, AllEvolve, gain, newly_trans, Overlap, OneBlob, Together, Together-cons,
  AllEvolve-YuvSorted, WithRow-apart, WithRun-apart,
}
use jpl_vision.Blobs.Rows.Round.{Space, Keeps, Round}

-- All rounds from a state on: what became of the runs `xs` and `ys`.
pub record Rounds (p : BlobList) (rep : ℕ → ℕ) (xs ys : List YuvRun) (room : ℕ) (result : Joined)
    : Type 0 where
  pub list : BlobList
  pub runs_a : List YuvRun
  pub runs_b : List YuvRun
  pub rep' : ℕ → ℕ
  pub depth : ℕ → ℕ
  pub returns : result ≡ some (list, runs_a, runs_b)
  pub forest : IsForest list rep' depth
  pub max_sets : list.max_blob_set_count ≡ p.max_blob_set_count
  pub max_roots : list.max_root_list_count ≡ p.max_root_list_count
  pub sets_from : p.used_blob_set_count ≤ list.used_blob_set_count
  pub sets_to : list.used_blob_set_count ≤ p.used_blob_set_count + room
  pub roots_to : list.used_root_list_count ≤ p.used_root_list_count + room
  pub known_a : Known list.used_blob_set_count runs_a
  pub known_b : Known list.used_blob_set_count runs_b
  pub evolve_a : AllEvolve rep' xs runs_a
  pub evolve_b : AllEvolve rep' ys runs_b
  pub keeps : Keeps p rep rep'
  pub counted :
      get_total_blob_pixel_count list
      ≡ (get_total_blob_pixel_count p + gain xs runs_a + gain ys runs_b) % u32
  pub together : Space p room → Together rep' runs_a runs_b
  pub colors : Recolors p rep xs ys list rep' runs_a runs_b

Evolves-trans :
    (q : BlobList) (mid after : ℕ → ℕ) (r s t : YuvRun)
    → Keeps q mid after
    → r.parent_index < q.used_blob_set_count
    → s.parent_index < q.used_blob_set_count
    → Evolves mid r s
    → Evolves after s t
    → Evolves after r t
Evolves-trans q mid after r s t keeps lr ls e f = (
  f.0 ∙ e.0,
  f.1 ∙ e.1,
  λ h.
      let (hs, same) = e.2 h in
      let (ht, same') = f.2 hs in (ht, same' ∙ keeps s.parent_index r.parent_index hs ls h lr same),
)

-- A round put in front of the other rounds, which moves on in the first row or in the second.
module _ {p : BlobList} {rep : ℕ → ℕ} {a b : YuvRun} {q : BlobList} {mid : ℕ → ℕ} {a' b' : YuvRun}
    (first : Round p rep a b q mid a' b') where
  -- What the first round and the later rounds make of the two runs.
  module _ (after : ℕ → ℕ) (keeps : Keeps q mid after) where
    late_a : (s : YuvRun) → Evolves after a' s → Evolves after a s
    late_a s e =
        Evolves-trans q mid after a a' s keeps (omega (arith, first.a_was, first.grown.sets_from))
          first.a_lt first.evolve_a e

    late_b : (s : YuvRun) → Evolves after b' s → Evolves after b s
    late_b s e =
        Evolves-trans q mid after b b' s keeps (omega (arith, first.b_was, first.grown.sets_from))
          first.b_lt first.evolve_b e

    late-Keeps : Keeps p rep after
    late-Keeps i j hi li hj lj w =
        keeps i j hi (omega (arith, first.grown.sets_from)) hj
          (omega (arith, first.grown.sets_from)) (first.keeps i j hi li hj lj w)

    late_one :
        (s t : YuvRun)
        → Evolves after a' s
        → Evolves after b' t
        → Space p 1
        → Overlap s t
        → OneBlob after s t
    late_one s t e f space o =
        let (ha, hb, same) =
          first.one (omega (arith, e, f, o, first.evolve_a, first.evolve_b)) space in
        (
          (e.2 ha).0,
          (f.2 hb).0,
          (e.2 ha).1
              ∙ keeps a'.parent_index b'.parent_index ha first.a_lt hb first.b_lt same
              ∙ sym (f.2 hb).1,
        )

  module _ {xs ys : List YuvRun} {room : ℕ} {result : Joined} (lo_a lo_b hi : ℕ)
      (sorted_a : YuvSorted lo_a hi (a ∷ xs)) (sorted_b : YuvSorted lo_b hi (b ∷ ys)) where
    advance_a :
        (s : YuvRun) (rs : List YuvRun)
        → (r : Rounds q mid xs (b' ∷ ys) room result) → r.runs_b ≡ s ∷ rs
        → a.run_high ≤ b.run_high + 1
        → AllEvolve r.rep' (b' ∷ ys) (s ∷ rs)
        → Known r.list.used_blob_set_count (s ∷ rs)
        → Rounds p rep (a ∷ xs) (b ∷ ys) (suc room) (behind_a a' result)
    advance_a s rs r same h e k = record {
      list = r.list;
      runs_a = a' ∷ r.runs_a;
      runs_b = s ∷ rs;
      rep' = r.rep';
      depth = r.depth;
      returns = ground (arith, r.returns, same);
      forest = r.forest;
      max_sets = r.max_sets ∙ first.grown.max_sets;
      max_roots = r.max_roots ∙ first.grown.max_roots;
      sets_from = omega (arith, r.sets_from, first.grown.sets_from);
      sets_to = omega (arith, r.sets_to, first.grown.sets_to);
      roots_to = omega (arith, r.roots_to, first.grown.roots_to);
      known_a = (omega (arith, r.sets_from, first.a_lt), r.known_a);
      known_b = k;
      evolve_a = (late_a r.rep' r.keeps a' stay, r.evolve_a);
      evolve_b = (late_b r.rep' r.keeps s e.0, e.1);
      keeps = late-Keeps r.rep' r.keeps;
      counted = omega (
        arith,
        r.counted,
        first.counted,
        ap (gain (b' ∷ ys)) same,
        newly_trans mid r.rep' b b' s first.evolve_b e.0,
      );
      together = λ space. (
        (
          late_one r.rep' r.keeps a' s stay e.0 (omega arith),
          WithRow-apart r.rep' a' (b.run_high + 1) hi rs (omega (arith, first.evolve_a))
              (AllEvolve-YuvSorted r.rep' (b.run_high + 1) hi ys rs e.1 sorted_b.3),
        ),
        rw (← same) (r.together (omega (arith, first.grown))),
      );
      colors =
          Recolors-advance p rep q mid r.list r.rep' a b a' b' xs ys r.runs_a (s ∷ rs)
            first.grown.sets_from first.a_lt first.b_lt first.evolve_a.0 first.evolve_b.0
            first.evolve_b.1 first.colors
            (subst (Recolors q mid xs (b' ∷ ys) r.list r.rep' r.runs_a) same r.colors);
    }
      where
        stay : Evolves r.rep' a' a'
        stay = (refl, refl, λ m. (m, refl))

    -- The run `a` is left behind: it ends no later than `b`.
    pub Rounds-advance_a :
        a.run_high ≤ b.run_high + 1
        → Rounds q mid xs (b' ∷ ys) room result
        → Rounds p rep (a ∷ xs) (b ∷ ys) (suc room) (behind_a a' result)
    Rounds-advance_a h r = go r.runs_b refl r.evolve_b r.known_b
      where
        go :
            (rs : List YuvRun)
            → r.runs_b ≡ rs
            → AllEvolve r.rep' (b' ∷ ys) rs
            → Known r.list.used_blob_set_count rs
            → Rounds p rep (a ∷ xs) (b ∷ ys) (suc room) (behind_a a' result)
        go [] same e k = absurd e
        go (s ∷ rs) same e k = advance_a s rs r same h e k

    advance_b :
        (s : YuvRun) (rs : List YuvRun)
        → (r : Rounds q mid (a' ∷ xs) ys room result) → r.runs_a ≡ s ∷ rs
        → b.run_high ≤ a.run_high + 1
        → AllEvolve r.rep' (a' ∷ xs) (s ∷ rs)
        → Known r.list.used_blob_set_count (s ∷ rs)
        → Rounds p rep (a ∷ xs) (b ∷ ys) (suc room) (behind_b b' result)
    advance_b s rs r same h e k = record {
      list = r.list;
      runs_a = s ∷ rs;
      runs_b = b' ∷ r.runs_b;
      rep' = r.rep';
      depth = r.depth;
      returns = ground (arith, r.returns, same);
      forest = r.forest;
      max_sets = r.max_sets ∙ first.grown.max_sets;
      max_roots = r.max_roots ∙ first.grown.max_roots;
      sets_from = omega (arith, r.sets_from, first.grown.sets_from);
      sets_to = omega (arith, r.sets_to, first.grown.sets_to);
      roots_to = omega (arith, r.roots_to, first.grown.roots_to);
      known_a = k;
      known_b = (omega (arith, r.sets_from, first.b_lt), r.known_b);
      evolve_a = (late_a r.rep' r.keeps s e.0, e.1);
      evolve_b = (late_b r.rep' r.keeps b' stay, r.evolve_b);
      keeps = late-Keeps r.rep' r.keeps;
      counted = omega (
        arith,
        r.counted,
        first.counted,
        ap (λ l. gain (a' ∷ xs) l) same,
        newly_trans mid r.rep' a a' s first.evolve_a e.0,
      );
      together = λ space.
          Together-cons r.rep' (s ∷ rs) b' r.runs_b
            (
              late_one r.rep' r.keeps s b' e.0 stay (omega arith),
              WithRun-apart r.rep' b' (a.run_high + 1) hi rs (omega (arith, first.evolve_b))
                  (AllEvolve-YuvSorted r.rep' (a.run_high + 1) hi xs rs e.1 sorted_a.3),
            )
            (subst (λ l. Together r.rep' l r.runs_b) same
              (r.together (omega (arith, first.grown))));
      colors = Recolors-swap p rep r.list r.rep' (b ∷ ys) (a ∷ xs) (b' ∷ r.runs_b) (s ∷ rs) (
          Recolors-advance p rep q mid r.list r.rep' b a b' a' ys xs r.runs_b (s ∷ rs)
            first.grown.sets_from first.b_lt first.a_lt first.evolve_b.0 first.evolve_a.0
            first.evolve_a.1 (Recolor-swap p rep q mid a b a' b' first.colors)
            (Recolors-swap q mid r.list r.rep' (a' ∷ xs) ys (s ∷ rs) r.runs_b
              (subst (λ l. Recolors q mid (a' ∷ xs) ys r.list r.rep' l r.runs_b) same r.colors)));
    }
      where
        stay : Evolves r.rep' b' b'
        stay = (refl, refl, λ m. (m, refl))

    -- The run `b` is left behind: it ends no later than `a`.
    pub Rounds-advance_b :
        b.run_high ≤ a.run_high + 1
        → Rounds q mid (a' ∷ xs) ys room result
        → Rounds p rep (a ∷ xs) (b ∷ ys) (suc room) (behind_b b' result)
    Rounds-advance_b h r = go r.runs_a refl r.evolve_a r.known_a
      where
        go :
            (rs : List YuvRun)
            → r.runs_a ≡ rs
            → AllEvolve r.rep' (a' ∷ xs) rs
            → Known r.list.used_blob_set_count rs
            → Rounds p rep (a ∷ xs) (b ∷ ys) (suc room) (behind_b b' result)
        go [] same e k = absurd e
        go (s ∷ rs) same e k = advance_b s rs r same h e k
