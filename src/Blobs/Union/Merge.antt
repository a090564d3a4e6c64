-- ===== src/Blobs/Union/Merge.antt =====
-- merge: the blobs of two runs become one.
use jpl_vision.Common.{ℕ, ◌<◌, ◌≡◌, ◌≢◌, refl, sym, ◌∙◌, ◌⊎◌, inl, inr, some, arith, ℕ_discrete}
use jpl_vision.Blobs.Types.{BlobList, YuvRun}
use jpl_vision.Blobs.Total.{get_total_blob_pixel_count}
use jpl_vision.Blobs.Total.Changes.{total-sum}
use jpl_vision.Blobs.Forest.{find_root, link}
use jpl_vision.Blobs.Forest.Valid.{IsForest, Entry, IsRoot, rep-IsRoot}
use jpl_vision.Blobs.Forest.Parent.{rep_joined, depth_joined}
use jpl_vision.Blobs.Forest.Roots.{Compressed, find_root_lem}
use jpl_vision.Blobs.Forest.Joins.{Linked, Distinct, link_lem}
use jpl_vision.Blobs.Forest.Totals.{total-congr, total-Linked}
use jpl_vision.Blobs.Union.{labelled, merge}
use jpl_vision.Blobs.Union.Spec.{Outcome, InBlob}

Compressed-trans :
    {p q r : BlobList} {rep d : ℕ → ℕ}
    → Compressed p rep d q
    → Compressed q rep d r
    → Compressed p rep d r
Compressed-trans c e = record {
  forest = e.forest;
  same_info = e.same_info ∙ c.same_info;
  same_sets = e.same_sets ∙ c.same_sets;
  same_roots = e.same_roots ∙ c.same_roots;
  same_max_sets = e.same_max_sets ∙ c.same_max_sets;
  same_max_roots = e.same_max_roots ∙ c.same_max_roots;
  same_listed = λ i. e.same_listed i ∙ c.same_listed i;
  same_children = λ i h. e.same_children i (c.same_children i h);
}

module _ (p : BlobList) (rep d : ℕ → ℕ) (v : IsForest p rep d) (a b : YuvRun)
    (ha : 0 < a.parent_index) (la : a.parent_index < p.used_blob_set_count)
    (hb : 0 < b.parent_index) (lb : b.parent_index < p.used_blob_set_count) where
  a_root : ℕ
  a_root = rep a.parent_index

  b_root : ℕ
  b_root = rep b.parent_index

  -- The two searches leave a forest with the same partition.
  record Searched : Type 0 where
    mid : BlobList
    list : BlobList
    first : find_root p a.parent_index ≡ some (a_root, mid)
    second : find_root mid b.parent_index ≡ some (b_root, list)
    same : Compressed p rep d list

  searched : Searched
  unfolding a_root b_root
  searched = go (find_root_lem rep d p a.parent_index v ha la)
    where
      go :
          (q : BlobList) × (find_root p a.parent_index ≡ some (a_root, q)) × Compressed p rep d q
          → Searched
      go (q, e, c) =
          let found =
            find_root_lem rep d q b.parent_index c.forest hb (omega (arith, c.same_sets)) in
          record {
            mid = q;
            list = found.0;
            first = e;
            second = found.1;
            same = Compressed-trans c found.2;
          }

  -- Both runs were in one blob already: the runs stay as they are.
  merge-same : (s : Searched) → a_root ≡ b_root → Outcome p rep a b (merge p a b)
  unfolding merge a_root b_root
  merge-same s e = record {
    list = s.list;
    run_a = a;
    run_b = b;
    rep' = rep;
    depth = d;
    returns = ground (arith, s.first, s.second);
    forest = s.same.forest;
    united = record {
      grown =
          omega (
            arith, s.same.same_sets, s.same.same_roots, s.same.same_max_sets, s.same.same_max_roots,
          );
      a_low = refl;
      a_high = refl;
      b_low = refl;
      b_high = refl;
      a_lt = omega (arith, s.same.same_sets);
      b_lt = omega (arith, s.same.same_sets);
      together = inl (ha, hb, e);
      counted =
          ground (arith, total-congr p s.list s.same.same_info s.same.same_roots, total-sum p);
      takes_a = λ i m n w. w.same;
      takes_b = λ i m n w. w.same;
      others = λ i m n na nb. refl;
      apart = λ i m n na nb pa e. na (record { has = ha; same = e });
      fresh = λ i m n. absurd (omega (arith, m, n, s.same.same_sets));
    };
  }

  roots-IsRoot : (s : Searched) → IsRoot s.list rep d a_root × IsRoot s.list rep d b_root
  unfolding a_root b_root
  roots-IsRoot s = (
    (rep-IsRoot s.list rep d s.same.forest a.parent_index ha (omega (arith, s.same.same_sets))).0,
    (rep-IsRoot s.list rep d s.same.forest b.parent_index hb (omega (arith, s.same.same_sets))).0,
  )

  -- One of the two roots, `child`, was linked below the other.
  merge-Linked :
      (s : Searched) (q : BlobList) (child root : ℕ)
      → a_root ≢ b_root
      → (child ≡ a_root) × (root ≡ b_root) ⊎ (child ≡ b_root) × (root ≡ a_root)
      → link s.list a_root b_root ≡ some (root, q)
      → Linked s.list rep d child root q
      → Outcome p rep a b (merge p a b)
  unfolding merge a_root b_root
  merge-Linked s q child root ne which e l = record {
    list = q;
    run_a = labelled a root;
    run_b = labelled b root;
    rep' = rep_joined rep child root;
    depth = depth_joined rep d child;
    returns = ground (arith, s.first, s.second, e);
    forest = l.forest;
    united = record {
      grown = omega (
        arith, l.same_sets, l.fewer_roots, l.same_max_sets, l.same_max_roots, s.same.same_sets,
        s.same.same_roots, s.same.same_max_sets, s.same.same_max_roots,
      );
      a_low = refl;
      a_high = refl;
      b_low = refl;
      b_high = refl;
      a_lt = ground (arith, bounds, l.same_sets, s.same.same_sets, which);
      b_lt = ground (arith, bounds, l.same_sets, s.same.same_sets, which);
      together = inl (ground (arith, bounds, which), ground (arith, bounds, which), refl);
      counted =
          ground
            (arith, total, total-congr p s.list s.same.same_info s.same.same_roots, total-sum p);
      takes_a = λ i m n w. ground (arith, w.same, which, own);
      takes_b = λ i m n w. ground (arith, w.same, which, own);
      others = λ i m n na nb. ground (arith, which, outside i na, outside' i nb);
      apart =
          λ i m n na nb pa e. absurd (ground (arith, which, outside i na, outside' i nb, own, e));
      fresh = λ i m n. absurd (omega (arith, m, n, s.same.same_sets, l.same_sets));
    };
  }
    where
      bounds : Entry p rep d a.parent_index × Entry p rep d b.parent_index
      bounds = (v.entry a.parent_index ha la, v.entry b.parent_index hb lb)

      own : (rep a_root ≡ a_root) × (rep b_root ≡ b_root)
      own = ((roots-IsRoot s).0.own, (roots-IsRoot s).1.own)

      outside : (i : ℕ) → ¬ InBlob rep a i → rep i ≢ a_root
      outside i na k = na (record { has = ha; same = k })

      outside' : (i : ℕ) → ¬ InBlob rep b i → rep i ≢ b_root
      outside' i nb k = nb (record { has = hb; same = k })

      total : get_total_blob_pixel_count q ≡ get_total_blob_pixel_count s.list
      total = elim which [
        | inl (x, y) ↦
            total-Linked s.list rep d child root (rw x (roots-IsRoot s).0) (rw y (roots-IsRoot s).1)
              (rw (x, y) ne) l
        | inr (x, y) ↦
            total-Linked s.list rep d child root (rw x (roots-IsRoot s).1) (rw y (roots-IsRoot s).0)
              (rw (x, y) (λ z. ne (sym z))) l
      ]

  distinct : (s : Searched) → a_root ≢ b_root → Distinct s.list a_root b_root
  unfolding a_root b_root
  distinct s ne = record {
    s_pos = (v.entry a.parent_index ha la).rep_pos;
    s_lt = omega (arith, (v.entry a.parent_index ha la).rep_lt, s.same.same_sets);
    s_root = (roots-IsRoot s).0.self;
    t_pos = (v.entry b.parent_index hb lb).rep_pos;
    t_lt = omega (arith, (v.entry b.parent_index hb lb).rep_lt, s.same.same_sets);
    t_root = (roots-IsRoot s).1.self;
    ne = ne;
  }

  -- Two runs with blobs: afterwards they are in one blob.
  pub merge-Outcome : Outcome p rep a b (merge p a b)
  merge-Outcome = elim (ℕ_discrete a_root b_root) [
    | yes e ↦ merge-same searched e
    | no ne ↦ linked searched ne
  ]
    where
      linked : Searched → a_root ≢ b_root → Outcome p rep a b (merge p a b)
      linked s ne =
          let (q, done) = link_lem s.list rep d s.same.forest a_root b_root (distinct s ne) in
          elim done [
            | inl (e, l) ↦ merge-Linked s q a_root b_root ne (inl (refl, refl)) e l
            | inr (e, l) ↦ merge-Linked s q b_root a_root ne (inr (refl, refl)) e l
          ]
