-- ===== src/Blobs/Forest/Joins.antt =====
-- link and make_set: what they do to the partition.
use jpl_vision.Common.{
  ℕ, ◌+◌, ◌-◌, ◌%◌, ◌≤◌, ◌<◌, ◌≡◌, ◌≢◌, refl, sym, ◌⊎◌, inl, inr, some, ◌==◌, ltb, if◌then◌else◌,
  Bool-cases, arith,
}
use jpl_vision.Common.Memory.{update}
use jpl_vision.Blobs.Types.{BlobList, YuvRun, u16}
use jpl_vision.Blobs.Stats.{stats_init}
use jpl_vision.Blobs.Forest.{make_set, set_parent, link, with_rank, with_root, with_set, with_stats}
use jpl_vision.Blobs.Forest.Valid.{IsForest}
use jpl_vision.Blobs.Forest.Parent.{
  joined, rep_joined, depth_joined, joined-IsForest, joined-counts, set_parent-root,
}

-- Ranks do not matter for the invariant.
with_rank-IsForest :
    (p : BlobList) (rep d : ℕ → ℕ) (t k : ℕ) → IsForest p rep d → IsForest (with_rank p t k) rep d
with_rank-IsForest p rep d t k v = record {
  zero_self = ground (arith, v.zero_self);
  zero_unlisted = ground (arith, v.zero_unlisted);
  max_sets = v.max_sets;
  max_roots = v.max_roots;
  sets_used = v.sets_used;
  roots_used = v.roots_used;
  roots_lt = v.roots_lt;
  entry = λ j a b. ground (arith, v.entry j a b);
  root_entry = λ r a. ground (arith, v.root_entry r a);
}

-- The root `child` was hung below the root `root` in a state that differs from `p` in ranks at most.
pub record Linked (p : BlobList) (rep d : ℕ → ℕ) (child root : ℕ) (q : BlobList) : Type 0 where
  pub forest : IsForest q (rep_joined rep child root) (depth_joined rep d child)
  pub same_sets : q.used_blob_set_count ≡ p.used_blob_set_count
  pub fewer_roots : q.used_root_list_count ≡ p.used_root_list_count - 1
  pub same_max_sets : q.max_blob_set_count ≡ p.max_blob_set_count
  pub same_max_roots : q.max_root_list_count ≡ p.max_root_list_count
  pub rank : ℕ
  pub state : (q ≡ joined p child root) ⊎ (q ≡ joined (with_rank p root rank) child root)

-- The two roots that are to be linked.
pub record Distinct (p : BlobList) (s t : ℕ) : Type 0 where
  pub s_pos : 0 < s
  pub s_lt : s < p.used_blob_set_count
  pub s_root : (p.blob_set s).parent_index ≡ s
  pub t_pos : 0 < t
  pub t_lt : t < p.used_blob_set_count
  pub t_root : (p.blob_set t).parent_index ≡ t
  pub ne : s ≢ t

module _ (p : BlobList) (rep d : ℕ → ℕ) (v : IsForest p rep d) (s t : ℕ) (w : Distinct p s t) where
  open w use {s_pos, s_lt, s_root, t_pos, t_lt, t_root, ne}

  -- Hanging `s` below `t`, with a new rank for `t`.
  below_t : (k : ℕ) → Linked p rep d s t (joined (with_rank p t k) s t)
  below_t k = record {
    forest =
        joined-IsForest (with_rank p t k) rep d (with_rank-IsForest p rep d t k v) s t s_pos s_lt
          (ground arith) t_pos t_lt (ground arith) ne;
    same_sets = omega (arith, joined-counts (with_rank p t k) s t);
    fewer_roots = omega (arith, joined-counts (with_rank p t k) s t);
    same_max_sets = omega (arith, joined-counts (with_rank p t k) s t);
    same_max_roots = omega (arith, joined-counts (with_rank p t k) s t);
    rank = k;
    state = inr refl;
  }

  below_t_plain : Linked p rep d s t (joined p s t)
  below_t_plain = record {
    forest = joined-IsForest p rep d v s t s_pos s_lt s_root t_pos t_lt t_root ne;
    same_sets = omega (arith, joined-counts p s t);
    fewer_roots = omega (arith, joined-counts p s t);
    same_max_sets = omega (arith, joined-counts p s t);
    same_max_roots = omega (arith, joined-counts p s t);
    rank = 0;
    state = inl refl;
  }

  below_s : Linked p rep d t s (joined p t s)
  below_s = record {
    forest = joined-IsForest p rep d v t s t_pos t_lt t_root s_pos s_lt s_root (λ e. ne (sym e));
    same_sets = omega (arith, joined-counts p t s);
    fewer_roots = omega (arith, joined-counts p t s);
    same_max_sets = omega (arith, joined-counts p t s);
    same_max_roots = omega (arith, joined-counts p t s);
    rank = 0;
    state = inl refl;
  }

  set_parent-ranked :
      (k : ℕ) → set_parent (with_rank p t k) s t ≡ some (joined (with_rank p t k) s t)
  set_parent-ranked k =
      set_parent-root (with_rank p t k) rep d (with_rank-IsForest p rep d t k v) s t s_pos s_lt
        (ground arith) t_pos t_lt (ground arith) ne

  -- Of two different roots in a valid forest link fails no assert, and returns one of them: the
  -- other one is now below it, with all entries whose root it was, and all others keep their roots.
  pub link_lem :
      (q : BlobList) × ((link p s t ≡ some (t, q)) × Linked p rep d s t q
        ⊎ (link p s t ≡ some (s, q)) × Linked p rep d t s q)
  unfolding link
  link_lem = elim (Bool-cases (ltb t_rank s_rank)) [
    | inl higher ↦ (
      joined p t s,
      inr (
        ground (
          arith,
          set_parent-root p rep d v t s t_pos t_lt t_root s_pos s_lt s_root (λ e. ne (sym e)),
        ),
        below_s,
      ),
    )
    | inr lower ↦ elim (Bool-cases (s_rank == t_rank)) [
      | inl same ↦ (
        joined (with_rank p t ((t_rank + 1) % u16)) s t,
        inl (ground (arith, set_parent-ranked ((t_rank + 1) % u16)), below_t ((t_rank + 1) % u16)),
      )
      | inr other ↦ (
        joined p s t,
        inl (
          ground (arith, set_parent-root p rep d v s t s_pos s_lt s_root t_pos t_lt t_root ne),
          below_t_plain,
        ),
      )
    ]
  ]
    where
      s_rank : ℕ
      s_rank = (p.blob_set s).rank

      t_rank : ℕ
      t_rank = (p.blob_set t).rank

-- The state after make_set with space: a new entry, which is its own root and has the next root
-- entry.
unfoldable pub added : BlobList → YuvRun → ℕ → BlobList
added p run row =
    let bx = p.used_blob_set_count in
    let rx = p.used_root_list_count in
    let fresh = record p {
      used_blob_set_count = bx + 1;
      blob_set = update p.blob_set bx (record (p.blob_set bx) { parent_index = bx; rank = 0 });
      used_root_list_count = rx + 1;
    } in
    with_stats (with_root (with_set fresh rx bx) bx rx) rx
      (stats_init (row % u16) run.run_low run.run_high)

abbrev pub rep_added : BlobList → (ℕ → ℕ) → ℕ → ℕ
rep_added p rep i = if i == p.used_blob_set_count then i else rep i

abbrev pub depth_added : BlobList → (ℕ → ℕ) → ℕ → ℕ
depth_added p d i = if i == p.used_blob_set_count then 0 else d i

module _ (p : BlobList) (rep d : ℕ → ℕ) (v : IsForest p rep d) (run : YuvRun) (row : ℕ) where
  -- Without space for an entry or for a root, make_set changes nothing and returns 0.
  pub make_set-full :
      ((p.max_blob_set_count ≤ p.used_blob_set_count)
        ⊎ (p.max_root_list_count ≤ p.used_root_list_count))
      → make_set p run row ≡ some (0, p)
  unfolding make_set
  make_set-full h = ground arith

  -- With space for both, it fails no assert, and returns the index of a new entry, which is its own
  -- root.
  pub make_set-added :
      p.used_blob_set_count < p.max_blob_set_count
      → p.used_root_list_count < p.max_root_list_count
      → (make_set p run row ≡ some (p.used_blob_set_count, added p run row))
        × IsForest (added p run row) (rep_added p rep) (depth_added p d)
  unfolding make_set added
  make_set-added h k = (
    made,
    record {
      zero_self = ground (arith, v.zero_self, v.roots_lt);
      zero_unlisted = ground (arith, v.zero_unlisted, v.roots_lt);
      max_sets = v.max_sets;
      max_roots = v.max_roots;
      sets_used = omega arith;
      roots_used = omega arith;
      roots_lt = omega (arith, v.roots_lt);
      entry = λ j a b. ground (arith, v.entry j a, v.roots_lt);
      root_entry = λ r a. ground (arith, v.root_entry r, v.roots_lt);
    },
  )
    where
      sets : (p.used_blob_set_count + 1) % u16 ≡ p.used_blob_set_count + 1
      sets = omega (arith, v.max_sets)

      roots : (p.used_root_list_count + 1) % u16 ≡ p.used_root_list_count + 1
      roots = omega (arith, v.max_roots)

      made : make_set p run row ≡ some (p.used_blob_set_count, added p run row)
      made = ground (arith, sets, roots)
