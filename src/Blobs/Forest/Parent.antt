-- ===== src/Blobs/Forest/Parent.antt =====
-- set_parent: re-parenting a child keeps the partition, and hanging a root below another root joins
-- their two sets.
use jpl_vision.Common.{ℕ, suc, ◌-◌, ◌<◌, ◌≡◌, ◌≢◌, some, ◌==◌, if◌then◌else◌, arith}
use jpl_vision.Common.Memory.{update}
use jpl_vision.Blobs.Types.{BlobList, not_a_root}
use jpl_vision.Blobs.Stats.{stats_add}
use jpl_vision.Blobs.Forest.{set_parent, with_parent}
use jpl_vision.Blobs.Forest.Valid.{IsForest, Entry, RootEntry, IsRoot}

-- The state after a root `s` has been hung below the root `t`.
unfoldable pub joined : BlobList → ℕ → ℕ → BlobList
joined p s t =
    let prx = (p.blob_set t).root_list_index in
    let crx = (p.blob_set s).root_list_index in
    let last = p.used_root_list_count - 1 in
    let sum = stats_add (p.root_info prx).stats (p.root_info crx).stats in
    let info = update p.root_info prx (record (p.root_info prx) { stats = sum }) in
    let bx = (info last).set_index in
    let listed = update p.blob_set bx (record (p.blob_set bx) { root_list_index = crx }) in
    let unlisted = update listed s (record (listed s) { root_list_index = not_a_root }) in
    record p {
      root_info = update info crx (info last);
      used_root_list_count = last;
      blob_set = update unlisted s (record (unlisted s) { parent_index = t });
    }

module _ (p : BlobList) (s t : ℕ) where
  -- The set that the last root entry stands for: its entry moves into the place of that of `s`.
  last_set : ℕ
  last_set = (p.root_info (p.used_root_list_count - 1)).set_index

  joined-parent :
      (i : ℕ)
      → ((joined p s t).blob_set i).parent_index
        ≡ (if i == s then t else (p.blob_set i).parent_index)
  unfolding joined
  joined-parent i = ground arith

  joined-root :
      (i : ℕ)
      → ((joined p s t).blob_set i).root_list_index ≡ (
          if i == s
          then not_a_root
          else (if i == last_set
              then (p.blob_set s).root_list_index
              else (p.blob_set i).root_list_index))
  unfolding joined last_set
  joined-root i = ground arith

  joined-set :
      (r : ℕ)
      → ((joined p s t).root_info r).set_index
        ≡ (if r == (p.blob_set s).root_list_index then last_set else (p.root_info r).set_index)
  unfolding joined last_set
  joined-set r = ground arith

  pub joined-counts :
      ((joined p s t).used_blob_set_count ≡ p.used_blob_set_count)
      × ((joined p s t).used_root_list_count ≡ p.used_root_list_count - 1)
      × ((joined p s t).max_blob_set_count ≡ p.max_blob_set_count)
      × ((joined p s t).max_root_list_count ≡ p.max_root_list_count)
  unfolding joined
  joined-counts = ground arith

-- The representatives and depths after the join.
abbrev pub rep_joined : (ℕ → ℕ) → ℕ → ℕ → ℕ → ℕ
rep_joined rep s t i = if rep i == s then t else rep i

abbrev pub depth_joined : (ℕ → ℕ) → (ℕ → ℕ) → ℕ → ℕ → ℕ
depth_joined rep d s i = if rep i == s then suc (d i) else d i

module _ (p : BlobList) (rep d : ℕ → ℕ) (v : IsForest p rep d) where
  -- Path compression: an entry that is no root may be hung below its root.
  pub compress-IsForest :
      (i : ℕ)
      → 0 < i
      → i < p.used_blob_set_count
      → (p.blob_set i).parent_index ≢ i
      → IsForest (with_parent p i (rep i)) rep d
  compress-IsForest i h l ne = record {
    zero_self = ground (arith, v.zero_self);
    zero_unlisted = ground (arith, v.zero_unlisted);
    max_sets = v.max_sets;
    max_roots = v.max_roots;
    sets_used = v.sets_used;
    roots_used = v.roots_used;
    roots_lt = v.roots_lt;
    entry = λ j a b. ground (arith, v.entry i h l, v.entry j a b, v.entry (rep i));
    root_entry = λ r a. ground (arith, v.root_entry r a);
  }

module _ (p : BlobList) (rep d : ℕ → ℕ) (v : IsForest p rep d) (s t : ℕ) (s_pos : 0 < s)
    (s_lt : s < p.used_blob_set_count) (s_root : (p.blob_set s).parent_index ≡ s) (t_pos : 0 < t)
    (t_lt : t < p.used_blob_set_count) (t_root : (p.blob_set t).parent_index ≡ t) (ne : s ≢ t) where
  -- The entries of the two roots and of the set whose root entry moves.
  record Roots : Type 0 where
    child : IsRoot p rep d s
    parent : IsRoot p rep d t
    moved : RootEntry p rep d (p.used_root_list_count - 1)
    moved_entry : Entry p rep d (last_set p s t)
    counts :
        ((joined p s t).used_blob_set_count ≡ p.used_blob_set_count)
        × ((joined p s t).used_root_list_count ≡ p.used_root_list_count - 1)

  roots : Roots
  unfolding last_set
  roots = record {
    child = child;
    parent = ground (arith, v.entry t t_pos t_lt, t_root);
    moved = moved;
    moved_entry = v.entry _ moved.set_pos moved.set_lt;
    counts = ground (arith, joined-counts p s t);
  }
    where
      child : IsRoot p rep d s
      child = ground (arith, v.entry s s_pos s_lt, s_root)

      moved : RootEntry p rep d (p.used_root_list_count - 1)
      moved = v.root_entry (p.used_root_list_count - 1) (omega (arith, child.listed))

  joined-Entry :
      (j : ℕ)
      → 0 < j
      → j < p.used_blob_set_count
      → Entry (joined p s t) (rep_joined rep s t) (depth_joined rep d s) j
  unfolding last_set
  joined-Entry j a b = ground (
    arith,
    roots,
    v.entry j a b,
    v.entry t t_pos t_lt,
    joined-parent p s t j,
    joined-parent p s t (rep j),
    joined-parent p s t t,
    joined-root p s t j,
    joined-set p s t ((joined p s t).blob_set j).root_list_index,
    v.roots_lt,
  )

  joined-RootEntry :
      (r : ℕ)
      → r < p.used_root_list_count - 1
      → RootEntry (joined p s t) (rep_joined rep s t) (depth_joined rep d s) r
  unfolding last_set
  joined-RootEntry r a = ground (
    arith,
    roots,
    v.root_entry r (omega arith),
    joined-set p s t r,
    joined-root p s t ((joined p s t).root_info r).set_index,
  )

  -- Hanging the root `s` below the root `t` keeps the invariant, and every entry whose root was `s`
  -- now has the root `t`.
  pub joined-IsForest : IsForest (joined p s t) (rep_joined rep s t) (depth_joined rep d s)
  joined-IsForest = record {
    zero_self = ground (arith, v.zero_self, joined-parent p s t 0);
    zero_unlisted = ground (arith, roots, v.zero_unlisted, joined-root p s t 0);
    max_sets = omega (arith, v.max_sets, counts);
    max_roots = omega (arith, v.max_roots, counts);
    sets_used = omega (arith, v.sets_used, counts);
    roots_used = omega (arith, v.roots_used, counts);
    roots_lt = omega (arith, v.roots_lt, counts);
    entry = λ j a b. joined-Entry j a (omega (arith, counts));
    root_entry = λ r a. joined-RootEntry r (omega (arith, counts));
  }
    where
      counts :
          ((joined p s t).used_blob_set_count ≡ p.used_blob_set_count)
          × ((joined p s t).used_root_list_count ≡ p.used_root_list_count - 1)
          × ((joined p s t).max_blob_set_count ≡ p.max_blob_set_count)
          × ((joined p s t).max_root_list_count ≡ p.max_root_list_count)
      counts = joined-counts p s t

  pub set_parent-root : set_parent p s t ≡ some (joined p s t)
  unfolding set_parent joined
  set_parent-root = ground (arith, roots, v.roots_used, v.max_roots)

  -- Of two different roots of a valid list, set_parent fails no assert and hangs the child below the
  -- new parent: the list is valid, it has one root less, and every entry whose root was the child now
  -- has the root of the new parent.
  pub set_parent_lem :
      (q : BlobList) × (set_parent p s t ≡ some q)
      × IsForest q (rep_joined rep s t) (depth_joined rep d s)
      × (q.used_root_list_count ≡ p.used_root_list_count - 1)
  set_parent_lem = (joined p s t, set_parent-root, joined-IsForest, (joined-counts p s t).1)
