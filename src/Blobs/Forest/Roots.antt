-- ===== src/Blobs/Forest/Roots.antt =====
-- find_root and find_root_recursive: they end within their fuel at the representative, and change
-- nothing but parent pointers.
use jpl_vision.Common.{ℕ, zero, suc, ◌<◌, ◌≡◌, ◌≢◌, refl, inl, inr, some, arith}
use jpl_vision.Common.Memory.{Array}
use jpl_vision.Blobs.Types.{BlobList, RootInfo}
use jpl_vision.Blobs.Forest.{set_parent, find_root_recursive, find_root, with_parent}
use jpl_vision.Blobs.Forest.Valid.{IsForest, Entry, IsChild}
use jpl_vision.Blobs.Forest.Parent.{compress-IsForest}

-- `q` differs from `p` in parent pointers at most, and describes the same partition.
pub record Compressed (p : BlobList) (rep d : ℕ → ℕ) (q : BlobList) : Type 0 where
  pub forest : IsForest q rep d
  pub same_info : ◌≡◌ {A = Array RootInfo} q.root_info p.root_info
  pub same_sets : q.used_blob_set_count ≡ p.used_blob_set_count
  pub same_roots : q.used_root_list_count ≡ p.used_root_list_count
  pub same_max_sets : q.max_blob_set_count ≡ p.max_blob_set_count
  pub same_max_roots : q.max_root_list_count ≡ p.max_root_list_count
  pub same_listed : (i : ℕ) → (q.blob_set i).root_list_index ≡ (p.blob_set i).root_list_index
  pub same_children : (i : ℕ) → (p.blob_set i).parent_index ≢ i → (q.blob_set i).parent_index ≢ i

Compressed-refl : {p : BlobList} {rep d : ℕ → ℕ} → IsForest p rep d → Compressed p rep d p
Compressed-refl v = record {
  forest = v;
  same_info = refl;
  same_sets = refl;
  same_roots = refl;
  same_max_sets = refl;
  same_max_roots = refl;
  same_listed = λ i. refl;
  same_children = λ i h. h;
}

module _ (rep d : ℕ → ℕ) where
  -- set_parent of an entry that is no root, to its root.
  compress :
      (p q : BlobList)
      → Compressed p rep d q
      → (i : ℕ) → 0 < i
      → i < p.used_blob_set_count
      → (p.blob_set i).parent_index ≢ i
      → (set_parent q i (rep i) ≡ some (with_parent q i (rep i)))
        × Compressed p rep d (with_parent q i (rep i))
  unfolding set_parent
  compress p q c i h l ne = (
    ground (arith, mine, root, child, c.forest.roots_used, c.forest.max_roots),
    record {
      forest = compress-IsForest q rep d c.forest i h l' (c.same_children i ne);
      same_info = c.same_info;
      same_sets = c.same_sets;
      same_roots = c.same_roots;
      same_max_sets = c.same_max_sets;
      same_max_roots = c.same_max_roots;
      same_listed = λ j. ground (arith, c.same_listed j);
      same_children = λ j k. ground (arith, mine, c.same_children j k);
    },
  )
    where
      l' : i < q.used_blob_set_count
      l' = omega (arith, c.same_sets)

      child : Entry q rep d i
      child = c.forest.entry i h l'

      mine : IsChild q rep d i × (rep i ≢ i)
      mine = ground (arith, child, c.same_children i ne)

      root : Entry q rep d (rep i)
      root = c.forest.entry (rep i) child.rep_pos child.rep_lt

  -- What the recursion finds at `i`.
  abbrev Found : ℕ → BlobList → ℕ → Type 0
  Found fuel p i =
      (q : BlobList) × (find_root_recursive fuel p i ≡ some (rep i, q)) × Compressed p rep d q

  -- One level of the recursion, from the result for the parent.
  find_root_recursive-child :
      (fuel : ℕ) (p : BlobList) (i : ℕ)
      → 0 < i
      → i < p.used_blob_set_count
      → IsChild p rep d i
      → Found fuel p (p.blob_set i).parent_index
      → Found (suc fuel) p i
  unfolding find_root_recursive
  find_root_recursive-child fuel p i h l c (q, e, w) =
      let made = compress p q w i h l c.other in
      (with_parent q i (rep i), ground (arith, c.same, made.0), made.1)

  find_root_recursive_lem :
      (fuel : ℕ) (p : BlobList) (i : ℕ)
      → IsForest p rep d
      → 0 < i
      → i < p.used_blob_set_count
      → d i < fuel
      → Found fuel p i
  unfolding find_root_recursive
  find_root_recursive_lem zero p i v h l k = elim k [ ]
  find_root_recursive_lem (suc fuel) p i v h l k = elim (v.entry i h l).kind [
    | inl r ↦ (p, ground arith, Compressed-refl v)
    | inr c ↦ find_root_recursive-child fuel p i h l c (
        find_root_recursive_lem fuel p (p.blob_set i).parent_index v c.parent_pos c.parent_lt
          (omega (arith, c.deeper)))
  ]

  -- In a valid forest find_root fails no assert and ends: it returns the representative of the
  -- entry, and leaves a valid forest with the same representatives, root entries and counts.
  pub find_root_lem :
      (p : BlobList) (i : ℕ)
      → IsForest p rep d
      → 0 < i
      → i < p.used_blob_set_count
      → (q : BlobList) × (find_root p i ≡ some (rep i, q)) × Compressed p rep d q
  unfolding find_root
  find_root_lem p i v h l = elim (v.entry i h l).kind [
    | inl r ↦ (p, ground arith, Compressed-refl v)
    | inr c ↦ child c (
        find_root_recursive_lem p.used_blob_set_count p (p.blob_set i).parent_index v c.parent_pos
          c.parent_lt (omega (arith, (v.entry i h l).depth, c.deeper)))
  ]
    where
      child :
          IsChild p rep d i
          → Found p.used_blob_set_count p (p.blob_set i).parent_index
          → (q : BlobList) × (find_root p i ≡ some (rep i, q)) × Compressed p rep d q
      child c (q, e, w) =
          let made = compress p q w i h l c.other in
          (with_parent q i (rep i), ground (arith, c.same, made.0), made.1)
