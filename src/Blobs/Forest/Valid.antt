-- ===== src/Blobs/Forest/Valid.antt =====
-- The invariant of a Blob_List: the forest and the dense root list point at one another. `rep i` is
-- the root of entry `i`, and `d i` bounds the length of its path to it.
use jpl_vision.Common.{ℕ, ◌+◌, ◌≤◌, ◌<◌, ◌≡◌, ◌≢◌, ◌⊎◌, max, arith}
use jpl_vision.Blobs.Types.{BlobList, not_a_root, u16}

module _ (p : BlobList) (rep d : ℕ → ℕ) where
  pub record IsRoot (i : ℕ) : Type 0 where
    pub self : (p.blob_set i).parent_index ≡ i
    pub own : rep i ≡ i
    pub top : d i ≡ 0
    pub listed : (p.blob_set i).root_list_index < p.used_root_list_count
    pub back : (p.root_info (p.blob_set i).root_list_index).set_index ≡ i

  pub record IsChild (i : ℕ) : Type 0 where
    pub other : (p.blob_set i).parent_index ≢ i
    pub parent_pos : 0 < (p.blob_set i).parent_index
    pub parent_lt : (p.blob_set i).parent_index < p.used_blob_set_count
    pub same : rep (p.blob_set i).parent_index ≡ rep i
    pub deeper : d (p.blob_set i).parent_index < d i
    pub unlisted : (p.blob_set i).root_list_index ≡ not_a_root

  pub record Entry (i : ℕ) : Type 0 where
    pub kind : IsRoot i ⊎ IsChild i
    pub rep_pos : 0 < rep i
    pub rep_lt : rep i < p.used_blob_set_count
    pub rep_self : (p.blob_set (rep i)).parent_index ≡ rep i
    pub depth : d i + p.used_root_list_count < p.used_blob_set_count

  pub record RootEntry (r : ℕ) : Type 0 where
    pub set_pos : 0 < (p.root_info r).set_index
    pub set_lt : (p.root_info r).set_index < p.used_blob_set_count
    pub forth : (p.blob_set (p.root_info r).set_index).root_list_index ≡ r

  pub record IsForest : Type 0 where
    pub zero_self : (p.blob_set 0).parent_index ≡ 0
    pub zero_unlisted : (p.blob_set 0).root_list_index ≡ not_a_root
    pub max_sets : p.max_blob_set_count < u16
    pub max_roots : p.max_root_list_count < u16
    pub sets_used : p.used_blob_set_count ≤ max 1 p.max_blob_set_count
    pub roots_used : p.used_root_list_count ≤ p.max_root_list_count
    pub roots_lt : p.used_root_list_count < p.used_blob_set_count
    pub entry : (i : ℕ) → 0 < i → i < p.used_blob_set_count → Entry i
    pub root_entry : (r : ℕ) → r < p.used_root_list_count → RootEntry r

-- The representative of an entry is a root with a root entry.
pub rep-IsRoot :
    (p : BlobList) (rep d : ℕ → ℕ)
    → IsForest p rep d
    → (i : ℕ) → 0 < i
    → i < p.used_blob_set_count
    → IsRoot p rep d (rep i) × ((p.blob_set (rep i)).root_list_index ≢ not_a_root)
rep-IsRoot p rep d v i h l =
    ground (arith, own, v.entry (rep i) own.rep_pos own.rep_lt, v.roots_used, v.max_roots)
  where
    own : Entry p rep d i
    own = v.entry i h l
