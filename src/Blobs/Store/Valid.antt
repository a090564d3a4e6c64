-- ===== src/Blobs/Store/Valid.antt =====
-- A cleared list is valid and empty, and what blob_list_init gives.
use jpl_vision.Common.{◌<◌, ◌≡◌, refl, some, arith}
use jpl_vision.Blobs.Types.{BlobList, u16}
use jpl_vision.Blobs.Forest.Valid.{IsForest}
use jpl_vision.Blobs.Store.{Allocated, blob_list_clear}

-- Whatever the list held, blob_list_clear leaves a valid list with the reserved entry only.
pub blob_list_clear-IsForest :
    (p : BlobList)
    → p.max_blob_set_count < u16
    → p.max_root_list_count < u16
    → IsForest (blob_list_clear p) (λ i. i) (λ i. 0)
unfolding blob_list_clear
blob_list_clear-IsForest p h k = record {
  zero_self = refl;
  zero_unlisted = refl;
  max_sets = h;
  max_roots = k;
  sets_used = omega arith;
  roots_used = omega arith;
  roots_lt = omega arith;
  entry = λ i a b. absurd (omega arith);
  root_entry = λ r a. absurd (omega arith);
}

pub blob_list_clear-limits :
    (p : BlobList)
    → ((blob_list_clear p).max_blob_set_count ≡ p.max_blob_set_count)
      × ((blob_list_clear p).max_root_list_count ≡ p.max_root_list_count)
unfolding blob_list_clear
blob_list_clear-limits p = (refl, refl)

pub blob_list_clear-used :
    (p : BlobList)
    → ((blob_list_clear p).used_blob_set_count ≡ 1) × ((blob_list_clear p).used_root_list_count ≡ 0)
unfolding blob_list_clear
blob_list_clear-used p = (refl, refl)

-- A list with both pointers set.
abbrev pub allocated : BlobList → Allocated
allocated p = record {
  blob_set = some p.blob_set;
  max_blob_set_count = p.max_blob_set_count;
  used_blob_set_count = p.used_blob_set_count;
  root_info = some p.root_info;
  max_root_list_count = p.max_root_list_count;
  used_root_list_count = p.used_root_list_count;
}
