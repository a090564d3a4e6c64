-- ===== src/Blobs/Store.antt =====
-- blob_list_init and blob_list_clear of detect_color_blobs.c. What malloc returns is an argument:
-- `none` for NULL. The result is `none` where the code writes through a null pointer.
pub mod Valid
mod Tests
use jpl_vision.Common.{
  ℕ, ◌+◌, ◌%◌, Bool, true, false, ◌||◌, ◌>>=◌, Option, none, some, if◌then◌else◌,
}
use jpl_vision.Common.Memory.{Array, update}
use jpl_vision.Blobs.Types.{BlobList, BlobSetEntry, RootInfo, u16, not_a_root}

pub blob_list_clear : BlobList → BlobList
blob_list_clear p = record p {
  used_blob_set_count = 1;
  used_root_list_count = 0;
  blob_set =
      update p.blob_set 0 (record { parent_index = 0; root_list_index = not_a_root; rank = 0 });
}

-- A Blob_List with pointers that can be NULL, as blob_list_init has it.
pub record Allocated : Type 0 where
  pub blob_set : Option (Array BlobSetEntry)
  pub max_blob_set_count : ℕ
  pub used_blob_set_count : ℕ
  pub root_info : Option (Array RootInfo)
  pub max_root_list_count : ℕ
  pub used_root_list_count : ℕ

pub is_null : {A : Type 0} → Option A → Bool
is_null none = true
is_null (some a) = false

-- What follows a failed malloc: both arrays are freed.
pub release : Allocated → Allocated
release bl = record bl {
  blob_set = none;
  max_blob_set_count = 0;
  root_info = none;
  max_root_list_count = 0;
}

-- blob_list_clear through the pointers.
pub blob_list_clear_allocated : Allocated → Option Allocated
blob_list_clear_allocated p = p.blob_set >>= λ blob_set. some (record p {
  used_blob_set_count = 1;
  used_root_list_count = 0;
  blob_set =
      some
        (update blob_set 0 (record { parent_index = 0; root_list_index = not_a_root; rank = 0 }));
})

-- `bl` is what the variable holds before the first assignment to it.
pub blob_list_init :
    Allocated → Option (Array BlobSetEntry) → Option (Array RootInfo) → ℕ → ℕ → Option Allocated
unfolding blob_list_clear_allocated release is_null
blob_list_init bl blob_set root_info max_runs max_blobs =
    let filled : Allocated = record bl {
      blob_set = blob_set;
      max_blob_set_count = (max_runs + 1) % u16;
      root_info = root_info;
      max_root_list_count = max_blobs;
    } in
    blob_list_clear_allocated
      (if is_null filled.blob_set || is_null filled.root_info then release filled else filled)
