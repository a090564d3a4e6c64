-- ===== src/Blobs/Types.antt =====
-- The data types of detect_color_blobs.h and detect_color_blobs.c. An array is a function from
-- indices; `none` is where C would stop at a failed assert.
use jpl_vision.Common.{ℕ, ◌^◌}
use jpl_vision.Common.Memory.{Array}

-- `unsigned short`, and `unsigned int` and `unsigned long` on the 32-bit Raspberry Pi.
abbrev pub u16 : ℕ
u16 = 2 ^ 16

abbrev pub u32 : ℕ
u32 = 2 ^ 32

-- NOT_A_ROOT_LIST_INDEX, USHRT_MAX
abbrev pub not_a_root : ℕ
not_a_root = 65535

pub record BlobStats : Type 0 where
  pub min_x : ℕ
  pub max_x : ℕ
  pub min_y : ℕ
  pub max_y : ℕ
  pub sum_x : ℕ
  pub sum_y : ℕ
  pub count : ℕ

pub record BlobSetEntry : Type 0 where
  pub parent_index : ℕ
  pub root_list_index : ℕ
  pub rank : ℕ

pub record RootInfo : Type 0 where
  pub stats : BlobStats
  pub set_index : ℕ

pub record BlobList : Type 0 where
  pub blob_set : Array BlobSetEntry
  pub max_blob_set_count : ℕ
  pub used_blob_set_count : ℕ
  pub root_info : Array RootInfo
  pub max_root_list_count : ℕ
  pub used_root_list_count : ℕ

pub record UvRun : Type 0 where
  pub run_low : ℕ
  pub run_high : ℕ

pub record YuvRun : Type 0 where
  pub parent_index : ℕ
  pub run_low : ℕ
  pub run_high : ℕ
