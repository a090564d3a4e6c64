-- ===== src/Blobs/Forest/Tests.antt =====
-- The forest operations on a list of four entries: 1 is the root of 2, which is the parent of 3, and
-- 4 is a root of its own.
use jpl_vision.Common.{ℕ, ◌+◌, ◌*◌, ◌≡◌, ◌⊎◌, refl, some, ◌==◌, if◌then◌else◌, arith}
use jpl_vision.Blobs.Types.{BlobList, BlobStats, YuvRun, not_a_root}
use jpl_vision.Blobs.Forest.{find_root, link}
use jpl_vision.Blobs.Forest.Valid.{IsForest}
use jpl_vision.Blobs.Forest.Roots.{Compressed, find_root_lem}
use jpl_vision.Blobs.Forest.Joins.{Linked, Distinct, link_lem}

abbrev pub some_stats : ℕ → BlobStats
some_stats n = record {
  min_x = 2;
  max_x = n + 1;
  min_y = 3;
  max_y = 5;
  sum_x = 40;
  sum_y = 30;
  count = n;
}

abbrev pub four_entries : BlobList
four_entries = record {
  blob_set = λ i. record {
    parent_index = if i == 2 then 1 else if i == 3 then 2 else i;
    root_list_index = if i == 1 then 0 else if i == 4 then 1 else not_a_root;
    rank = if i == 1 then 1 else 0;
  };
  max_blob_set_count = 10;
  used_blob_set_count = 5;
  root_info = λ r. record { stats = some_stats (6 * (r + 1)); set_index = r * 3 + 1 };
  max_root_list_count = 6;
  used_root_list_count = 2;
}

abbrev pub four_reps : ℕ → ℕ
four_reps i = if i == 4 then 4 else 1

abbrev pub four_depths : ℕ → ℕ
four_depths i = if i == 3 then 2 else if i == 2 then 1 else 0

pub four_entries-IsForest : IsForest four_entries four_reps four_depths
four_entries-IsForest = record {
  zero_self = refl;
  zero_unlisted = refl;
  max_sets = omega arith;
  max_roots = omega arith;
  sets_used = omega arith;
  roots_used = omega arith;
  roots_lt = omega arith;
  entry = λ i a b. ground arith;
  root_entry = λ r a. ground arith;
}

abbrev pub fresh_run : YuvRun
fresh_run = record { parent_index = 0; run_low = 3; run_high = 9 }

roots_1_4 : Distinct four_entries 1 4
roots_1_4 = record {
  s_pos = omega arith;
  s_lt = omega arith;
  s_root = refl;
  t_pos = omega arith;
  t_lt = omega arith;
  t_root = refl;
  ne = λ e. omega arith;
}

link_lem_example :
    (q : BlobList) × ((link four_entries 1 4 ≡ some (4, q))
        × Linked four_entries four_reps four_depths 1 4 q
      ⊎ (link four_entries 1 4 ≡ some (1, q)) × Linked four_entries four_reps four_depths 4 1 q)
link_lem_example = link_lem four_entries four_reps four_depths four_entries-IsForest 1 4 roots_1_4

find_root_lem_example :
    (q : BlobList) × (find_root four_entries 3 ≡ some (1, q))
    × Compressed four_entries four_reps four_depths q
find_root_lem_example =
    find_root_lem four_reps four_depths four_entries 3 four_entries-IsForest (omega arith)
      (omega arith)
