-- ===== src/Blobs/Stats.antt =====
-- Operations on Blob_Stats in detect_color_blobs.c: the rolling description of a blob.
pub mod Runs
pub mod Box
pub mod Counts
use jpl_vision.Common.{ℕ, ◌+◌, ◌-◌, ◌*◌, ◌/◌, ◌%◌, ltb, if◌then◌else◌}
use jpl_vision.Blobs.Types.{BlobStats, u16, u32}

-- `unsigned long count = col_high - col_low`
pub run_length : ℕ → ℕ → ℕ
run_length col_low col_high = (col_high + u32 - col_low) % u32

-- `(col_low + col_high - 1) * count / 2`, in unsigned long
pub run_sum_x : ℕ → ℕ → ℕ
unfolding run_length
run_sum_x col_low col_high =
    ((col_low + col_high + u32 - 1) % u32 * run_length col_low col_high) % u32 / 2

pub stats_init : ℕ → ℕ → ℕ → BlobStats
unfolding run_length run_sum_x
stats_init row col_low col_high = record {
  min_x = col_low;
  max_x = (col_high + u16 - 1) % u16;
  min_y = row;
  max_y = row;
  sum_x = run_sum_x col_low col_high;
  sum_y = (row * run_length col_low col_high) % u32;
  count = run_length col_low col_high;
}

pub stats_add_singleton : BlobStats → ℕ → ℕ → ℕ → BlobStats
unfolding run_length run_sum_x
stats_add_singleton s row col_low col_high =
    let high = (col_high + u16 - 1) % u16 in
    let min_y' = if ltb row s.min_y then row else s.min_y in
    record {
      min_x = if ltb col_low s.min_x then col_low else s.min_x;
      max_x = if ltb s.max_x high then high else s.max_x;
      min_y = min_y';
      max_y = if ltb min_y' row then row else s.max_y;
      sum_x = (s.sum_x + run_sum_x col_low col_high) % u32;
      sum_y = (s.sum_y + (row * run_length col_low col_high) % u32) % u32;
      count = (s.count + run_length col_low col_high) % u32;
    }

-- a = a + b
pub stats_add : BlobStats → BlobStats → BlobStats
stats_add a b = record {
  min_x = if ltb b.min_x a.min_x then b.min_x else a.min_x;
  max_x = if ltb a.max_x b.max_x then b.max_x else a.max_x;
  min_y = if ltb b.min_y a.min_y then b.min_y else a.min_y;
  max_y = if ltb a.max_y b.max_y then b.max_y else a.max_y;
  sum_x = (a.sum_x + b.sum_x) % u32;
  sum_y = (a.sum_y + b.sum_y) % u32;
  count = (a.count + b.count) % u32;
}
