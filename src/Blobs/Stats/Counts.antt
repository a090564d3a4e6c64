-- ===== src/Blobs/Stats/Counts.antt =====
-- The pixel counts that the operations on Blob_Stats leave.
use jpl_vision.Common.{ℕ, ◌+◌, ◌%◌, ◌≡◌, refl}
use jpl_vision.Blobs.Types.{BlobStats, u32}
use jpl_vision.Blobs.Stats.{run_length, stats_init, stats_add_singleton, stats_add}

pub count-stats_init : (row lo hi : ℕ) → (stats_init row lo hi).count ≡ run_length lo hi
unfolding stats_init
count-stats_init row lo hi = refl

pub count-stats_add_singleton :
    (s : BlobStats) (row lo hi : ℕ)
    → (stats_add_singleton s row lo hi).count ≡ (s.count + run_length lo hi) % u32
unfolding stats_add_singleton
count-stats_add_singleton s row lo hi = refl

pub count-stats_add : (a b : BlobStats) → (stats_add a b).count ≡ (a.count + b.count) % u32
unfolding stats_add
count-stats_add a b = refl
