-- ===== src/Blobs/Stats/Box.antt =====
-- The bounding box of a blob while runs and blobs are added to it.
use jpl_vision.Common.{ℕ, ◌≤◌, ◌<◌, ◌≡◌, min, max, arith}
use jpl_vision.Blobs.Types.{BlobStats, u16}
use jpl_vision.Blobs.Stats.{stats_add_singleton, stats_add}

-- Column `x` of row `y` lies in the box of `s`.
pub record InBox (s : BlobStats) (x y : ℕ) : Type 0 where
  pub left : s.min_x ≤ x
  pub right : x ≤ s.max_x
  pub top : s.min_y ≤ y
  pub bottom : y ≤ s.max_y

-- Adding a blob to a blob gives a box around both boxes, and adds up the pixel counts.
pub stats_add-InBox :
    (a b : BlobStats) (x y : ℕ)
    → (InBox a x y → InBox (stats_add a b) x y) × (InBox b x y → InBox (stats_add a b) x y)
unfolding stats_add
stats_add-InBox a b x y = (λ h. ground arith, λ h. ground arith)

-- Each side of the box of a sum of two blobs is a side of one of the two boxes.
pub stats_add-tight :
    (a b : BlobStats)
    → let s = stats_add a b in
      (s.min_x ≡ min a.min_x b.min_x)
      × (s.max_x ≡ max a.max_x b.max_x)
      × (s.min_y ≡ min a.min_y b.min_y)
      × (s.max_y ≡ max a.max_y b.max_y)
unfolding stats_add
stats_add-tight a b = ground arith

-- A run in a row that is not above the bottom of the box keeps every pixel of the box in it, and
-- the pixels of the run are in it too.
pub stats_add_singleton-InBox :
    (s : BlobStats) (row lo hi x y : ℕ)
    → lo < hi
    → hi < u16
    → s.min_y ≤ s.max_y
    → s.max_y ≤ row
    → let t = stats_add_singleton s row lo hi in
      (InBox s x y → InBox t x y) × (lo ≤ x → x < hi → InBox t x row)
unfolding stats_add_singleton
stats_add_singleton-InBox s row lo hi x y h w m r = (λ b. ground arith, λ p q. ground arith)

-- A run in a row below the top and above the bottom of the box moves the bottom of the box up to
-- that row: the rows below it are lost.
pub stats_add_singleton-shrinks :
    (s : BlobStats) (row lo hi : ℕ)
    → s.min_y < row
    → row < s.max_y
    → ((stats_add_singleton s row lo hi).max_y ≡ row)
      × ((stats_add_singleton s row lo hi).max_y < s.max_y)
unfolding stats_add_singleton
stats_add_singleton-shrinks s row lo hi h k = ground arith
