-- ===== src/Blobs/Total/Changes.antt =====
-- How the operations on the forest change the number of pixels in all blobs.
use native.Mathlib.Numerals.{add-one}
use jpl_vision.Common.{ℕ, zero, suc, ◌+◌, ◌%◌, ◌<◌, ◌≡◌, ◌≢◌, refl, arith}
use jpl_vision.Common.Memory.{Array, update, sum_below, sum_below-update, sum_below-congr}
use jpl_vision.Blobs.Types.{BlobList, BlobStats, RootInfo, u32}
use jpl_vision.Blobs.Total.{total_from, get_total_blob_pixel_count}

abbrev pub counts : Array RootInfo → ℕ → ℕ
counts info r = (info r).stats.count

-- The loop adds up the counts of the used root entries, modulo 2 ^ 32.
total_from-sum :
    (info : Array RootInfo) (n i j total : ℕ)
    → i + n ≡ j
    → total ≡ sum_below i (counts info) % u32
    → total_from info n i total ≡ sum_below j (counts info) % u32
unfolding total_from sum_below
total_from-sum info zero i j total e h = let e' : i ≡ j = omega arith in rw (← e') h
total_from-sum info (suc n) i j total e h =
    total_from-sum info n (i + 1) j _ (omega arith) (rw add-one (omega (arith, h)))

-- get_total_blob_pixel_count is the sum of the counts of all root entries, modulo 2^32.
pub total-sum :
    (p : BlobList)
    → get_total_blob_pixel_count p ≡ sum_below p.used_root_list_count (counts p.root_info) % u32
unfolding get_total_blob_pixel_count sum_below
total-sum p =
    total_from-sum p.root_info p.used_root_list_count 0 p.used_root_list_count 0 (omega arith)
      (omega arith)

pub total-lt : (p : BlobList) → get_total_blob_pixel_count p < u32
total-lt p = omega (arith, total-sum p)

pub total-empty : (p : BlobList) → p.used_root_list_count ≡ 0 → get_total_blob_pixel_count p ≡ 0
unfolding get_total_blob_pixel_count total_from
total-empty p e = rw (e) refl

-- Changing one count changes the total by the difference.
pub total-update :
    (n : ℕ) (info : Array RootInfo) (r : ℕ) (e : RootInfo)
    → r < n
    → sum_below n (counts (update info r e)) + (info r).stats.count
      ≡ sum_below n (counts info) + e.stats.count
total-update n info r e l =
    ground (
      arith,
      sum_below-update n (counts (update info r e)) (counts info) r l (λ i ne. ground arith),
    )

-- Writing the element behind the first `n` adds its count.
pub total-append :
    (n : ℕ) (f g : Array RootInfo)
    → ((r : ℕ) → r < n → (f r).stats.count ≡ (g r).stats.count)
    → sum_below (n + 1) (counts f) ≡ sum_below n (counts g) + (f n).stats.count
unfolding sum_below
total-append n f g h = rw add-one (omega (arith, sum_below-congr n (counts f) (counts g) h))

-- Merging one root entry into another, and moving the last one into its place, keeps the sum.
pub total-merge :
    (n m : ℕ) (info : Array RootInfo) (prx crx : ℕ) (s : BlobStats)
    → suc n ≡ m
    → prx < m
    → crx < m
    → prx ≢ crx
    → s.count ≡ ((info prx).stats.count + (info crx).stats.count) % u32
    → let merged = update info prx (record (info prx) { stats = s }) in
      sum_below n (counts (update merged crx (merged n))) % u32 ≡ sum_below m (counts info) % u32
unfolding sum_below
total-merge n m info prx crx s e lp lc ne h = ground (
  arith,
  top,
  bottom,
  total-update m info prx (record (info prx) { stats = s }) lp,
  total-update m merged crx (merged n) lc,
)
  where
    merged : Array RootInfo
    merged = update info prx (record (info prx) { stats = s })

    after : Array RootInfo
    after = update merged crx (merged n)

    top : sum_below m (counts after) ≡ sum_below n (counts after) + (after n).stats.count
    top = rw (← e) refl

    bottom : (after n).stats.count ≡ (merged n).stats.count
    bottom = ground arith
