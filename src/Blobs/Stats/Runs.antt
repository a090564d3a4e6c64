-- ===== src/Blobs/Stats/Runs.antt =====
-- The closed forms by which detect_color_blobs.c adds a run are the sums over its pixels.
use jpl_vision.Common.{ℕ, zero, suc, ◌+◌, ◌-◌, ◌*◌, ◌%◌, ◌<◌, ◌≡◌, ap, arith}
use jpl_vision.Blobs.Types.{u16, u32}
use jpl_vision.Blobs.Stats.{stats_init, run_length, run_sum_x}

-- The sum of the column numbers of the `n` pixels from column `lo` on.
pub column_sum : ℕ → ℕ → ℕ
column_sum lo zero = 0
column_sum lo (suc n) = lo + column_sum (lo + 1) n

column_sum-double : (lo n : ℕ) → 2 * column_sum lo n + n ≡ n * (2 * lo + n)
unfolding column_sum
column_sum-double lo zero = omega arith
column_sum-double lo (suc n) = omega (arith, column_sum-double (lo + 1) n)

run_length_lem : (lo n : ℕ) → lo + n < u16 → run_length lo (lo + n) ≡ n
unfolding run_length
run_length_lem lo n w = omega arith

-- A product that fits is not wrapped, and the sum is half of it.
run_sum_x_lem :
    (lo n : ℕ)
    → 0 < n
    → lo + n < u16
    → (2 * lo + n) * n < u32
    → run_sum_x lo (lo + n) ≡ column_sum lo n
unfolding run_sum_x
run_sum_x_lem lo n h w f =
    rw (run_length_lem lo n w)
      (omega (arith, column_sum-double lo n, ap (λ (t : ℕ). t * n) ends, unwrapped))
  where
    ends : (lo + (lo + n) + u32 - 1) % u32 ≡ 2 * lo + n - 1
    ends = omega arith

    back : 2 * lo + n - 1 + 1 ≡ 2 * lo + n
    back = omega arith

    unwrapped : (2 * lo + n - 1) * n + n ≡ (2 * lo + n) * n
    unwrapped = omega (arith, ap (λ (t : ℕ). t * n) back)

-- Of a nonempty run of `n` pixels from column `lo` of row `row`, whose sums fit in 32 bits,
-- `stats_init` counts the pixels, sums up their columns and rows, and has the run for its box.
pub stats_init-sums :
    (row lo n : ℕ)
    → 0 < n
    → lo + n < u16
    → (2 * lo + n) * n < u32
    → row * n < u32
    → let s = stats_init row lo (lo + n) in
      (s.count ≡ n)
      × (s.sum_x ≡ column_sum lo n)
      × (s.sum_y ≡ row * n)
      × (s.min_x ≡ lo)
      × (s.max_x + 1 ≡ lo + n)
      × (s.min_y ≡ row)
      × (s.max_y ≡ row)
unfolding stats_init
stats_init-sums row lo n h w fx fy =
    ground (arith, run_length_lem lo n w, run_sum_x_lem lo n h w fx)
