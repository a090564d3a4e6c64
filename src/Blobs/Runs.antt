-- ===== src/Blobs/Runs.antt =====
-- The runs of detect_color_blobs.c: create_uv_run_sequence finds the runs of one row of U and V
-- values, and detect_yuv_runs_in_row the parts of them that are bright enough. A loop is a recursion
-- on fuel, given as the number of rounds that the loop can make at most.
pub mod Covers
pub mod Uv
pub mod Yuv
pub mod Pixels
pub mod Fresh
pub mod Tests
use jpl_vision.Common.{
  ℕ, zero, suc, ◌+◌, ◌-◌, ◌*◌, ◌/◌, ◌%◌, Bool, true, false, ◌&&◌, List, [], ◌∷◌, ltb, leb,
  if◌then◌else◌, length,
}
use jpl_vision.Common.Memory.{Array}
use jpl_vision.Blobs.Types.{UvRun, YuvRun, u16}

-- The limits on colors that a caller gives.
pub record Thresholds : Type 0 where
  pub y_low : ℕ
  pub u_low : ℕ
  pub u_high : ℕ
  pub v_low : ℕ
  pub v_high : ℕ

pub uv_is_in : ℕ → Array ℕ → Thresholds → ℕ → Bool
uv_is_in pixels uv_row t jj =
    let u = uv_row (jj / 2) in
    let v = uv_row (pixels / 4 + jj / 2) in
    leb t.u_low u && leb u t.u_high && leb t.v_low v && leb v t.v_high

-- while (jj < cols && uv_is_in(…, jj)) jj += 2;
pub uv_run_end : ℕ → (ℕ → Bool) → ℕ → ℕ → ℕ
uv_run_end zero is_in cols jj = jj
uv_run_end (suc fuel) is_in cols jj =
    let rest = uv_run_end fuel is_in cols (jj + 2) in if ltb jj cols && is_in jj then rest else jj

-- The outer loop, from `jj` on.
pub uv_runs_from : ℕ → (ℕ → Bool) → ℕ → ℕ → List UvRun
uv_runs_from zero is_in cols jj = []
uv_runs_from (suc fuel) is_in cols jj =
    let stop = uv_run_end cols is_in cols (jj + 2) in
    let run : UvRun = record { run_low = jj % u16; run_high = (stop + u16 - 1) % u16 } in
    let with_run = run ∷ uv_runs_from fuel is_in cols stop in
    let without = uv_runs_from fuel is_in cols (jj + 2) in
    if ltb jj cols then (if is_in jj then with_run else without) else []

pub create_uv_run_sequence : ℕ → ℕ → Array ℕ → Thresholds → List UvRun
unfolding uv_is_in uv_run_end uv_runs_from
create_uv_run_sequence cols rows uv_row t =
    uv_runs_from (cols + 1) (uv_is_in (cols * rows) uv_row t) cols 0

-- while (yi < stop && test(yi)) ++yi;
pub advance : ℕ → (ℕ → Bool) → ℕ → ℕ → ℕ
advance zero test stop yi = yi
advance (suc fuel) test stop yi =
    let rest = advance fuel test stop (yi + 1) in if ltb yi stop && test yi then rest else yi

-- The loop, in the uv run `u` with `us` behind it.
pub yuv_runs_from : ℕ → ℕ → Array ℕ → ℕ → UvRun → List UvRun → ℕ → List YuvRun
unfolding advance
yuv_runs_from zero cols y_row y_low u us yi = []
yuv_runs_from (suc fuel) cols y_row y_low u us yi =
    let start = advance u.run_high (λ k. ltb (y_row k) y_low) u.run_high yi in
    let stop = advance u.run_high (λ k. leb y_low (y_row k)) u.run_high (start + 1) in
    let run : YuvRun = record { parent_index = 0; run_low = start % u16; run_high = stop % u16 } in
    let next : List YuvRun = elim us [
      | [] ↦ []
      | u' ∷ us' ↦ yuv_runs_from fuel cols y_row y_low u' us' u'.run_low
    ] in
    let here = yuv_runs_from fuel cols y_row y_low u us stop in
    if ltb yi cols
    then (if ltb start u.run_high then run ∷ (if leb u.run_high stop then next else here) else next)
    else []

pub detect_yuv_runs_in_row : ℕ → Array ℕ → List UvRun → ℕ → List YuvRun
unfolding yuv_runs_from
detect_yuv_runs_in_row cols y_row [] y_low = []
detect_yuv_runs_in_row cols y_row (u ∷ us) y_low =
    yuv_runs_from (cols + length us + 1) cols y_row y_low u us u.run_low
