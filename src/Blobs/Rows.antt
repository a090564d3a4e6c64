-- ===== src/Blobs/Rows.antt =====
-- yuv_run_row_union of detect_color_blobs.c: the runs of two neighbouring rows that share a column
-- are united. The lists are the runs from `ai` and from `bi` on. Every round moves on in one of
-- them, so their lengths bound the rounds; `none` is a failed assert or fuel that ran out.
pub mod Steps
pub mod Colors
pub mod Recolor
pub mod Round
pub mod Advance
pub mod Together
pub mod Later
mod Tests
use jpl_vision.Common.{
  ℕ, zero, suc, ◌+◌, Option, none, some, List, [], ◌∷◌, ltb, if◌then◌else◌, ◌>>=◌, length,
}
use jpl_vision.Blobs.Types.{BlobList, YuvRun}
use jpl_vision.Blobs.Union.{yuv_run_union}

abbrev pub Joined : Type 0
Joined = Option (BlobList × List YuvRun × List YuvRun)

-- Put the run that the loop leaves behind back in front.
abbrev pub behind_a : YuvRun → Joined → Joined
behind_a a r = do (q, xs, ys) ← r; some (q, a ∷ xs, ys)

abbrev pub behind_b : YuvRun → Joined → Joined
behind_b b r = do (q, xs, ys) ← r; some (q, xs, b ∷ ys)

pub row_union_from : ℕ → BlobList → ℕ → List YuvRun → ℕ → List YuvRun → ℕ → Joined
row_union_from zero p a_row xs b_row ys x = none
row_union_from (suc fuel) p a_row [] b_row ys x = some (p, [], ys)
row_union_from (suc fuel) p a_row (a ∷ xs) b_row [] x = some (p, a ∷ xs, [])
row_union_from (suc fuel) p a_row (a ∷ xs) b_row (b ∷ ys) x =
    let x1 = if ltb x a.run_low then a.run_low else x in
    let x2 = if ltb x1 b.run_low then b.run_low else x1 in
    let skip_a = behind_a a (row_union_from fuel p a_row xs b_row (b ∷ ys) x2) in
    let skip_b = behind_b b (row_union_from fuel p a_row (a ∷ xs) b_row ys x2) in
    let unite = (do
      (q, a', b') ← yuv_run_union p a_row a b_row b
      if ltb a.run_high b.run_high
          then behind_a a' (row_union_from fuel q a_row xs b_row (b' ∷ ys) x2)
          else behind_b b' (row_union_from fuel q a_row (a' ∷ xs) b_row ys x2)) in
    if ltb x2 a.run_high then (if ltb x2 b.run_high then unite else skip_b) else skip_a

pub yuv_run_row_union : BlobList → ℕ → List YuvRun → ℕ → List YuvRun → Joined
unfolding row_union_from
yuv_run_row_union p a_row xs b_row ys =
    row_union_from (length xs + length ys + 1) p a_row xs b_row ys 0
