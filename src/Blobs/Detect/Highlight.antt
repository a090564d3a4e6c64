-- ===== src/Blobs/Detect/Highlight.antt =====
-- The marks that detect_color_blobs leaves in the image.
use jpl_vision.Common.{
  ℕ, zero, suc, ◌+◌, ◌-◌, ◌/◌, max, ◌≤◌, ◌<◌, ◌≡◌, refl, List, [], ◌∷◌, ltb, leb, Bool, false, ◌||◌,
  ◌&&◌, if◌then◌else◌, arith,
}
use jpl_vision.Common.Memory.{Array, update}
use jpl_vision.Blobs.Types.{YuvRun}
use jpl_vision.Blobs.Runs.Covers.{YuvSorted}
use jpl_vision.Blobs.Detect.{suppress, brighten, brighter, highlight_row}

suppress-at :
    (n : ℕ) (yuv : Array ℕ) (k j : ℕ)
    → suppress n yuv k j ≡ (if leb k j && ltb j (k + n) then yuv j / 2 else yuv j)
unfolding suppress
suppress-at zero yuv k j = ground arith
suppress-at (suc n) yuv k j = ground (arith, suppress-at n (update yuv k (yuv k / 2)) (k + 1) j)

brighten-at :
    (n : ℕ) (yuv : Array ℕ) (k j : ℕ)
    → brighten n yuv k j ≡ (if leb k j && ltb j (k + n) then brighter (yuv j) else yuv j)
unfolding brighten
brighten-at zero yuv k j = ground arith
brighten-at (suc n) yuv k j =
    ground (arith, brighten-at n (update yuv k (brighter (yuv k))) (k + 1) j)

-- What one pixel of the row becomes: brighter inside the runs, half as bright outside of them.
abbrev pub in_run : List YuvRun → ℕ → Bool
in_run [] x = false
in_run (r ∷ rs) x = leb r.run_low x && ltb x r.run_high || in_run rs x

YuvSorted-lower :
    (lo lo' hi : ℕ) (rs : List YuvRun) → lo ≤ lo' → YuvSorted lo' hi rs → YuvSorted lo hi rs
YuvSorted-lower lo lo' hi [] h o = tt
YuvSorted-lower lo lo' hi (r ∷ rs) h o = (omega (arith, o.0), o.1, o.2, o.3)

not_in_later : (lo hi x : ℕ) (rs : List YuvRun) → YuvSorted lo hi rs → x < lo → in_run rs x ≡ false
not_in_later lo hi x [] o h = refl
not_in_later lo hi x (r ∷ rs) o h =
    ground (arith, not_in_later (r.run_high + 1) hi x rs o.3 (omega (arith, o.0, o.1)))

-- The image after the columns up to the end of the run `r`.
abbrev marked : Array ℕ → ℕ → YuvRun → ℕ → Array ℕ
marked yuv base r kk =
    brighten (r.run_high - max kk r.run_low) (suppress (r.run_low - kk) yuv (base + kk))
      (base + max kk r.run_low)

abbrev pub MarkedAt : Array ℕ → Array ℕ → ℕ → ℕ → List YuvRun → ℕ → ℕ → Type 0
MarkedAt out yuv base cols rs kk j = out j ≡ (
    if leb (base + kk) j && ltb j (base + cols)
    then (if in_run rs (j - base) then brighter (yuv j) else yuv j / 2)
    else yuv j)

-- One run, and what the rest of the row becomes.
highlight_run :
    (yuv : Array ℕ) (base cols : ℕ) (r : YuvRun) (rs : List YuvRun) (kk j : ℕ) (out : Array ℕ)
    → YuvSorted kk cols (r ∷ rs)
    → kk ≤ cols
    → MarkedAt out (marked yuv base r kk) base cols rs (max (max kk r.run_low) r.run_high) j
    → MarkedAt out yuv base cols (r ∷ rs) kk j
highlight_run yuv base cols r rs kk j out o h rest = ground (
  arith,
  rest,
  suppress-at (r.run_low - kk) yuv (base + kk) j,
  brighten-at (r.run_high - max kk r.run_low) (suppress (r.run_low - kk) yuv (base + kk))
      (base + max kk r.run_low) j,
  not_in_later (r.run_high + 1) cols (j - base) rs o.3,
)

-- highlight_row on sorted runs of a row, from column `kk` on: the Y value of a column inside the runs
-- is doubled, up to 255, that of another column of the row from `kk` on is halved, and all else in
-- the image is left as it is.
pub highlight_row-at :
    (yuv : Array ℕ) (base cols : ℕ) (rs : List YuvRun) (kk j : ℕ)
    → YuvSorted kk cols rs
    → kk ≤ cols
    → MarkedAt (highlight_row yuv base cols rs kk) yuv base cols rs kk j
unfolding highlight_row
highlight_row-at yuv base cols [] kk j o h =
    ground (arith, suppress-at (cols - kk) yuv (base + kk) j)
highlight_row-at yuv base cols (r ∷ rs) kk j o h =
    highlight_run yuv base cols r rs kk j
      (highlight_row (marked yuv base r kk) base cols rs (max (max kk r.run_low) r.run_high)) o h
      (highlight_row-at (marked yuv base r kk) base cols rs (max (max kk r.run_low) r.run_high) j
        (YuvSorted-lower (max (max kk r.run_low) r.run_high) (r.run_high + 1) cols rs (omega arith)
          o.3)
        (omega arith))
