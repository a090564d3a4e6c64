-- ===== src/Blobs/Runs/Fresh.antt =====
-- The runs of a row are in no blob when they are found.
use jpl_vision.Common.{
  ℕ, zero, suc, ◌+◌, ◌%◌, ◌≡◌, refl, List, [], ◌∷◌, length, ltb, leb, if◌then◌else◌, Bool, true,
  false,
}
use jpl_vision.Common.Memory.{Array}
use jpl_vision.Blobs.Types.{UvRun, YuvRun, u16}
use jpl_vision.Blobs.Runs.{advance, yuv_runs_from, detect_yuv_runs_in_row}

abbrev pub AllFresh : List YuvRun → Type 0
AllFresh [] = Unit {0}
AllFresh (r ∷ rs) = (r.parent_index ≡ 0) × AllFresh rs

-- One round of the loop.
AllFresh-round :
    (t u v : Bool) (run : YuvRun) (next here : List YuvRun)
    → run.parent_index ≡ 0
    → AllFresh next
    → AllFresh here
    → AllFresh (if t then (if u then run ∷ (if v then next else here) else next) else [])
AllFresh-round false u v run next here e h k = tt
AllFresh-round true false v run next here e h k = h
AllFresh-round true true true run next here e h k = (e, h)
AllFresh-round true true false run next here e h k = (e, k)

module _ (cols : ℕ) (y_row : Array ℕ) (y_low : ℕ) where
  start : UvRun → ℕ → ℕ
  start u yi = advance u.run_high (λ k. ltb (y_row k) y_low) u.run_high yi

  stop : UvRun → ℕ → ℕ
  stop u yi = advance u.run_high (λ k. leb y_low (y_row k)) u.run_high (start u yi + 1)

  found : UvRun → ℕ → YuvRun
  found u yi = record { parent_index = 0; run_low = start u yi % u16; run_high = stop u yi % u16 }

  yuv_runs_from-AllFresh :
      (fuel : ℕ) (u : UvRun) (us : List UvRun) (yi : ℕ)
      → AllFresh (yuv_runs_from fuel cols y_row y_low u us yi)
  unfolding yuv_runs_from found stop start
  yuv_runs_from-AllFresh zero u us yi = tt
  yuv_runs_from-AllFresh (suc fuel) u [] yi =
      AllFresh-round (ltb yi cols) (ltb (start u yi) u.run_high) (leb u.run_high (stop u yi))
        (found u yi) [] (yuv_runs_from fuel cols y_row y_low u [] (stop u yi)) refl tt
        (yuv_runs_from-AllFresh fuel u [] (stop u yi))
  yuv_runs_from-AllFresh (suc fuel) u (w ∷ ws) yi =
      AllFresh-round (ltb yi cols) (ltb (start u yi) u.run_high) (leb u.run_high (stop u yi))
        (found u yi) (yuv_runs_from fuel cols y_row y_low w ws w.run_low)
        (yuv_runs_from fuel cols y_row y_low u (w ∷ ws) (stop u yi)) refl
        (yuv_runs_from-AllFresh fuel w ws w.run_low)
        (yuv_runs_from-AllFresh fuel u (w ∷ ws) (stop u yi))

  pub detect_yuv_runs_in_row-AllFresh :
      (us : List UvRun) → AllFresh (detect_yuv_runs_in_row cols y_row us y_low)
  unfolding detect_yuv_runs_in_row
  detect_yuv_runs_in_row-AllFresh [] = tt
  detect_yuv_runs_in_row-AllFresh (u ∷ us) =
      yuv_runs_from-AllFresh (cols + length us + 1) u us u.run_low
