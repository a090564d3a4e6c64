-- ===== src/Blobs/Draw/Luma.antt =====
-- The Y values after the boxes have been drawn.
use jpl_vision.Common.{
  ℕ, zero, suc, ◌+◌, ◌-◌, ◌*◌, ◌/◌, ◌≤◌, ◌<◌, ◌≡◌, ◌∙◌, inl, inr, refl, Bool, true, false, not,
  ◌&&◌, ◌||◌, leb, ltb, ◌==◌, if◌then◌else◌, arith, Bool-cases,
}
use jpl_vision.Common.Plane.{rows_apart}
use jpl_vision.Common.Memory.{Array}
use jpl_vision.Blobs.Types.{BlobList, BlobStats, RootInfo}
use jpl_vision.Blobs.Draw.{paint_two, paint_four, draw_box, draw_boxes, draw_bounding_boxes}
use jpl_vision.Blobs.Draw.Lines.{
  paint_two-miss, paint_two-hit, paint_four-miss, OnRows-written, written-OnRows, OnColumns-written,
  written-OnColumns,
}

-- The pixel in column `x` and row `y` is on the top or bottom line, or on the left or right one.
abbrev on_rows : BlobStats → ℕ → ℕ → Bool
on_rows s x y = leb s.min_x x && leb x s.max_x && (y == s.min_y || y == s.max_y)

abbrev on_columns : BlobStats → ℕ → ℕ → Bool
on_columns s x y = leb s.min_y y && leb y s.max_y && (x == s.min_x || x == s.max_x)

abbrev pub on_border : BlobStats → ℕ → ℕ → Bool
on_border s x y = on_rows s x y || on_columns s x y

-- The box is in the image.
pub record InImage (cols rows : ℕ) (s : BlobStats) : Type 0 where
  pub wide : s.min_x ≤ s.max_x
  pub high : s.min_y ≤ s.max_y
  pub right : s.max_x < cols
  pub bottom : s.max_y < rows

paint_four-luma :
    (cols rows n a b apart step u v x y : ℕ) (yuv : Array ℕ)
    → x < cols
    → y < rows
    → cols * rows ≤ a
    → cols * rows ≤ b
    → paint_four n yuv a b apart step u v (y * cols + x) ≡ yuv (y * cols + x)
paint_four-luma cols rows n a b apart step u v x y yuv hx hy ha hb =
    let inside : y * cols + x < cols * rows = grind (arith, rows_apart cols y rows hy) in
    paint_four-miss n yuv a b apart step u v (y * cols + x) (omega arith) (omega arith)

both_lines :
    (r c : Bool) (v w u : ℕ)
    → u ≡ (if r then v else w)
    → (if c then v else u) ≡ (if r || c then v else w)
both_lines true true v w u e = refl
both_lines true false v w u e = e
both_lines false true v w u e = refl
both_lines false false v w u e = e

module _ (s : BlobStats) (cols rows x y : ℕ) (in_x : x < cols) (box : InImage cols rows s) where
  rows_painted :
      (yuv : Array ℕ) (v : ℕ)
      → paint_two
          (s.max_x + 1 - s.min_x)
          yuv
          (s.min_y * cols + s.min_x)
          (s.max_y * cols + s.min_x)
          1
          v
          (y * cols + x)
        ≡ (if on_rows s x y then v else yuv (y * cols + x))
  rows_painted yuv v = elim (Bool-cases (on_rows s x y)) [
    | inl q ↦ rw q (
        paint_two-hit _ yuv _ _ 1 v _
          (OnRows-written s cols x y in_x box.right box.wide (ground (arith, q))))
    | inr q ↦ rw q (
        paint_two-miss _ yuv _ _ 1 v _
          (λ w. ground (arith, q, written-OnRows s cols x y in_x box.right box.wide w)))
  ]

  columns_painted :
      (yuv : Array ℕ) (v : ℕ)
      → paint_two
          (s.max_y + 1 - s.min_y)
          yuv
          (s.min_x + s.min_y * cols)
          (s.max_x + s.min_y * cols)
          cols
          v
          (y * cols + x)
        ≡ (if on_columns s x y then v else yuv (y * cols + x))
  columns_painted yuv v = elim (Bool-cases (on_columns s x y)) [
    | inl q ↦ rw q (
        paint_two-hit _ yuv _ _ cols v _
          (OnColumns-written s cols x y in_x box.right box.wide (ground (arith, q))))
    | inr q ↦ rw q (
        paint_two-miss _ yuv _ _ cols v _
          (λ w. ground (arith, q, written-OnColumns s cols x y in_x box.right box.wide w)))
  ]

  pub draw_box-luma :
      (color yuv : Array ℕ)
      → y < rows
      → draw_box color cols rows yuv s (y * cols + x)
        ≡ (if on_border s x y then color 0 else yuv (y * cols + x))
  unfolding draw_box
  draw_box-luma color yuv in_y =
      paint_four-luma cols rows (s.max_y / 2 + 1 - s.min_y / 2) _ _ (cols * rows / 4) (cols / 2)
        (color 1) (color 2) x y _ in_x in_y (omega arith) (omega arith)
      ∙ columns_painted _ (color 0)
      ∙ both_lines (on_rows s x y) (on_columns s x y) (color 0) (yuv (y * cols + x)) _ (
          paint_four-luma cols rows (s.max_x / 2 + 1 - s.min_x / 2) _ _ (cols * rows / 4) 1
            (color 1) (color 2) x y _ in_x in_y (omega arith) (omega arith)
          ∙ rows_painted yuv (color 0))

-- The pixel is on the border of the box of a large blob, of the `n` from root entry `i` on.
unfoldable pub on_large_border : ℕ → Array RootInfo → ℕ → ℕ → ℕ → ℕ → Bool
on_large_border zero info min_pixels i x y = false
on_large_border (suc n) info min_pixels i x y =
    not (ltb (info i).stats.count min_pixels) && on_border (info i).stats x y
    || on_large_border n info min_pixels (i + 1) x y

with_box :
    (small on later : Bool) (v k : ℕ) (yuv drawn : Array ℕ)
    → drawn k ≡ (if on then v else yuv k)
    → (if later then v else (if small then yuv else drawn) k)
      ≡ (if not small && on || later then v else yuv k)
with_box true on true v k yuv drawn e = refl
with_box true on false v k yuv drawn e = refl
with_box false true true v k yuv drawn e = refl
with_box false true false v k yuv drawn e = e
with_box false false true v k yuv drawn e = refl
with_box false false false v k yuv drawn e = e

draw_boxes-luma :
    (n : ℕ) (info : Array RootInfo) (min_pixels cols rows i x y : ℕ) (color yuv : Array ℕ)
    → ((k : ℕ) → i ≤ k → k < i + n → InImage cols rows (info k).stats)
    → x < cols
    → y < rows
    → draw_boxes n info min_pixels color cols rows yuv i (y * cols + x)
      ≡ (if on_large_border n info min_pixels i x y then color 0 else yuv (y * cols + x))
unfolding draw_boxes on_large_border
draw_boxes-luma zero info min_pixels cols rows i x y color yuv boxes hx hy = refl
draw_boxes-luma (suc n) info min_pixels cols rows i x y color yuv boxes hx hy =
    let s = (info i).stats in
    let later =
      draw_boxes-luma n info min_pixels cols rows (i + 1) x y color
        (if ltb s.count min_pixels then yuv else draw_box color cols rows yuv s)
        (λ k lo hi. boxes k (omega arith) (omega arith)) hx hy in
    let here =
      draw_box-luma s cols rows x y hx (boxes i (omega arith) (omega arith)) color yuv hy in
    later
    ∙ with_box (ltb s.count min_pixels) (on_border s x y)
        (on_large_border n info min_pixels (i + 1) x y) (color 0) (y * cols + x) yuv
        (draw_box color cols rows yuv s) here

-- If the boxes of all blobs are in the image, draw_bounding_boxes gives the Y value of a pixel of the image the
-- color of the boxes exactly if the pixel is on the border of the box of a blob with at least
-- `min_pixels` pixels, and leaves it as it was otherwise.
pub draw_bounding_boxes-luma :
    (p : BlobList) (min_pixels cols rows x y : ℕ) (color yuv : Array ℕ)
    → ((k : ℕ) → k < p.used_root_list_count → InImage cols rows (p.root_info k).stats)
    → x < cols
    → y < rows
    → draw_bounding_boxes p min_pixels color cols rows yuv (y * cols + x) ≡ (
        if on_large_border p.used_root_list_count p.root_info min_pixels 0 x y
        then color 0
        else yuv (y * cols + x))
unfolding draw_bounding_boxes
draw_bounding_boxes-luma p min_pixels cols rows x y color yuv boxes hx hy =
    draw_boxes-luma p.used_root_list_count p.root_info min_pixels cols rows 0 x y color yuv
      (λ k lo hi. boxes k (omega arith)) hx hy
