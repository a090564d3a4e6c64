-- ===== src/Blobs/Draw.antt =====
-- draw_bounding_boxes of detect_color_blobs.c: the boxes of the large blobs are drawn into
-- the image. The corners of a box are below 65535 and min_pixels is not negative, as for every image.
pub mod Lines
pub mod Luma
mod Tests
use jpl_vision.Common.{ℕ, zero, suc, ◌+◌, ◌-◌, ◌*◌, ◌/◌, ltb, if◌then◌else◌}
use jpl_vision.Common.Memory.{Array, update}
use jpl_vision.Blobs.Types.{BlobList, BlobStats, RootInfo}

-- `n` rounds of a loop that writes at `a` and at `b` and moves on by `step`.
pub paint_two : ℕ → Array ℕ → ℕ → ℕ → ℕ → ℕ → Array ℕ
paint_two zero yuv a b step v = yuv
paint_two (suc n) yuv a b step v =
    paint_two n (update (update yuv a v) b v) (a + step) (b + step) step v

-- The same for U values at `a` and `b` and V values `apart` elements behind them.
pub paint_four : ℕ → Array ℕ → ℕ → ℕ → ℕ → ℕ → ℕ → ℕ → Array ℕ
paint_four zero yuv a b apart step u v = yuv
paint_four (suc n) yuv a b apart step u v =
    let us = update (update yuv a u) b u in
    paint_four n (update (update us (a + apart) v) (b + apart) v) (a + step) (b + step) apart step u
      v

-- The box of one blob.
pub draw_box : Array ℕ → ℕ → ℕ → Array ℕ → BlobStats → Array ℕ
unfolding paint_two paint_four
draw_box color cols rows yuv s =
    let pixels = cols * rows in
    let u_top = pixels + s.min_y / 2 * (cols / 2) in
    let u_bot = pixels + s.max_y / 2 * (cols / 2) in
    let wide = s.max_x + 1 - s.min_x in
    let half_wide = s.max_x / 2 + 1 - s.min_x / 2 in
    let high = s.max_y + 1 - s.min_y in
    let half_high = s.max_y / 2 + 1 - s.min_y / 2 in
    let y1 = paint_two wide yuv (s.min_y * cols + s.min_x) (s.max_y * cols + s.min_x) 1 (color 0) in
    let y2 =
      paint_four half_wide y1 (u_top + s.min_x / 2) (u_bot + s.min_x / 2) (pixels / 4) 1 (color 1)
        (color 2) in
    let y3 =
      paint_two high y2 (s.min_x + s.min_y * cols) (s.max_x + s.min_y * cols) cols (color 0) in
    paint_four half_high y3 (pixels + s.min_x / 2 + s.min_y / 2 * (cols / 2))
      (pixels + s.max_x / 2 + s.min_y / 2 * (cols / 2)) (pixels / 4) (cols / 2) (color 1) (color 2)

-- The loop from root entry `i` on, with `n` rounds left.
pub draw_boxes : ℕ → Array RootInfo → ℕ → Array ℕ → ℕ → ℕ → Array ℕ → ℕ → Array ℕ
unfolding draw_box
draw_boxes zero info min_pixels color cols rows yuv i = yuv
draw_boxes (suc n) info min_pixels color cols rows yuv i =
    let s = (info i).stats in
    let drawn = if ltb s.count min_pixels then yuv else draw_box color cols rows yuv s in
    draw_boxes n info min_pixels color cols rows drawn (i + 1)

pub draw_bounding_boxes : BlobList → ℕ → Array ℕ → ℕ → ℕ → Array ℕ → Array ℕ
unfolding draw_boxes
draw_bounding_boxes p min_pixels color cols rows yuv =
    draw_boxes p.used_root_list_count p.root_info min_pixels color cols rows yuv 0
