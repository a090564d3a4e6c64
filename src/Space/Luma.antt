-- ===== src/Space/Luma.antt =====
-- The Y values of the test image.
use jpl_vision.Common.{
  ℕ, zero, suc, ◌+◌, ◌-◌, ◌*◌, ◌/◌, ◌%◌, ◌≤◌, ◌<◌, ◌≡◌, ◌≢◌, ◌∙◌, refl, ap, min, ◌&&◌, some, leb,
  ltb, if◌then◌else◌, arith, dec_lt, ℕ_discrete,
}
use jpl_vision.Common.Plane.{rows_apart}
use jpl_vision.Common.Memory.{Array, update}
use jpl_vision.Common.Int.{ℤ}
use jpl_vision.Space.{
  set_run, y_rows, black_rows, ramp_row, gray_row, uv_rows, gray_rows, yuv_color_space_image,
}

set_run-at :
    (n : ℕ) (yuv : Array ℕ) (k v j : ℕ)
    → set_run n yuv k v j ≡ (if leb k j && ltb j (k + n) then v else yuv j)
unfolding set_run
set_run-at zero yuv k v j = ground arith
set_run-at (suc n) yuv k v j = set_run-at n (update yuv k v) (k + 1) v j ∙ ground arith

-- One row, at an element of the same row, and of another one.
y_row-same :
    (cols side v ii x : ℕ) (yuv : Array ℕ)
    → side ≤ cols
    → x < cols
    → set_run (cols - side) (set_run side yuv (ii * cols) v) (ii * cols + side) 0 (ii * cols + x)
      ≡ (if ltb x side then v else 0)
y_row-same cols side v ii x yuv l h =
    set_run-at (cols - side) _ (ii * cols + side) 0 (ii * cols + x)
    ∙ ground (arith, set_run-at side yuv (ii * cols) v (ii * cols + x))

y_row-other :
    (cols side v ii y x : ℕ) (yuv : Array ℕ)
    → side ≤ cols
    → x < cols
    → y ≢ ii
    → set_run (cols - side) (set_run side yuv (ii * cols) v) (ii * cols + side) 0 (y * cols + x)
      ≡ yuv (y * cols + x)
y_row-other cols side v ii y x yuv l h ne = elim (dec_lt y ii) [
  | yes m ↦
      set_run-at (cols - side) _ (ii * cols + side) 0 (y * cols + x)
      ∙ ground (arith, rows_apart cols y ii m, set_run-at side yuv (ii * cols) v (y * cols + x))
  | no m ↦
      set_run-at (cols - side) _ (ii * cols + side) 0 (y * cols + x)
      ∙ ground (
        arith,
        rows_apart cols ii y (omega arith),
        set_run-at side yuv (ii * cols) v (y * cols + x),
      )
]

y_rows-at :
    (n cols side v y x ii : ℕ) (yuv : Array ℕ)
    → side ≤ cols
    → x < cols
    → y_rows n cols side v yuv ii (y * cols + x)
      ≡ (if leb ii y && ltb y (ii + n) then (if ltb x side then v else 0) else yuv (y * cols + x))
unfolding y_rows
y_rows-at zero cols side v y x ii yuv l h = ground arith
y_rows-at (suc n) cols side v y x ii yuv l h = elim (ℕ_discrete y ii) [
  | yes e ↦
      y_rows-at n cols side v y x (ii + 1) _ l h
      ∙ ground (
        arith,
        e,
        ap
              (λ j.
                set_run (cols - side) (set_run side yuv (ii * cols) v) (ii * cols + side) 0
                  (j * cols + x))
              e
            ∙ y_row-same cols side v ii x yuv l h,
      )
  | no ne ↦
      y_rows-at n cols side v y x (ii + 1) _ l h
      ∙ ground (arith, ne, y_row-other cols side v ii y x yuv l h ne)
]

black_rows-y_rows :
    (n cols ii : ℕ) (yuv : Array ℕ) → black_rows n cols yuv ii ≡ y_rows n cols cols 0 yuv ii
unfolding black_rows y_rows set_run
black_rows-y_rows zero cols ii yuv = refl
black_rows-y_rows (suc n) cols ii yuv =
    let e : cols - cols ≡ 0 = omega arith in
    rw e (black_rows-y_rows n cols (ii + 1) (set_run cols yuv (ii * cols) 0))

-- The loops over U and V values change nothing before these.
ramp_row-below :
    (n : ℕ) (ramp : ℕ → ℕ → ℤ) (side ii2 : ℕ) (yuv : Array ℕ) (u v jj2 k : ℕ)
    → k < u
    → k < v
    → ramp_row n ramp side ii2 yuv u v jj2 k ≡ yuv k
unfolding ramp_row
ramp_row-below zero ramp side ii2 yuv u v jj2 k h g = refl
ramp_row-below (suc n) ramp side ii2 yuv u v jj2 k h g =
    ramp_row-below n ramp side ii2 _ u v (jj2 + 1) k h g ∙ ground (arith, h, g)

gray_row-below :
    (n : ℕ) (yuv : Array ℕ) (u v jj2 k : ℕ) → k < u → k < v → gray_row n yuv u v jj2 k ≡ yuv k
unfolding gray_row
gray_row-below zero yuv u v jj2 k h g = refl
gray_row-below (suc n) yuv u v jj2 k h g =
    gray_row-below n _ u v (jj2 + 1) k h g ∙ ground (arith, h, g)

uv_rows-below :
    (n : ℕ) (ramp : ℕ → ℕ → ℤ) (cols rows side : ℕ) (yuv : Array ℕ) (ii2 k : ℕ)
    → k < cols * rows
    → uv_rows n ramp cols rows side yuv ii2 k ≡ yuv k
unfolding uv_rows
uv_rows-below zero ramp cols rows side yuv ii2 k h = refl
uv_rows-below (suc n) ramp cols rows side yuv ii2 k h =
    uv_rows-below n ramp cols rows side _ (ii2 + 1) k h
    ∙ gray_row-below (cols / 2 - side / 2) _ _ _ (side / 2) k (omega arith) (omega arith)
    ∙ ramp_row-below (side / 2) ramp side ii2 yuv _ _ 0 k (omega arith) (omega arith)

gray_rows-below :
    (n cols rows : ℕ) (yuv : Array ℕ) (ii2 k : ℕ)
    → k < cols * rows
    → gray_rows n cols rows yuv ii2 k ≡ yuv k
unfolding gray_rows
gray_rows-below zero cols rows yuv ii2 k h = refl
gray_rows-below (suc n) cols rows yuv ii2 k h =
    gray_rows-below n cols rows _ (ii2 + 1) k h
    ∙ gray_row-below (cols / 2) yuv _ _ 0 k (omega arith) (omega arith)

-- With an even number of columns and of rows, yuv_color_space_image fails no assert, and the Y value
-- of a pixel is the one given inside the largest square at the upper left corner, and 0
-- outside.
pub yuv_color_space_image-luma :
    (ramp : ℕ → ℕ → ℤ) (cols rows v x y : ℕ) (yuv : Array ℕ)
    → cols % 2 ≡ 0
    → rows % 2 ≡ 0
    → x < cols
    → y < rows
    → (out : Array ℕ) × (yuv_color_space_image ramp cols rows v yuv ≡ some out)
      × (out (y * cols + x) ≡ (if ltb x (min cols rows) && ltb y (min cols rows) then v else 0))
unfolding yuv_color_space_image
yuv_color_space_image-luma ramp cols rows v x y yuv even_cols even_rows hx hy =
    let side = min cols rows in
    let inside : y * cols + x < cols * rows = grind (arith, rows_apart cols y rows hy) in
    let y1 = y_rows side cols side v yuv 0 in
    let y2 = black_rows (rows - side) cols y1 side in
    let uv1 = uv_rows (side / 2) ramp cols rows side y2 0 in
    let black = y_rows-at (rows - side) cols cols 0 y x side y1 (omega arith) hx in
    let square = y_rows-at side cols side v y x 0 yuv (omega arith) hx in
    (
      gray_rows (rows / 2 - side / 2) cols rows uv1 (side / 2),
      ground (arith, even_cols, even_rows),
      gray_rows-below (rows / 2 - side / 2) cols rows uv1 (side / 2) (y * cols + x) inside
          ∙ uv_rows-below (side / 2) ramp cols rows side y2 0 (y * cols + x) inside
          ∙ ap (λ (a : Array ℕ). a (y * cols + x)) (black_rows-y_rows (rows - side) cols side y1)
          ∙ ground (arith, black, square, hx, hy),
    )
