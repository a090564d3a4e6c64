-- ===== src/Tcp/Cases.antt =====
-- The reading of a message of tcp_comms.c, and the longer cases of its switch. A case gives `none`
-- where the code sets error_seen, and else the parameters and the calls that it makes. `f` is the work
-- of the processor on floats.
use jpl_vision.Common.{ℕ, ◌+◌, ◌*◌, ◌^◌, Option, none, some, List, [], ◌∷◌, ltb, if◌then◌else◌}
use jpl_vision.Common.Memory.{Array, update}
use jpl_vision.Common.Int.{ℤ, pos, signed32, ltb_ℤ}
use jpl_vision.Tcp.Types.{
  CamParams, TcpParams, Floats, float_zero, float_one, CameraCall, set_exposure_mode, set_colour_fx,
  set_flips, set_roi,
}

-- value < low ? low : value > high ? high : value
unfoldable pub int_limit : ℤ → ℤ → ℤ → ℤ
int_limit low high value = if ltb_ℤ value low then low else if ltb_ℤ high value then high else value

-- float_limit(0.0, 1.0, value). It is declared without a result type, so it returns an int.
unfoldable pub float_limit : Floats → ℕ → ℤ
float_limit f value = f.to_int (
    if f.lt value float_zero then float_zero else if f.lt float_one value then float_one else value)

-- ntohl and ntohf of the four bytes at `k`: the integer, and the pattern of the float.
unfoldable pub word_at : Array ℕ → ℕ → ℕ
word_at mesg k = mesg k * 2 ^ 24 + mesg (k + 1) * 2 ^ 16 + mesg (k + 2) * 2 ^ 8 + mesg (k + 3)

abbrev pub int_at : Array ℕ → ℕ → ℤ
int_at mesg k = signed32 (word_at mesg k)

-- int_limit(low, high, ntohl(…))
abbrev pub limited_at : Array ℕ → ℕ → ℤ → ℤ → ℤ
limited_at mesg k low high = int_limit low high (int_at mesg k)

abbrev pub Handled : Type 0
Handled = Option (TcpParams × List CameraCall)

-- A message of less than `size` bytes is refused.
abbrev pub needs : ℕ → ℕ → TcpParams → List CameraCall → Handled
needs bytes size p calls = if ltb bytes size then none else some (p, calls)

abbrev pub with_cam : TcpParams → CamParams → TcpParams
with_cam p c = record p { cam_params = c }

abbrev pub colour_fx_case : Array ℕ → ℕ → TcpParams → Handled
colour_fx_case m n p =
    let e = limited_at m 4 (pos 0) (pos 1) in
    let u = limited_at m 8 (pos 0) (pos 255) in
    let v = limited_at m 12 (pos 0) (pos 255) in
    needs n 16 (with_cam p (record p.cam_params { colour_enable = e; colour_u = u; colour_v = v }))
      (set_colour_fx e u v ∷ [])

abbrev pub flips_case : Array ℕ → ℕ → TcpParams → Handled
flips_case m n p =
    let h = limited_at m 4 (pos 0) (pos 1) in
    let v = limited_at m 8 (pos 0) (pos 1) in
    needs n 12 (with_cam p (record p.cam_params { hflip = h; vflip = v })) (set_flips h v ∷ [])

abbrev pub roi_case : Floats → Array ℕ → ℕ → TcpParams → Handled
roi_case f m n p =
    let x = f.to_double (float_limit f (word_at m 4)) in
    let y = f.to_double (float_limit f (word_at m 8)) in
    let w = f.to_double (float_limit f (word_at m 12)) in
    let h = f.to_double (float_limit f (word_at m 16)) in
    needs n 20 (with_cam p (record p.cam_params { roi_x = x; roi_y = y; roi_w = w; roi_h = h }))
      (set_roi x y w h ∷ [])

abbrev pub blob_yuv_case : Array ℕ → ℕ → TcpParams → Handled
blob_yuv_case m n p =
    needs n 7
      (record p {
        blob_yuv_min = update (update (update p.blob_yuv_min 0 (m 1)) 1 (m 3)) 2 (m 5);
        blob_yuv_max = update (update (update p.blob_yuv_max 0 (m 2)) 1 (m 4)) 2 (m 6);
      })
      []

abbrev pub freeze_exposure_case : Array ℕ → ℕ → TcpParams → Handled
freeze_exposure_case m n p =
    needs n 20
      (record p {
        analog_gain_target = word_at m 4;
        analog_gain_tol = word_at m 8;
        digital_gain_target = word_at m 12;
        digital_gain_tol = word_at m 16;
      })
      (set_exposure_mode p.cam_params.exposure_mode ∷ [])

abbrev pub crosshairs_case : Array ℕ → ℕ → TcpParams → Handled
crosshairs_case m n p =
    needs n 12 (record p { crosshairs_x = int_at m 4; crosshairs_y = int_at m 8 }) []
