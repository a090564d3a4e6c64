-- ===== src/Tcp/Swap/RoundTrip.antt =====
-- Swapping the bytes twice.
use jpl_vision.Common.{ℕ, ◌-◌, ◌^◌, ◌<◌, ◌≡◌, ◌∙◌, ap, arith}
use jpl_vision.Common.Int.{ℤ, pos, negsuc, ◌≤ℤ◌, signed32, pattern32}
use jpl_vision.Tcp.Types.{CamParams, TcpParams, Floats}
use jpl_vision.Tcp.Swap.{swap32, htonl, cam_params_byte_swap, tcp_params_byte_swap}

-- An int has 32 bits.
pub record IsInt (z : ℤ) : Type 0 where
  pub from : negsuc (2 ^ 31 - 1) ≤ℤ z
  pub to : z ≤ℤ pos (2 ^ 31 - 1)

pub swap32-swap32 : (w : ℕ) → w < 2 ^ 32 → swap32 (swap32 w) ≡ w
unfolding swap32
swap32-swap32 w h = omega arith

swap32-lt : (w : ℕ) → swap32 w < 2 ^ 32
unfolding swap32
swap32-lt w = omega arith

pattern32-signed32 : (w : ℕ) → w < 2 ^ 32 → pattern32 (signed32 w) ≡ w
pattern32-signed32 w h = ground arith

signed32-pattern32 : (z : ℤ) → IsInt z → (signed32 (pattern32 z) ≡ z) × (pattern32 z < 2 ^ 32)
signed32-pattern32 (pos n) h = ground (arith, h.to)
signed32-pattern32 (negsuc n) h = ground (arith, h.from)

pub pattern32-htonl : (z : ℤ) → pattern32 (htonl z) ≡ swap32 (pattern32 z)
unfolding htonl
pattern32-htonl z = pattern32-signed32 (swap32 (pattern32 z)) (swap32-lt (pattern32 z))

pub htonl-htonl : (z : ℤ) → IsInt z → htonl (htonl z) ≡ z
unfolding htonl
htonl-htonl z h =
    let (back, small) = signed32-pattern32 z h in
    ap (λ w. signed32 (swap32 w))
      (pattern32-signed32 (swap32 (pattern32 z)) (swap32-lt (pattern32 z)))
    ∙ ap signed32 (swap32-swap32 (pattern32 z) small)
    ∙ back

-- Every int of the parameters has 32 bits, and every float is a 32-bit pattern.
pub record IsCam (c : CamParams) : Type 0 where
  pub sharpness_int : IsInt c.sharpness
  pub contrast_int : IsInt c.contrast
  pub brightness_int : IsInt c.brightness
  pub saturation_int : IsInt c.saturation
  pub iso_int : IsInt c.iso
  pub stabilisation_int : IsInt c.video_stabilisation
  pub compensation_int : IsInt c.exposure_compensation
  pub exposure_int : IsInt c.exposure_mode
  pub metering_int : IsInt c.exposure_meter_mode
  pub awb_int : IsInt c.awb_mode
  pub rotation_int : IsInt c.rotation
  pub hflip_int : IsInt c.hflip
  pub vflip_int : IsInt c.vflip
  pub shutter_int : IsInt c.shutter_speed
  pub gains_r_float : c.awb_gains_r < 2 ^ 32
  pub gains_b_float : c.awb_gains_b < 2 ^ 32
  pub drc_int : IsInt c.drc_level

pub record IsParams (p : TcpParams) : Type 0 where
  pub cam : IsCam p.cam_params
  pub analog_float : p.analog_gain_target < 2 ^ 32
  pub analog_tol_float : p.analog_gain_tol < 2 ^ 32
  pub digital_float : p.digital_gain_target < 2 ^ 32
  pub digital_tol_float : p.digital_gain_tol < 2 ^ 32
  pub x_int : IsInt p.crosshairs_x
  pub y_int : IsInt p.crosshairs_y

-- The parameters `p` with the region of interest of `q`.
abbrev pub with_roi_of : CamParams → CamParams → CamParams
with_roi_of q c = record c { roi_x = q.roi_x; roi_y = q.roi_y; roi_w = q.roi_w; roi_h = q.roi_h }

cam_round_trip :
    (f : Floats) (c : CamParams)
    → IsCam c
    → let q = cam_params_byte_swap f (cam_params_byte_swap f c) in q ≡ with_roi_of q c
unfolding cam_params_byte_swap
cam_round_trip f c v = rw (
  htonl-htonl c.sharpness v.sharpness_int,
  htonl-htonl c.contrast v.contrast_int,
  htonl-htonl c.brightness v.brightness_int,
  htonl-htonl c.saturation v.saturation_int,
  htonl-htonl c.iso v.iso_int,
  htonl-htonl c.video_stabilisation v.stabilisation_int,
  htonl-htonl c.exposure_compensation v.compensation_int,
  htonl-htonl c.exposure_mode v.exposure_int,
  htonl-htonl c.exposure_meter_mode v.metering_int,
  htonl-htonl c.awb_mode v.awb_int,
  htonl-htonl c.rotation v.rotation_int,
  htonl-htonl c.hflip v.hflip_int,
  htonl-htonl c.vflip v.vflip_int,
  htonl-htonl c.shutter_speed v.shutter_int,
  swap32-swap32 c.awb_gains_r v.gains_r_float,
  swap32-swap32 c.awb_gains_b v.gains_b_float,
  htonl-htonl c.drc_level v.drc_int,
)

-- tcp_params_byte_swap, applied to what it has made of parameters whose ints and floats have 32 bits,
-- gives them back, but for the region of interest: that is sent through floats.
pub tcp_params_byte_swap-round_trip :
    (f : Floats) (p : TcpParams)
    → IsParams p
    → let q = tcp_params_byte_swap f (tcp_params_byte_swap f p) in
      q ≡ record p { cam_params = with_roi_of q.cam_params p.cam_params }
unfolding tcp_params_byte_swap
tcp_params_byte_swap-round_trip f p v =
    rw
      (
        htonl-htonl p.crosshairs_x v.x_int,
        htonl-htonl p.crosshairs_y v.y_int,
        swap32-swap32 p.analog_gain_target v.analog_float,
        swap32-swap32 p.analog_gain_tol v.analog_tol_float,
        swap32-swap32 p.digital_gain_target v.digital_float,
        swap32-swap32 p.digital_gain_tol v.digital_tol_float,
      )
      (ap (λ (c : CamParams). record p { cam_params = c }) (cam_round_trip f p.cam_params v.cam))
