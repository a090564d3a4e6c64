-- ===== src/Tcp/Swap.antt =====
-- The byte order of parameters on the wire: htonl, htonf, htond and tcp_params_byte_swap of
-- tcp_comms.c.
pub mod RoundTrip
pub mod Wire
use jpl_vision.Common.{ℕ, ◌+◌, ◌*◌, ◌/◌, ◌%◌, ◌^◌, ◌≤◌, ◌<◌, ◌≡◌, refl, arith}
use jpl_vision.Common.Int.{ℤ, pos, negsuc, ◌≤ℤ◌, signed32, pattern32}
use jpl_vision.Tcp.Types.{CamParams, TcpParams, Floats}

-- The four bytes of a word in the other order.
pub swap32 : ℕ → ℕ
swap32 w = w % 256 * 2 ^ 24 + w / 2 ^ 8 % 256 * 2 ^ 16 + w / 2 ^ 16 % 256 * 2 ^ 8 + w / 2 ^ 24 % 256

-- The eight bytes of a double in the other order.
pub swap64 : ℕ → ℕ
unfolding swap32
swap64 w = swap32 (w % 2 ^ 32) * 2 ^ 32 + swap32 (w / 2 ^ 32)

-- An int goes through its pattern.
pub htonl : ℤ → ℤ
unfolding swap32
htonl z = signed32 (swap32 (pattern32 z))

-- htond returns a float, which is assigned to a double.
pub htond : Floats → ℕ → ℕ
unfolding swap64
htond f w = f.narrow (swap64 w)

pub cam_params_byte_swap : Floats → CamParams → CamParams
cam_params_byte_swap f c = record c {
  sharpness = htonl c.sharpness;
  contrast = htonl c.contrast;
  brightness = htonl c.brightness;
  saturation = htonl c.saturation;
  iso = htonl c.iso;
  video_stabilisation = htonl c.video_stabilisation;
  exposure_compensation = htonl c.exposure_compensation;
  exposure_mode = htonl c.exposure_mode;
  exposure_meter_mode = htonl c.exposure_meter_mode;
  awb_mode = htonl c.awb_mode;
  rotation = htonl c.rotation;
  hflip = htonl c.hflip;
  vflip = htonl c.vflip;
  roi_x = htond f c.roi_x;
  roi_y = htond f c.roi_y;
  roi_w = htond f c.roi_w;
  roi_h = htond f c.roi_h;
  shutter_speed = htonl c.shutter_speed;
  awb_gains_r = swap32 c.awb_gains_r;
  awb_gains_b = swap32 c.awb_gains_b;
  drc_level = htonl c.drc_level;
}

pub tcp_params_byte_swap : Floats → TcpParams → TcpParams
unfolding cam_params_byte_swap
tcp_params_byte_swap f p = record p {
  cam_params = cam_params_byte_swap f p.cam_params;
  analog_gain_target = swap32 p.analog_gain_target;
  analog_gain_tol = swap32 p.analog_gain_tol;
  digital_gain_target = swap32 p.digital_gain_target;
  digital_gain_tol = swap32 p.digital_gain_tol;
  crosshairs_x = htonl p.crosshairs_x;
  crosshairs_y = htonl p.crosshairs_y;
}
