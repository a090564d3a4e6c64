-- ===== src/Tcp/Types.antt =====
-- The data types of tcp_comms.h, with the camera parameters of RaspiCamControl.h that are used. A
-- float stands for itself as its 32-bit pattern, and so does a value of `roi`, as a double pattern.
use jpl_vision.Common.{ℕ, Bool}
use jpl_vision.Common.Memory.{Array}
use jpl_vision.Common.Int.{ℤ}

pub record CamParams : Type 0 where
  pub sharpness : ℤ
  pub contrast : ℤ
  pub brightness : ℤ
  pub saturation : ℤ
  pub iso : ℤ
  pub video_stabilisation : ℤ
  pub exposure_compensation : ℤ
  pub exposure_mode : ℤ
  pub exposure_meter_mode : ℤ
  pub awb_mode : ℤ
  pub image_effect : ℤ
  pub colour_enable : ℤ
  pub colour_u : ℤ
  pub colour_v : ℤ
  pub rotation : ℤ
  pub hflip : ℤ
  pub vflip : ℤ
  pub roi_x : ℕ
  pub roi_y : ℕ
  pub roi_w : ℕ
  pub roi_h : ℕ
  pub shutter_speed : ℤ
  pub awb_gains_r : ℕ
  pub awb_gains_b : ℕ
  pub drc_level : ℤ
  pub stats_pass : ℤ

pub record TcpParams : Type 0 where
  pub cam_params : CamParams
  pub test_img_enable : ℤ
  pub yuv_write : ℤ
  pub jpg_write : ℤ
  pub detect_yuv : ℤ
  pub blob_yuv_min : Array ℕ
  pub blob_yuv_max : Array ℕ
  pub analog_gain_target : ℕ
  pub analog_gain_tol : ℕ
  pub digital_gain_target : ℕ
  pub digital_gain_tol : ℕ
  pub crosshairs_x : ℤ
  pub crosshairs_y : ℤ

-- The processor's work on floats: the comparison, the conversion of a float to an int and of an int
-- to a double, and a double rounded to a float and taken for a double again.
pub record Floats : Type 0 where
  pub lt : ℕ → ℕ → Bool
  pub to_int : ℕ → ℤ
  pub to_double : ℤ → ℕ
  pub narrow : ℕ → ℕ

-- The patterns of 0.0 and 1.0 as floats.
abbrev pub float_zero : ℕ
float_zero = 0

abbrev pub float_one : ℕ
float_one = 0x3f80_0000

-- The calls of the camera's setters, with their arguments.
pub data CameraCall : Type 0 where
  set_saturation set_sharpness set_contrast set_brightness set_iso set_metering_mode
        set_video_stabilisation set_exposure_compensation set_exposure_mode set_awb_mode
        set_image_fx set_rotation set_shutter_speed set_drc set_stats_pass :
      ℤ → CameraCall
  set_awb_gains : ℕ → ℕ → CameraCall
  set_colour_fx : ℤ → ℤ → ℤ → CameraCall
  set_flips : ℤ → ℤ → CameraCall
  set_roi : ℕ → ℕ → ℕ → ℕ → CameraCall
