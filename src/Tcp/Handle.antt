-- ===== src/Tcp/Handle.antt =====
-- The messages of a connection: connection_thread of tcp_comms.c.
pub mod Range
pub mod Received
pub mod Errors
use jpl_vision.Common.{
  ℕ, ◌+◌, ◌*◌, ◌^◌, Bool, true, false, ◌||◌, Option, none, some, List, [], ◌∷◌, ltb, ◌==◌,
  if◌then◌else◌,
}
use jpl_vision.Common.Memory.{Array, update}
use jpl_vision.Common.Int.{ℤ, pos, negsuc, signed32, ltb_ℤ}
use jpl_vision.Tcp.Types.{
  CamParams, TcpParams, Floats, float_zero, float_one, CameraCall, set_saturation, set_sharpness,
  set_contrast, set_brightness, set_iso, set_metering_mode, set_video_stabilisation,
  set_exposure_compensation, set_exposure_mode, set_awb_mode, set_image_fx, set_rotation,
  set_shutter_speed, set_drc, set_stats_pass, set_awb_gains, set_colour_fx, set_flips, set_roi,
}
use jpl_vision.Tcp.Cases.{
  int_limit, float_limit, word_at, int_at, limited_at, Handled, needs, with_cam, colour_fx_case,
  flips_case, roi_case, blob_yuv_case, freeze_exposure_case, crosshairs_case,
}

-- The tags of messages, in the order of their numbers from 0.
pub data Tag : Type 0 where
  quit saturation sharpness contrast brightness iso metering_mode video_stabilisation
        exposure_compensation exposure_mode awb_mode awb_gains image_fx colour_fx rotation flips roi
        shutter_speed drc stats_pass test_image_enable yuv_write_enable jpg_write_enable
        detect_yuv_enable blob_yuv freeze_exposure crosshairs :
      Tag

abbrev pub tags : List Tag
tags =
    quit ∷ saturation ∷ sharpness ∷ contrast ∷ brightness ∷ iso ∷ metering_mode
    ∷ video_stabilisation ∷ exposure_compensation ∷ exposure_mode ∷ awb_mode ∷ awb_gains ∷ image_fx
    ∷ colour_fx ∷ rotation ∷ flips ∷ roi ∷ shutter_speed ∷ drc ∷ stats_pass ∷ test_image_enable
    ∷ yuv_write_enable ∷ jpg_write_enable ∷ detect_yuv_enable ∷ blob_yuv ∷ freeze_exposure
    ∷ crosshairs ∷ []

-- The cases of the switch. RASPICAM_QUIT falls through to RASPICAM_SATURATION.
pub handle : Floats → Tag → Array ℕ → ℕ → TcpParams → Handled
handle f quit m n p =
    let v = limited_at m 4 (negsuc 99) (pos 100) in
    needs n 8 (with_cam p (record p.cam_params { saturation = v })) (set_saturation v ∷ [])
handle f saturation m n p =
    let v = limited_at m 4 (negsuc 99) (pos 100) in
    needs n 8 (with_cam p (record p.cam_params { saturation = v })) (set_saturation v ∷ [])
handle f sharpness m n p =
    let v = limited_at m 4 (negsuc 99) (pos 100) in
    needs n 8 (with_cam p (record p.cam_params { sharpness = v })) (set_sharpness v ∷ [])
handle f contrast m n p =
    let v = limited_at m 4 (negsuc 99) (pos 100) in
    needs n 8 (with_cam p (record p.cam_params { contrast = v })) (set_contrast v ∷ [])
handle f brightness m n p =
    let v = limited_at m 4 (pos 0) (pos 100) in
    needs n 8 (with_cam p (record p.cam_params { brightness = v })) (set_brightness v ∷ [])
handle f iso m n p =
    let v = int_at m 4 in needs n 8 (with_cam p (record p.cam_params { iso = v })) (set_iso v ∷ [])
handle f metering_mode m n p =
    let v = limited_at m 4 (pos 0) (pos 3) in
    needs n 8 (with_cam p (record p.cam_params { exposure_meter_mode = v }))
      (set_metering_mode v ∷ [])
handle f video_stabilisation m n p =
    let v = limited_at m 4 (pos 0) (pos 1) in
    needs n 8 (with_cam p (record p.cam_params { video_stabilisation = v }))
      (set_video_stabilisation v ∷ [])
handle f exposure_compensation m n p =
    let v = limited_at m 4 (negsuc 9) (pos 10) in
    needs n 8 (with_cam p (record p.cam_params { exposure_compensation = v }))
      (set_exposure_compensation v ∷ [])
handle f exposure_mode m n p =
    let v = limited_at m 4 (pos 0) (pos 12) in
    needs n 8 (with_cam p (record p.cam_params { exposure_mode = v })) (set_exposure_mode v ∷ [])
handle f awb_mode m n p =
    let v = limited_at m 4 (pos 0) (pos 9) in
    needs n 8 (with_cam p (record p.cam_params { awb_mode = v })) (set_awb_mode v ∷ [])
handle f awb_gains m n p =
    let r = word_at m 4 in
    let b = word_at m 8 in
    needs n 12 (with_cam p (record p.cam_params { awb_gains_r = r; awb_gains_b = b }))
      (set_awb_gains r b ∷ [])
handle f image_fx m n p =
    let v = limited_at m 4 (pos 0) (pos 22) in
    needs n 8 (with_cam p (record p.cam_params { image_effect = v })) (set_image_fx v ∷ [])
handle f colour_fx m n p = colour_fx_case m n p
handle f rotation m n p =
    let v = limited_at m 4 (pos 0) (pos 359) in
    needs n 8 (with_cam p (record p.cam_params { rotation = v })) (set_rotation v ∷ [])
handle f flips m n p = flips_case m n p
handle f roi m n p = roi_case f m n p
handle f shutter_speed m n p =
    let v = int_at m 4 in
    needs n 8 (with_cam p (record p.cam_params { shutter_speed = v })) (set_shutter_speed v ∷ [])
handle f drc m n p =
    let v = limited_at m 4 (pos 0) (pos 3) in
    needs n 8 (with_cam p (record p.cam_params { drc_level = v })) (set_drc v ∷ [])
handle f stats_pass m n p =
    let v = limited_at m 4 (pos 0) (pos 1) in
    needs n 8 (with_cam p (record p.cam_params { stats_pass = v })) (set_stats_pass v ∷ [])
handle f test_image_enable m n p =
    needs n 8 (record p { test_img_enable = limited_at m 4 (pos 0) (pos 1) }) []
handle f yuv_write_enable m n p =
    needs n 8 (record p { yuv_write = limited_at m 4 (pos 0) (pos 1) }) []
handle f jpg_write_enable m n p =
    needs n 8 (record p { jpg_write = limited_at m 4 (pos 0) (pos 1) }) []
handle f detect_yuv_enable m n p =
    needs n 8 (record p { detect_yuv = limited_at m 4 (pos 0) (pos 1) }) []
handle f blob_yuv m n p = blob_yuv_case m n p
handle f freeze_exposure m n p = freeze_exposure_case m n p
handle f crosshairs m n p = crosshairs_case m n p

-- The case for a byte, if there is one.
unfoldable pub tag_in : List Tag → ℕ → ℕ → Option Tag
tag_in [] number byte = none
tag_in (t ∷ ts) number byte = if byte == number then some t else tag_in ts (number + 1) byte

pub record Connection : Type 0 where
  pub mesg : Array ℕ
  pub error_seen : Bool
  pub params : TcpParams

-- What a round of the loop shows: the calls of setters, and whether too few bytes are reported.
pub record MessageRound : Type 0 where
  pub state : Connection
  pub calls : List CameraCall
  pub too_few : Bool

-- recv has written the first `bytes` bytes of the buffer.
abbrev pub received : Array ℕ → Array ℕ → ℕ → Array ℕ
received mesg packet bytes k = if ltb k bytes then packet k else mesg k

pub switch : Floats → Option Tag → Array ℕ → ℕ → TcpParams → Handled
unfolding handle
switch f (some t) mesg bytes p = handle f t mesg bytes p
switch f none mesg bytes p = some (p, [])

-- error_seen is never reset, and decides whether too few bytes are reported.
pub finish : Connection → Array ℕ → Handled → MessageRound
finish c mesg (some (p, calls)) = record {
  state = record { mesg = mesg; error_seen = c.error_seen; params = p };
  calls = calls;
  too_few = c.error_seen;
}
finish c mesg none = record {
  state = record { mesg = mesg; error_seen = true; params = c.params };
  calls = [];
  too_few = true;
}

pub message_round : Floats → Connection → Array ℕ → ℕ → MessageRound
unfolding tag_in switch finish
message_round f c packet bytes =
    let mesg = received c.mesg packet bytes in
    finish c mesg (switch f (tag_in tags 0 (mesg 0)) mesg bytes c.params)
