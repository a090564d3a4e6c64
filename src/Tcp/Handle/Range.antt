-- ===== src/Tcp/Handle/Range.antt =====
-- The parameters stay within their ranges, whatever messages come, and so do the arguments of all
-- calls of the camera's setters.
use jpl_vision.Common.{ℕ, ◌≡◌, ◌⊎◌, false, Option, none, some, List, [], ◌∷◌, ◌++◌, arith}
use jpl_vision.Common.Memory.{Array}
use jpl_vision.Common.Int.{ℤ, pos, negsuc, ◌≤ℤ◌}
use jpl_vision.Tcp.Types.{
  CamParams, TcpParams, Floats, float_zero, float_one, CameraCall, set_saturation, set_sharpness,
  set_contrast, set_brightness, set_iso, set_metering_mode, set_video_stabilisation,
  set_exposure_compensation, set_exposure_mode, set_awb_mode, set_image_fx, set_rotation,
  set_shutter_speed, set_drc, set_stats_pass, set_awb_gains, set_colour_fx, set_flips, set_roi,
}
use jpl_vision.Tcp.Handle.{
  Tag, quit, flips, roi, received, switch, finish, handle, Connection, message_round, tag_in, tags,
}
use jpl_vision.Tcp.Cases.{int_at, limited_at, int_limit, float_limit, word_at, Handled}

abbrev pub Between : ℤ → ℤ → ℤ → Type 0
Between low high v = (low ≤ℤ v) × (v ≤ℤ high)

-- A corner or a side of the region of interest is 0 or 1.
abbrev pub ZeroOrOne : Floats → ℕ → Type 0
ZeroOrOne f v = (v ≡ f.to_double (pos 0)) ⊎ (v ≡ f.to_double (pos 1))

-- The ranges that the comments of RASPICAM_CAMERA_PARAMETERS give, and those of the enumerations.
pub record InRange (f : Floats) (c : CamParams) : Type 0 where
  pub sharpness_in : Between (negsuc 99) (pos 100) c.sharpness
  pub contrast_in : Between (negsuc 99) (pos 100) c.contrast
  pub brightness_in : Between (pos 0) (pos 100) c.brightness
  pub saturation_in : Between (negsuc 99) (pos 100) c.saturation
  pub stabilisation_in : Between (pos 0) (pos 1) c.video_stabilisation
  pub compensation_in : Between (negsuc 9) (pos 10) c.exposure_compensation
  pub exposure_in : Between (pos 0) (pos 12) c.exposure_mode
  pub metering_in : Between (pos 0) (pos 3) c.exposure_meter_mode
  pub awb_in : Between (pos 0) (pos 9) c.awb_mode
  pub effect_in : Between (pos 0) (pos 22) c.image_effect
  pub enable_in : Between (pos 0) (pos 1) c.colour_enable
  pub u_in : Between (pos 0) (pos 255) c.colour_u
  pub v_in : Between (pos 0) (pos 255) c.colour_v
  pub rotation_in : Between (pos 0) (pos 359) c.rotation
  pub hflip_in : Between (pos 0) (pos 1) c.hflip
  pub vflip_in : Between (pos 0) (pos 1) c.vflip
  pub roi_x_in : ZeroOrOne f c.roi_x
  pub roi_y_in : ZeroOrOne f c.roi_y
  pub roi_w_in : ZeroOrOne f c.roi_w
  pub roi_h_in : ZeroOrOne f c.roi_h
  pub drc_in : Between (pos 0) (pos 3) c.drc_level
  pub stats_pass_in : Between (pos 0) (pos 1) c.stats_pass

-- The same of the arguments of a call; three setters take any value.
abbrev pub CallInRange : Floats → CameraCall → Type 0
CallInRange f (set_saturation v) = Between (negsuc 99) (pos 100) v
CallInRange f (set_sharpness v) = Between (negsuc 99) (pos 100) v
CallInRange f (set_contrast v) = Between (negsuc 99) (pos 100) v
CallInRange f (set_brightness v) = Between (pos 0) (pos 100) v
CallInRange f (set_iso v) = Unit {0}
CallInRange f (set_metering_mode v) = Between (pos 0) (pos 3) v
CallInRange f (set_video_stabilisation v) = Between (pos 0) (pos 1) v
CallInRange f (set_exposure_compensation v) = Between (negsuc 9) (pos 10) v
CallInRange f (set_exposure_mode v) = Between (pos 0) (pos 12) v
CallInRange f (set_awb_mode v) = Between (pos 0) (pos 9) v
CallInRange f (set_image_fx v) = Between (pos 0) (pos 22) v
CallInRange f (set_rotation v) = Between (pos 0) (pos 359) v
CallInRange f (set_shutter_speed v) = Unit {0}
CallInRange f (set_drc v) = Between (pos 0) (pos 3) v
CallInRange f (set_stats_pass v) = Between (pos 0) (pos 1) v
CallInRange f (set_awb_gains r b) = Unit {0}
CallInRange f (set_colour_fx e u v) =
    Between (pos 0) (pos 1) e × Between (pos 0) (pos 255) u × Between (pos 0) (pos 255) v
CallInRange f (set_flips h v) = Between (pos 0) (pos 1) h × Between (pos 0) (pos 1) v
CallInRange f (set_roi x y w h) = ZeroOrOne f x × ZeroOrOne f y × ZeroOrOne f w × ZeroOrOne f h

abbrev pub AllInRange : Floats → List CameraCall → Type 0
AllInRange f [] = Unit {0}
AllInRange f (c ∷ cs) = CallInRange f c × AllInRange f cs

-- What a handler leaves is within the ranges.
abbrev pub HandledInRange : Floats → Handled → Type 0
HandledInRange f none = Unit {0}
HandledInRange f (some (p, calls)) = InRange f p.cam_params × AllInRange f calls

-- A conversion to int cuts off the fraction: it gives 0 below 1.0, and 1 at 1.0. A NaN gives 0, as
-- on the ARM.
pub record CutsOff (f : Floats) : Type 0 where
  pub at_zero : f.to_int float_zero ≡ pos 0
  pub at_one : f.to_int float_one ≡ pos 1
  pub between :
      (v : ℕ)
      → f.lt v float_zero ≡ false
      → f.lt float_one v ≡ false
      → (f.to_int v ≡ pos 0) ⊎ (f.to_int v ≡ pos 1)

int_limit-Between : (low high v : ℤ) → low ≤ℤ high → Between low high (int_limit low high v)
unfolding int_limit
int_limit-Between low high v h = ground arith

float_limit-ZeroOrOne :
    (f : Floats) → CutsOff f → (v : ℕ) → ZeroOrOne f (f.to_double (float_limit f v))
unfolding float_limit
float_limit-ZeroOrOne f c v = ground (arith, c.at_zero, c.at_one, c.between v)

pub handle-InRange :
    (f : Floats) (t : Tag) (m : Array ℕ) (n : ℕ) (p : TcpParams)
    → CutsOff f
    → InRange f p.cam_params
    → HandledInRange f (handle f t m n p)
unfolding handle
handle-InRange f quit m n p c v =
    ground (arith, int_limit-Between (negsuc 99) (pos 100) (int_at m 4))
handle-InRange f flips m n p c v = ground (
  arith,
  int_limit-Between (pos 0) (pos 1) (int_at m 4),
  int_limit-Between (pos 0) (pos 1) (int_at m 8),
)
handle-InRange f roi m n p c v = ground (
  arith,
  float_limit-ZeroOrOne f c (word_at m 4),
  float_limit-ZeroOrOne f c (word_at m 8),
  float_limit-ZeroOrOne f c (word_at m 12),
  float_limit-ZeroOrOne f c (word_at m 16),
)
handle-InRange f _ m n p c v = ground (
  arith,
  limit 100,
  limit 3,
  limit 1,
  limit 12,
  limit 9,
  limit 22,
  limit 359,
  int_limit-Between (negsuc 99) (pos 100) (int_at m 4),
  int_limit-Between (negsuc 9) (pos 10) (int_at m 4),
  int_limit-Between (pos 0) (pos 255) (int_at m 8),
  int_limit-Between (pos 0) (pos 255) (int_at m 12),
)
  where
    limit : (high : ℕ) → Between (pos 0) (pos high) (limited_at m 4 (pos 0) (pos high))
    limit high = int_limit-Between (pos 0) (pos high) (int_at m 4) (omega arith)

switch-InRange :
    (f : Floats) (o : Option Tag) (m : Array ℕ) (n : ℕ) (p : TcpParams)
    → CutsOff f
    → InRange f p.cam_params
    → HandledInRange f (switch f o m n p)
unfolding switch
switch-InRange f none m n p c v = (v, tt)
switch-InRange f (some t) m n p c v = handle-InRange f t m n p c v

finish-InRange :
    (f : Floats) (c : Connection) (m : Array ℕ) (h : Handled)
    → InRange f c.params.cam_params
    → HandledInRange f h
    → let r = finish c m h in InRange f r.state.params.cam_params × AllInRange f r.calls
unfolding finish
finish-InRange f c m none v h = (v, tt)
finish-InRange f c m (some (p, calls)) v h = h

message_round-InRange :
    (f : Floats) (c : Connection) (packet : Array ℕ) (bytes : ℕ)
    → CutsOff f
    → InRange f c.params.cam_params
    → let r = message_round f c packet bytes in
      InRange f r.state.params.cam_params × AllInRange f r.calls
unfolding message_round
message_round-InRange f c packet bytes k v =
    let m = received c.mesg packet bytes in
    finish-InRange f c m (switch f (tag_in tags 0 (m 0)) m bytes c.params) v
      (switch-InRange f (tag_in tags 0 (m 0)) m bytes c.params k v)

-- The message_rounds of a connection: the final state and all calls of setters, in order.
pub message_rounds : Floats → Connection → List (Array ℕ × ℕ) → Connection × List CameraCall
message_rounds f c [] = (c, [])
message_rounds f c ((packet, bytes) ∷ ms) =
    let r = message_round f c packet bytes in
    let (d, calls) = message_rounds f r.state ms in (d, r.calls ++ calls)

AllInRange-append :
    (f : Floats) (xs ys : List CameraCall)
    → AllInRange f xs
    → AllInRange f ys
    → AllInRange f (xs ++ ys)
AllInRange-append f [] ys h k = k
AllInRange-append f (x ∷ xs) ys h k = (h.0, AllInRange-append f xs ys h.1 k)

-- If the conversion of a float to an int cuts off the fraction: from parameters within their ranges,
-- whatever messages come, in whatever sizes, the parameters stay within their ranges, and so are the
-- arguments of every call of a camera setter. In the region of interest each number is 0 or 1, since
-- float_limit returns an int.
pub message_rounds-InRange :
    (f : Floats) (c : Connection) (messages : List (Array ℕ × ℕ))
    → CutsOff f
    → InRange f c.params.cam_params
    → let (d, calls) = message_rounds f c messages in
      InRange f d.params.cam_params × AllInRange f calls
unfolding message_rounds
message_rounds-InRange f c [] k v = (v, tt)
message_rounds-InRange f c ((packet, bytes) ∷ ms) k v =
    let (w, made) = message_round-InRange f c packet bytes k v in
    let (end, rest) = message_rounds-InRange f (message_round f c packet bytes).state ms k w in
    (end, AllInRange-append f (message_round f c packet bytes).calls _ made rest)
