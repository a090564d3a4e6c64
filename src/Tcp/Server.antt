-- ===== src/Tcp/Server.antt =====
-- The server of tcp_comms.c: tcp_params_construct, and the connections that server_thread accepts. The
-- array has 256 slots; the model does not stop at its end.
pub mod Slots
use jpl_vision.Common.{
  ℕ, ◌+◌, Bool, true, false, Option, none, some, List, [], ◌∷◌, leb, if◌then◌else◌,
}
use jpl_vision.Common.Memory.{Array, update}
use jpl_vision.Common.Int.{ℤ, pos, is_zero}
use jpl_vision.Tcp.Types.{CamParams, TcpParams, Floats, float_zero}
use jpl_vision.Tcp.Swap.{tcp_params_byte_swap}

abbrev pub max_connections : ℕ
max_connections = 256

-- raspicamcontrol_set_defaults, for the parameters that are used
unfoldable pub set_defaults : Floats → CamParams
set_defaults f = record {
  sharpness = pos 0;
  contrast = pos 0;
  brightness = pos 50;
  saturation = pos 0;
  iso = pos 0;
  video_stabilisation = pos 0;
  exposure_compensation = pos 0;
  exposure_mode = pos 1;
  exposure_meter_mode = pos 0;
  awb_mode = pos 1;
  image_effect = pos 0;
  colour_enable = pos 0;
  colour_u = pos 128;
  colour_v = pos 128;
  rotation = pos 0;
  hflip = pos 0;
  vflip = pos 0;
  roi_x = f.to_double (pos 0);
  roi_y = f.to_double (pos 0);
  roi_w = f.to_double (pos 1);
  roi_h = f.to_double (pos 1);
  shutter_speed = pos 0;
  awb_gains_r = float_zero;
  awb_gains_b = float_zero;
  drc_level = pos 0;
  stats_pass = pos 0;
}

-- The patterns of -1.0 and 0.1 as floats.
abbrev float_minus_one : ℕ
float_minus_one = 0xbf80_0000

abbrev float_tenth : ℕ
float_tenth = 0x3dcc_cccd

-- `status` is what pthread_mutex_init returns: it is returned at once if it is not 0.
pub tcp_params_construct : Floats → ℤ → TcpParams → TcpParams × ℤ
unfolding set_defaults
tcp_params_construct f status p =
    if is_zero status
    then (
      record {
        cam_params = set_defaults f;
        test_img_enable = pos 0;
        yuv_write = pos 0;
        jpg_write = pos 0;
        detect_yuv = pos 0;
        blob_yuv_min = update (update (update p.blob_yuv_min 0 0) 1 0) 2 0;
        blob_yuv_max = update (update (update p.blob_yuv_max 0 0) 1 0) 2 0;
        analog_gain_target = float_minus_one;
        analog_gain_tol = float_tenth;
        digital_gain_target = float_minus_one;
        digital_gain_tol = float_tenth;
        crosshairs_x = pos 0;
        crosshairs_y = pos 0;
      },
      pos 0,
    )
    else (p, status)

pub record Slot : Type 0 where
  pub fd : ℕ
  pub is_connected : Bool

-- `work` is the index of the slot that conn_args_ptr points at.
pub record Server : Type 0 where
  pub slots : Array Slot
  pub connection_count : ℕ
  pub work : ℕ
  pub params : TcpParams

-- One connection: its descriptor, the parameters if a whole Tcp_Params has come, and whether
-- pthread_create starts its thread.
pub record Accept : Type 0 where
  pub socket : ℕ
  pub sent : Option TcpParams
  pub started : Bool

-- The fields that are taken over are all but the mutex.
pub take_params : Floats → TcpParams → Option TcpParams → TcpParams
take_params f p none = p
take_params f p (some msg) = tcp_params_byte_swap f msg

-- One round of the loop: the server, the parameters that it sends, and whether it goes on.
pub accept_round : Floats → Server → Accept → Server × Option TcpParams × Bool
unfolding take_params
accept_round f s a =
    let slots = update s.slots s.work (record { fd = a.socket; is_connected = true }) in
    let params = take_params f s.params a.sent in
    let count = s.connection_count + 1 in
    if leb max_connections s.connection_count then (record s { slots = slots }, none, true) else (
      record {
        slots = slots;
        connection_count = count;
        work = if a.started then count else s.work;
        params = params;
      },
      some (tcp_params_byte_swap f params),
      a.started,
    )

-- The loop, as long as threads can be started.
pub accept_rounds : Floats → Server → List Accept → Server
unfolding accept_round
accept_rounds f s [] = s
accept_rounds f s (a ∷ as') =
    let (s', sent, goes_on) = accept_round f s a in
    let rest = accept_rounds f s' as' in if goes_on then rest else s'

pub server_thread : Floats → Array Slot → TcpParams → List Accept → Server
unfolding accept_rounds
server_thread f slots p as' =
    accept_rounds f (record { slots = slots; connection_count = 0; work = 0; params = p }) as'
