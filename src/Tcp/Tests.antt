-- ===== src/Tcp/Tests.antt =====
-- A connection whose third message is the first that is too short, and a server with two connections.
use jpl_vision.Common.{
  ℕ, ◌≡◌, refl, true, false, none, some, List, [], ◌∷◌, ltb, ◌==◌, length, map, take, min,
  if◌then◌else◌, arith,
}
use jpl_vision.Common.Memory.{Array}
use jpl_vision.Common.Int.{pos, negsuc, pattern32}
use jpl_vision.Tcp.Types.{TcpParams, Floats, float_one}
use jpl_vision.Tcp.Handle.{Connection, message_round, iso, tag_in}
use jpl_vision.Tcp.Handle.Received.{SameRound, message_round-received}
use jpl_vision.Tcp.Handle.Range.{
  message_rounds, InRange, AllInRange, CutsOff, message_rounds-InRange,
}
use jpl_vision.Tcp.Handle.Errors.{reports, AllTrue, message_round_short}
use jpl_vision.Tcp.Swap.{tcp_params_byte_swap}
use jpl_vision.Tcp.Swap.RoundTrip.{IsParams, with_roi_of}
use jpl_vision.Tcp.Swap.Wire.{
  memory, network, network64, from_memory, ints, floats_of, region, kept_ints,
  tcp_params_byte_swap_lem,
}
use jpl_vision.Tcp.Server.{Slot, Accept, max_connections, accept_round, server_thread, set_defaults}
use jpl_vision.Tcp.Server.Slots.{connected_slot, server_thread-slots}
use jpl_vision.Tcp.Text.{text_message, tcp_comms_send_string}
use jpl_vision.Tcp.Text.Clients.{until_nul, tcp_comms_send_string-server_thread}

-- Positive floats are ordered as their patterns.
abbrev floats : Floats
floats = record {
  lt = ltb;
  to_int = λ w. if ltb w float_one then pos 0 else pos 1;
  to_double = λ z. elim z [ pos n ↦ if n == 0 then 0 else 0x3ff0_0000_0000_0000 | negsuc n ↦ 0 ];
  narrow = λ w. w;
}

abbrev fresh : TcpParams
fresh = record {
  cam_params = set_defaults floats;
  test_img_enable = pos 0;
  yuv_write = pos 0;
  jpg_write = pos 0;
  detect_yuv = pos 0;
  blob_yuv_min = λ k. 0;
  blob_yuv_max = λ k. 0;
  analog_gain_target = 0;
  analog_gain_tol = 0;
  digital_gain_target = 0;
  digital_gain_tol = 0;
  crosshairs_x = pos 0;
  crosshairs_y = pos 0;
}

abbrev connection : Connection
connection = record { mesg = λ k. 7; error_seen = false; params = fresh }

-- ROI with the corner (0.5, 1.0) and all other bytes 0.
abbrev roi_packet : Array ℕ
roi_packet k =
    if k == 0
    then 16
    else if k == 4
    then 0x3f
    else if k == 8
    then 0x3f
    else if k == 9
    then 0x80
    else 0

-- BRIGHTNESS with 2^31.
abbrev bright_packet : Array ℕ
bright_packet k = if k == 0 then 4 else if k == 4 then 128 else 0

abbrev iso_packet : Array ℕ
iso_packet k = if k == 0 then 5 else 0

message_round-received_example :
    SameRound
      (message_round floats connection roi_packet 20)
      (message_round floats (record connection { mesg = λ k. 0 }) roi_packet 20)
message_round-received_example =
    message_round-received floats connection (λ k. 0) roi_packet 20 (omega arith)

floats-CutsOff : CutsOff floats
floats-CutsOff = record { at_zero = refl; at_one = refl; between = λ v a b. ground arith }

defaults-InRange : InRange floats (set_defaults floats)
unfolding set_defaults
defaults-InRange = ground arith

message_rounds-InRange_example :
    let (d, calls) =
      message_rounds floats connection ((roi_packet, 20) ∷ (bright_packet, 8) ∷ []) in
    InRange floats d.params.cam_params × AllInRange floats calls
message_rounds-InRange_example =
    message_rounds-InRange floats connection ((roi_packet, 20) ∷ (bright_packet, 8) ∷ [])
      floats-CutsOff defaults-InRange

message_round_short_example :
    let r = message_round floats connection iso_packet 4 in
    (r.state.params ≡ fresh)
    × (r.calls ≡ [])
    × (r.too_few ≡ true)
    × AllTrue (reports floats r.state ((bright_packet, 8) ∷ []))
unfolding tag_in
message_round_short_example =
    message_round_short floats connection iso_packet 4 iso ((bright_packet, 8) ∷ []) refl
      (omega arith)

fresh-IsParams : IsParams fresh
unfolding set_defaults
fresh-IsParams = ground arith

tcp_params_byte_swap_lem_example :
    let q = tcp_params_byte_swap floats fresh in
    let r = tcp_params_byte_swap floats q in
    (map (λ z. memory (pattern32 z)) (ints q) ≡ map (λ z. network (pattern32 z)) (ints fresh))
    × (map memory (floats_of q) ≡ map network (floats_of fresh))
    × (region q ≡ map (λ w. floats.narrow (from_memory (network64 w))) (region fresh))
    × (kept_ints q ≡ kept_ints fresh)
    × (q.blob_yuv_min ≡ fresh.blob_yuv_min)
    × (q.blob_yuv_max ≡ fresh.blob_yuv_max)
    × (r ≡ record fresh { cam_params = with_roi_of r.cam_params fresh.cam_params })
tcp_params_byte_swap_lem_example = tcp_params_byte_swap_lem floats fresh fresh-IsParams

abbrev accepts : List Accept
accepts =
    record { socket = 4; sent = some fresh; started = true }
    ∷ record { socket = 9; sent = none; started = true }
    ∷ []

abbrev no_slots : Array Slot
no_slots k = record { fd = 0; is_connected = false }

server_thread-slots_example :
    let t = server_thread floats no_slots fresh accepts in
    (t.connection_count ≡ min 2 max_connections)
    × (t.slots 1 ≡ connected_slot (record { socket = 9; sent = none; started = true }))
    × ((accept_round floats t (record { socket = 7; sent = none; started = true })).0.slots 2
        ≡ connected_slot (record { socket = 7; sent = none; started = true }))
server_thread-slots_example =
    server_thread-slots floats no_slots fresh accepts 1
      (record { socket = 9; sent = none; started = true })
      (record { socket = 7; sent = none; started = true }) (refl, (refl, tt)) (omega arith) refl

tcp_comms_send_string-server_thread_example :
    let msg = text_message 114 (72 ∷ 105 ∷ []) in
    (tcp_comms_send_string (server_thread floats no_slots fresh accepts) 114 (72 ∷ 105 ∷ [])
      ≡ map (λ (a : Accept). (a.socket, msg)) (take max_connections accepts))
    × ((text : List ℕ) × (msg ≡ 114 ∷ text)
        × (length text ≡ 80)
        × (until_nul text ≡ take 80 (72 ∷ 105 ∷ [])))
tcp_comms_send_string-server_thread_example =
    tcp_comms_send_string-server_thread floats no_slots fresh accepts 114 (72 ∷ 105 ∷ [])
      (refl, (refl, tt)) ((λ e. absurd (omega (arith, e))), ((λ e. absurd (omega (arith, e))), tt))
