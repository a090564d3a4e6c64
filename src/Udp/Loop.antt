-- ===== src/Udp/Loop.antt =====
-- The rounds of message_loop of udp_comms.c: select has run into its timeout, or a packet has come.
pub mod Invariant
pub mod Samples
pub mod Gains
pub mod Statistics
use jpl_vision.Common.{ℕ, zero, suc, ◌+◌, Bool, List, [], ◌∷◌, ◌==◌, if◌then◌else◌}
use jpl_vision.Common.Int.{ℤ, pos, negsuc, ltb_ℤ}
use jpl_vision.Udp.Types.{SockAddr, EchoTime, SendTo, UdpComms}
use jpl_vision.Udp.Table.{lookup_client_info}
use jpl_vision.Udp.Send.{send_request_time}
use jpl_vision.Udp.Echo.{handle_echo_time}

abbrev id_echo_time : ℕ
id_echo_time = 2

-- What recvfrom gives: its return value, the sender, and the packet read as an Echo_Time.
pub record Packet : Type 0 where
  pub bytes : ℤ
  pub addr : SockAddr
  pub addr_len : ℕ
  pub msg_id : ℕ
  pub echo : EchoTime

-- The arguments of the loop that the handlers get.
pub record Limits : Type 0 where
  pub max_samples : ℕ
  pub max_round_trip_usecs : ℤ

-- One round, with what sendto returns in it, and the times that get_usecs returns.
pub data Event : Type 0 where
  timeout : SendTo → (ℕ → ℤ) → Event
  message : SendTo → Packet → ℤ → ℤ → Event

-- After a timeout a Request_Time is sent to all clients, here from `j` on.
pub resend_from : ℕ → SendTo → UdpComms → ℕ → (ℕ → ℤ) → UdpComms
resend_from zero sendto p j usec = p
resend_from (suc n) sendto p j usec =
    resend_from n sendto (send_request_time sendto p j (usec j)).0 (j + 1) usec

-- The message goes to its handler, if its sender is a client or becomes one.
pub dispatch : SendTo → Limits → Packet → ℤ → ℤ → UdpComms → ℤ → UdpComms
dispatch sendto l m arrive_usec usec p (negsuc n) = p
dispatch sendto l m arrive_usec usec p (pos client_no) =
    if m.msg_id == id_echo_time
    then (handle_echo_time sendto p client_no m.echo arrive_usec l.max_samples
        l.max_round_trip_usecs usec).0
    else p

pub handle_packet : SendTo → Limits → Packet → ℤ → ℤ → UdpComms → UdpComms
unfolding dispatch
handle_packet sendto l m arrive_usec usec p =
    let (q, client_no) = lookup_client_info p m.addr m.addr_len in
    if ltb_ℤ m.bytes (pos 1) then p else dispatch sendto l m arrive_usec usec q client_no

pub loop_round : Limits → UdpComms → Event → UdpComms
unfolding resend_from handle_packet
loop_round l p (timeout sendto usec) = resend_from p.client_count sendto p 0 usec
loop_round l p (message sendto m arrive_usec usec) = handle_packet sendto l m arrive_usec usec p

-- The default host's addresses are looked up before the first round.
pub add_hosts : List (SockAddr × ℕ) → UdpComms → UdpComms
add_hosts [] p = p
add_hosts ((addr, addr_len) ∷ hosts) p = add_hosts hosts (lookup_client_info p addr addr_len).0

pub rounds : Limits → UdpComms → List Event → UdpComms
unfolding loop_round
rounds l p [] = p
rounds l p (e ∷ es) = rounds l (loop_round l p e) es

pub message_loop : Limits → UdpComms → List (SockAddr × ℕ) → List Event → UdpComms
unfolding add_hosts rounds
message_loop l p hosts events = rounds l (add_hosts hosts (record p { client_count = 0 })) events
