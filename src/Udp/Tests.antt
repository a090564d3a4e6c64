-- ===== src/Udp/Tests.antt =====
-- A table of two clients, for which sends have failed in part.
use jpl_vision.Common.{
  ℕ, ◌+◌, ◌*◌, ◌≤◌, ◌<◌, ◌≡◌, ◌≢◌, refl, ◌⊎◌, true, false, List, [], ◌∷◌, ◌==◌, if◌then◌else◌,
  arith,
}
use jpl_vision.Common.Int.{pos, negsuc, quot, ◌≤ℤ◌, ltb_ℤ, is_zero}
use jpl_vision.Udp.Types.{SockAddr, inet, inet6, EchoTime, SendTo, UdpComms, request_time}
use jpl_vision.Udp.Table.{new_client, lookup_client_info, sockaddr_equal}
use jpl_vision.Udp.Table.Lookup.{
  IsTable, Client, lookup_client_info_lem, lookup_client_info-same_port,
}
use jpl_vision.Udp.Send.{udp_comms_send, udp_comms_send_blobs_to_all}
use jpl_vision.Udp.Send.Backoff.{sends, AllFalse, udp_comms_send-quiet}
use jpl_vision.Udp.Send.Blobs.{sent_to, udp_comms_send_blobs_to_all_lem}
use jpl_vision.Udp.Echo.{handle_echo_time}
use jpl_vision.Udp.Echo.Clock.{IsClock, accepted, handle_echo_time_lem}
use jpl_vision.Udp.Loop.{Limits, Event, Packet, timeout, message, add_hosts, message_loop}
use jpl_vision.Udp.Loop.Samples.{samples, sum_of, number_of}
use jpl_vision.Udp.Loop.Statistics.{message_loop_lem}

abbrev robot : SockAddr
robot = inet 2130706433 10696

abbrev two_clients : UdpComms
two_clients = record {
  client = λ i.
      if i == 0
      then record (new_client robot 16) { failed_sends = 3; last_ping_usec = pos 500 }
      else record (new_client (inet 5 9000) 16) { last_ping_usec = pos 700 };
  client_count = 2;
}

-- sendto succeeds and returns the size of the message, or fails.
abbrev sent : SendTo
sent addr addr_len msg = pos 16

abbrev unsent : SendTo
unsent addr addr_len msg = negsuc 0

abbrev echo : EchoTime
echo = record { cam_host_usec = pos 1000; client_msec = pos 77 }

abbrev limits : Limits
limits = record { max_samples = 2; max_round_trip_usecs = pos 400 }

-- A failure is logged at first, but not after a success.
first_failure_logged :
    (udp_comms_send unsent (record two_clients { client_count = 2 }) 1 (request_time (pos 1))).2
    ≡ true
unfolding udp_comms_send
first_failure_logged = refl

two_clients-IsTable : IsTable two_clients
unfolding sockaddr_equal
two_clients-IsTable = record { small = omega arith; no_doubles = λ i j a b. ground arith }

lookup_client_info_lem_example :
    let (q, retval) = lookup_client_info two_clients (inet6 8 4000) 28 in
    ((i : ℕ) × (retval ≡ pos i) × Client two_clients (inet6 8 4000) 28 q i)
    ⊎ (retval ≡ negsuc 0)
      × (q ≡ two_clients)
      × (two_clients.client_count ≡ 10)
      × ((k : ℕ) → k < 2 → sockaddr_equal (inet6 8 4000) (two_clients.client k).saddr ≡ false)
unfolding sockaddr_equal
lookup_client_info_lem_example =
    lookup_client_info_lem two_clients (inet6 8 4000) 28 two_clients-IsTable refl

lookup_client_info-same_port_example :
    (k : ℕ) × (k < 2) × (lookup_client_info two_clients (inet 99 10696) 16 ≡ (two_clients, pos k))
lookup_client_info-same_port_example =
    lookup_client_info-same_port two_clients 0 2130706433 99 10696 16 (omega arith) refl

udp_comms_send-quiet_example :
    AllFalse
      (sends
        (unsent ∷ unsent ∷ [])
        (udp_comms_send sent two_clients 0 (request_time (pos 9))).0
        0
        (request_time (pos 9))).1
unfolding udp_comms_send
udp_comms_send-quiet_example =
    udp_comms_send-quiet sent (unsent ∷ unsent ∷ []) two_clients 0 (request_time (pos 9))
      (omega arith) refl

udp_comms_send_blobs_to_all_lem_example :
    let (q, retval) = udp_comms_send_blobs_to_all sent two_clients (pos 9) [] in
    ((retval ≡ pos 0)
        × ((k : ℕ) × (k < 2) × (is_zero (sent_to sent two_clients (pos 9) [] k) ≡ true))
      ⊎ (retval ≡ negsuc 0)
        × ((k : ℕ) → k < 2 → is_zero (sent_to sent two_clients (pos 9) [] k) ≡ false))
    × ((k : ℕ)
        → k < 2
        → (q.client k).failed_sends
          ≡ (two_clients.client k).failed_sends
            + (if is_zero (sent_to sent two_clients (pos 9) [] k) then 0 else 1))
udp_comms_send_blobs_to_all_lem_example =
    udp_comms_send_blobs_to_all_lem sent two_clients (pos 9) []

handle_echo_time_lem_example :
    let (q, retval) = handle_echo_time sent two_clients 1 echo (pos 1200) 2 (pos 400) (pos 1300) in
    let c = two_clients.client 1 in
    let c' = q.client 1 in
    ((k : ℕ) → k ≢ 1 → q.client k ≡ two_clients.client k)
    × (IsClock 2 c → IsClock 2 c')
    × (c'.min_offset_usec ≤ℤ c.min_offset_usec)
    × (c'.sample_count ≡ c.sample_count + (if accepted (pos 200) (pos 400) then 1 else 0))
    × (c'.saddr ≡ c.saddr)
    × (q.client_count ≡ 2)
    × (ltb_ℤ (pos 200) (pos 0) ≡ true → (q ≡ two_clients) × (retval ≡ negsuc 0))
handle_echo_time_lem_example =
    handle_echo_time_lem sent two_clients 1 echo (pos 1200) 2 (pos 400) (pos 1300)

abbrev from_robot : Packet
from_robot = record { bytes = pos 24; addr = robot; addr_len = 16; msg_id = 2; echo = echo }

abbrev some_rounds : List Event
some_rounds =
    message sent from_robot (pos 1200) (pos 1250)
    ∷ timeout unsent (λ j. pos 2000)
    ∷ message sent from_robot (pos 1300) (pos 1350)
    ∷ []

message_loop_lem_example :
    let q = message_loop limits two_clients ((inet 3 10696, 16) ∷ []) some_rounds in
    let start : UdpComms = record two_clients { client_count = 0 } in
    let s = samples limits (add_hosts ((inet 3 10696, 16) ∷ []) start) some_rounds in
    IsTable q
    × ((k : ℕ)
        → k < q.client_count
        → ((q.client k).sum_half_round_trip_usec ≡ sum_of k s)
          × ((q.client k).sample_count ≡ number_of k s)
          × (2 ≤ number_of k s
              → (q.client k).mean_half_round_trip_usec ≡ quot (sum_of k s) (number_of k s * 2)))
unfolding sockaddr_equal
message_loop_lem_example =
    message_loop_lem limits two_clients ((inet 3 10696, 16) ∷ []) some_rounds (refl, tt)
      (refl, (tt, (refl, tt)))
