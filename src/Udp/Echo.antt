-- ===== src/Udp/Echo.antt =====
-- handle_echo_time of udp_comms.c: the answer of a client to a Request_Time message.
pub mod Clock
pub mod Sum
use jpl_vision.Common.{ℕ, ◌+◌, ◌*◌, Bool, true, false, ltb, leb, if◌then◌else◌}
use jpl_vision.Common.Int.{ℤ, pos, negsuc, ◌+ℤ◌, ◌-ℤ◌, scale, quot, ltb_ℤ, is_zero, int64_min}
use jpl_vision.Udp.Types.{SendTo, EchoTime, ClientInfo, UdpComms, with_client}
use jpl_vision.Udp.Send.{send_request_time}

-- The arrival is noted; the first message sets the start time of the client's clock.
pub note_arrival : ClientInfo → EchoTime → ℤ → ClientInfo
note_arrival c msg arrive_usec = record c {
  last_ping_usec = arrive_usec;
  client_start_time_msec =
      if is_zero (c.client_start_time_msec -ℤ int64_min)
      then msg.client_msec
      else c.client_start_time_msec;
}

-- The offset of the clocks that one message shows.
pub clock_offset : ClientInfo → EchoTime → ℤ → ℤ
clock_offset c msg round_trip =
    msg.cam_host_usec
    +ℤ quot round_trip 2
    -ℤ scale 1000 (msg.client_msec -ℤ c.client_start_time_msec)

-- A message with a short round trip goes into the statistics.
pub add_sample : ClientInfo → EchoTime → ℤ → ℕ → ClientInfo
unfolding clock_offset
add_sample c msg round_trip max_samples =
    let offset = clock_offset c msg round_trip in
    let sum = c.sum_half_round_trip_usec +ℤ round_trip in
    let samples = c.sample_count + 1 in
    record c {
      min_offset_usec = if ltb_ℤ offset c.min_offset_usec then offset else c.min_offset_usec;
      sum_half_round_trip_usec = sum;
      sample_count = samples;
      mean_half_round_trip_usec =
          if leb max_samples samples then quot sum (samples * 2) else c.mean_half_round_trip_usec;
    }

-- The new state of the client, if the message is not from the future.
pub take_echo : ClientInfo → EchoTime → ℤ → ℤ → ℕ → ℤ → ClientInfo
unfolding note_arrival add_sample
take_echo c msg arrive_usec round_trip max_samples max_round_trip_usecs =
    let c' = note_arrival c msg arrive_usec in
    if ltb_ℤ round_trip max_round_trip_usecs then add_sample c' msg round_trip max_samples else c'

-- `usec` is what get_usecs returns when the next request is sent.
pub handle_echo_time : SendTo → UdpComms → ℕ → EchoTime → ℤ → ℕ → ℤ → ℤ → UdpComms × ℤ
unfolding take_echo
handle_echo_time sendto p client_no msg arrive_usec max_samples max_round_trip_usecs usec =
    let round_trip = arrive_usec -ℤ msg.cam_host_usec in
    let c =
      take_echo (p.client client_no) msg arrive_usec round_trip max_samples max_round_trip_usecs in
    let q = with_client p client_no c in
    let (q', retval, logged) = send_request_time sendto q client_no usec in
    if ltb_ℤ round_trip (pos 0)
    then (p, negsuc 0)
    else (if ltb c.sample_count max_samples then (q', retval) else (q, pos 0))
