-- ===== src/Udp/Send/Kept.antt =====
-- What a Request_Time message leaves as it was.
use jpl_vision.Common.{ℕ, ◌≡◌, ◌≢◌, refl, arith}
use jpl_vision.Common.Int.{ℤ}
use jpl_vision.Udp.Types.{SendTo, ClientInfo, UdpComms, with_client, request_time}
use jpl_vision.Udp.Send.{after_send, send_request_time}

-- The two states of a client have the same address and clock statistics.
pub record SameClock (c d : ClientInfo) : Type 0 where
  pub min_offset : d.min_offset_usec ≡ c.min_offset_usec
  pub sum : d.sum_half_round_trip_usec ≡ c.sum_half_round_trip_usec
  pub mean : d.mean_half_round_trip_usec ≡ c.mean_half_round_trip_usec
  pub last_ping : d.last_ping_usec ≡ c.last_ping_usec
  pub samples : d.sample_count ≡ c.sample_count
  pub addr : d.saddr ≡ c.saddr

after_send-SameClock : (c : ClientInfo) (retval : ℤ) → SameClock c (after_send c retval).0
unfolding after_send
after_send-SameClock c retval = record {
  min_offset = ground arith;
  sum = ground arith;
  mean = ground arith;
  last_ping = ground arith;
  samples = ground arith;
  addr = ground arith;
}

pub send_request_time-keeps :
    (sendto : SendTo) (p : UdpComms) (client_no : ℕ) (usec : ℤ)
    → let q = (send_request_time sendto p client_no usec).0 in
      ((k : ℕ) → k ≢ client_no → q.client k ≡ p.client k)
      × SameClock (p.client client_no) (q.client client_no)
      × (q.client_count ≡ p.client_count)
unfolding send_request_time
send_request_time-keeps sendto p client_no usec = (λ k h. ground arith, at_client, refl)
  where
    c : ClientInfo
    c = p.client client_no

    c' : ClientInfo
    c' = (after_send c (sendto c.saddr c.saddr_len (request_time usec))).0

    same : (with_client p client_no c').client client_no ≡ c'
    same = ground arith

    at_client : SameClock c ((with_client p client_no c').client client_no)
    at_client = rw same (after_send-SameClock c (sendto c.saddr c.saddr_len (request_time usec)))
