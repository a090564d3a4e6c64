-- ===== src/Udp/Echo/Sum.antt =====
-- What one message of a client adds to the sum of its round trips.
use jpl_vision.Common.{ℕ, ◌≡◌, refl, ◌∙◌, inl, inr, ltb, if◌then◌else◌, arith, Bool-cases, ap, sym}
use jpl_vision.Common.Int.{ℤ, pos, negsuc, ◌+ℤ◌, ◌-ℤ◌, ltb_ℤ}
use jpl_vision.Udp.Types.{SendTo, EchoTime, ClientInfo, UdpComms, with_client}
use jpl_vision.Udp.Send.Kept.{send_request_time-keeps}
use jpl_vision.Udp.Echo.{take_echo, handle_echo_time}
use jpl_vision.Udp.Echo.Clock.{accepted}

pub add_zero : (a : ℤ) → a +ℤ pos 0 ≡ a
add_zero (pos n) = ground arith
add_zero (negsuc n) = ground arith

take_echo_sum :
    (c : ClientInfo) (msg : EchoTime) (arrive round_trip : ℤ) (max_samples : ℕ) (max_round_trip : ℤ)
    → (take_echo c msg arrive round_trip max_samples max_round_trip).sum_half_round_trip_usec
      ≡ c.sum_half_round_trip_usec
        +ℤ (if ltb_ℤ round_trip max_round_trip then round_trip else pos 0)
unfolding take_echo
take_echo_sum c msg arrive round_trip max_samples max_round_trip =
    elim (Bool-cases (ltb_ℤ round_trip max_round_trip)) [
      | inl short ↦ rw short refl
      | inr long ↦ rw (long, add_zero c.sum_half_round_trip_usec) refl
    ]

-- A round trip that is accepted is added to the sum, and no other.
pub handle_echo_time-sum :
    (sendto : SendTo) (p : UdpComms) (client_no : ℕ) (msg : EchoTime) (arrive : ℤ) (max_samples : ℕ)
    (max_round_trip usec : ℤ)
    → let q = (handle_echo_time sendto p client_no msg arrive max_samples max_round_trip usec).0 in
      let round_trip = arrive -ℤ msg.cam_host_usec in
      (q.client client_no).sum_half_round_trip_usec
      ≡ (p.client client_no).sum_half_round_trip_usec
        +ℤ (if accepted round_trip max_round_trip then round_trip else pos 0)
unfolding handle_echo_time
handle_echo_time-sum sendto p client_no msg arrive max_samples max_round_trip usec =
    elim (Bool-cases (ltb_ℤ (arrive -ℤ msg.cam_host_usec) (pos 0))) [
      | inl future ↦ rw future (sym (add_zero (p.client client_no).sum_half_round_trip_usec))
      | inr past ↦ rw past (elim (Bool-cases (ltb c.sample_count max_samples)) [
        | inl more ↦ rw more ((send_request_time-keeps sendto q1 client_no usec).1.sum ∙ own)
        | inr enough ↦ rw enough own
      ])
    ]
  where
    round_trip : ℤ
    round_trip = arrive -ℤ msg.cam_host_usec

    c : ClientInfo
    c = take_echo (p.client client_no) msg arrive round_trip max_samples max_round_trip

    q1 : UdpComms
    q1 = with_client p client_no c

    at_client : q1.client client_no ≡ c
    at_client = ground arith

    own :
        (q1.client client_no).sum_half_round_trip_usec
        ≡ (p.client client_no).sum_half_round_trip_usec
          +ℤ (if ltb_ℤ round_trip max_round_trip then round_trip else pos 0)
    own =
        ap (λ (d : ClientInfo). d.sum_half_round_trip_usec) at_client
        ∙ take_echo_sum (p.client client_no) msg arrive round_trip max_samples max_round_trip
