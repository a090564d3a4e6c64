-- ===== src/Udp/Echo/Clock.antt =====
-- The statistics of a client's clock under handle_echo_time.
use jpl_vision.Common.{
  ℕ, ◌+◌, ◌*◌, ◌≤◌, ◌≡◌, ◌≢◌, refl, inl, inr, Bool, true, false, ltb, leb, ◌&&◌, not, if◌then◌else◌,
  arith, Bool-cases, subst, ◌∙◌,
}
use jpl_vision.Common.Int.{ℤ, pos, negsuc, neg_part, ◌+ℤ◌, ◌-ℤ◌, ◌≤ℤ◌, quot, ltb_ℤ}
use jpl_vision.Udp.Types.{SendTo, EchoTime, ClientInfo, UdpComms, with_client}
use jpl_vision.Udp.Send.{send_request_time}
use jpl_vision.Udp.Send.Kept.{SameClock, send_request_time-keeps}
use jpl_vision.Udp.Echo.{note_arrival, clock_offset, take_echo, handle_echo_time}

-- Once there are enough samples the mean is half of the sum of the round trips, divided by their
-- number; and no negative round trip is in the sum.
pub record IsClock (max_samples : ℕ) (c : ClientInfo) : Type 0 where
  pub no_negative : neg_part c.sum_half_round_trip_usec ≡ 0
  pub mean :
      max_samples ≤ c.sample_count
      → c.mean_half_round_trip_usec ≡ quot c.sum_half_round_trip_usec (c.sample_count * 2)

-- A message is accepted if its round trip is not negative and short.
abbrev pub accepted : ℤ → ℤ → Bool
accepted round_trip max_round_trip =
    not (ltb_ℤ round_trip (pos 0)) && ltb_ℤ round_trip max_round_trip

plus_pos : (a b : ℤ) → neg_part a ≡ 0 → ltb_ℤ b (pos 0) ≡ false → neg_part (a +ℤ b) ≡ 0
plus_pos a b h k = ground arith

if_true : {A : Type 0} (b : Bool) (x y : A) → b ≡ true → (if b then x else y) ≡ x
if_true b x y h = rw h refl

leb-true : (a b : ℕ) → a ≤ b → leb a b ≡ true
leb-true a b h = ground arith

lesser : (a b : ℤ) → (if ltb_ℤ a b then a else b) ≤ℤ b
lesser a b = ground arith

take_echo_lem :
    (c : ClientInfo) (msg : EchoTime) (arrive round_trip : ℤ) (max_samples : ℕ) (max_round_trip : ℤ)
    → ltb_ℤ round_trip (pos 0) ≡ false
    → let c' = take_echo c msg arrive round_trip max_samples max_round_trip in
      (IsClock max_samples c → IsClock max_samples c')
      × (c'.last_ping_usec ≡ arrive)
      × (c'.min_offset_usec ≤ℤ c.min_offset_usec)
      × (c'.sample_count ≡ c.sample_count + (if ltb_ℤ round_trip max_round_trip then 1 else 0))
      × (c'.saddr ≡ c.saddr)
unfolding take_echo
take_echo_lem c msg arrive round_trip max_samples max_round_trip h =
    elim (Bool-cases (ltb_ℤ round_trip max_round_trip)) [
      | inl short ↦ rw short (
        λ v. record {
          no_negative = plus_pos c.sum_half_round_trip_usec round_trip v.no_negative h;
          mean = λ l. if_true _ _ _ (leb-true max_samples (c.sample_count + 1) l);
        },
        refl,
        lesser (clock_offset (note_arrival c msg arrive) msg round_trip) c.min_offset_usec,
        refl,
        refl,
      )
      | inr long ↦ rw long (
        λ v. record { no_negative = v.no_negative; mean = v.mean },
        refl,
        omega arith,
        omega arith,
        refl,
      )
    ]

pub SameClock-IsClock :
    (max_samples : ℕ) (c d : ClientInfo)
    → SameClock c d
    → IsClock max_samples c
    → IsClock max_samples d
SameClock-IsClock max_samples c d s v = record {
  no_negative = rw s.sum v.no_negative;
  mean = λ l. rw (s.mean, s.sum, s.samples) (v.mean (omega (arith, s.samples)));
}

-- What holds of a state `q` in which client `client_no` has taken in a message.
record Taken (p : UdpComms) (client_no max_samples gain : ℕ) (q : UdpComms) : Type 0 where
  others : (k : ℕ) → k ≢ client_no → q.client k ≡ p.client k
  clock : IsClock max_samples (p.client client_no) → IsClock max_samples (q.client client_no)
  offset : (q.client client_no).min_offset_usec ≤ℤ (p.client client_no).min_offset_usec
  samples : (q.client client_no).sample_count ≡ (p.client client_no).sample_count + gain
  addr : (q.client client_no).saddr ≡ (p.client client_no).saddr
  count : q.client_count ≡ p.client_count

taken :
    (p : UdpComms) (client_no : ℕ) (msg : EchoTime) (arrive round_trip : ℤ) (max_samples : ℕ)
    (max_round_trip : ℤ) (q : UdpComms)
    → ltb_ℤ round_trip (pos 0) ≡ false
    → let c = take_echo (p.client client_no) msg arrive round_trip max_samples max_round_trip in
      ((k : ℕ) → k ≢ client_no → q.client k ≡ p.client k)
      → SameClock c (q.client client_no)
      → q.client_count ≡ p.client_count
      → Taken p client_no max_samples (if ltb_ℤ round_trip max_round_trip then 1 else 0) q
taken p client_no msg arrive round_trip max_samples max_round_trip q h others s e =
    let t = take_echo_lem (p.client client_no) msg arrive round_trip max_samples max_round_trip h in
    record {
      others = others;
      clock = λ v. SameClock-IsClock max_samples _ _ s (t.0 v);
      offset = rw s.min_offset t.2;
      samples = s.samples ∙ t.3;
      addr = s.addr ∙ t.4;
      count = e;
    }

SameClock-refl : (c d : ClientInfo) → d ≡ c → SameClock c d
SameClock-refl c d e = rw e (record {
  min_offset = refl;
  sum = refl;
  mean = refl;
  last_ping = refl;
  samples = refl;
  addr = refl;
})

-- handle_echo_time changes at most the client that the message comes from, and keeps the invariant
-- of its clock. A message from the future changes nothing and gives -1. A message with a short round
-- trip is one sample more, any other none; the estimate of the clock offset never grows, and the
-- table keeps its addresses and its size.
pub handle_echo_time_lem :
    (sendto : SendTo) (p : UdpComms) (client_no : ℕ) (msg : EchoTime) (arrive : ℤ) (max_samples : ℕ)
    (max_round_trip usec : ℤ)
    → let (q, retval) =
        handle_echo_time sendto p client_no msg arrive max_samples max_round_trip usec in
      let c = p.client client_no in
      let c' = q.client client_no in
      let round_trip = arrive -ℤ msg.cam_host_usec in
      ((k : ℕ) → k ≢ client_no → q.client k ≡ p.client k)
      × (IsClock max_samples c → IsClock max_samples c')
      × (c'.min_offset_usec ≤ℤ c.min_offset_usec)
      × (c'.sample_count ≡ c.sample_count + (if accepted round_trip max_round_trip then 1 else 0))
      × (c'.saddr ≡ c.saddr)
      × (q.client_count ≡ p.client_count)
      × (ltb_ℤ round_trip (pos 0) ≡ true → (q ≡ p) × (retval ≡ negsuc 0))
unfolding handle_echo_time
handle_echo_time_lem sendto p client_no msg arrive max_samples max_round_trip usec =
    elim (Bool-cases (ltb_ℤ (arrive -ℤ msg.cam_host_usec) (pos 0))) [
      | inl future ↦
          rw future (λ k h. refl, λ v. v, omega arith, omega arith, refl, refl, λ e. (refl, refl))
      | inr past ↦ rw past (elim (Bool-cases (ltb c.sample_count max_samples)) [
        | inl more ↦ rw more (
            let t = sent past in
            (t.others, t.clock, t.offset, t.samples, t.addr, t.count, λ e. absurd (ground arith)))
        | inr enough ↦ rw enough (
            let t = kept past in
            (t.others, t.clock, t.offset, t.samples, t.addr, t.count, λ e. absurd (ground arith)))
      ])
    ]
  where
    c : ClientInfo
    c =
        take_echo (p.client client_no) msg arrive (arrive -ℤ msg.cam_host_usec) max_samples
          max_round_trip

    round_trip : ℤ
    round_trip = arrive -ℤ msg.cam_host_usec

    gain : ℕ
    gain = if ltb_ℤ round_trip max_round_trip then 1 else 0

    q1 : UdpComms
    q1 = with_client p client_no c

    other : (k : ℕ) → k ≢ client_no → q1.client k ≡ p.client k
    other k n = ground arith

    own : q1.client client_no ≡ c
    own = ground arith

    kept : ltb_ℤ round_trip (pos 0) ≡ false → Taken p client_no max_samples gain q1
    kept h =
        taken p client_no msg arrive round_trip max_samples max_round_trip q1 h other
          (SameClock-refl c _ own) refl

    sent :
        ltb_ℤ round_trip (pos 0) ≡ false
        → Taken p client_no max_samples gain (send_request_time sendto q1 client_no usec).0
    sent h =
        let k = send_request_time-keeps sendto q1 client_no usec in
        taken p client_no msg arrive round_trip max_samples max_round_trip _ h
          (λ m n. k.0 m n ∙ other m n)
          (subst
            (λ x. SameClock x ((send_request_time sendto q1 client_no usec).0.client client_no)) own
            k.1)
          k.2
