-- ===== src/Udp/Loop/Gains.antt =====
-- What one round of message_loop adds to the statistics of the clients.
use jpl_vision.Common.{
  ℕ, zero, suc, ◌+◌, ◌<◌, ◌≡◌, ◌≢◌, refl, ◌∙◌, sym, inl, inr, Bool, true, false, [], ◌∷◌, ltb, ◌==◌,
  if◌then◌else◌, arith, Bool-cases, ℕ_discrete, dec_lt, subst,
}
use jpl_vision.Common.Int.{ℤ, pos, negsuc, ◌+ℤ◌, ◌-ℤ◌, ltb_ℤ}
use jpl_vision.Udp.Types.{SockAddr, SendTo, UdpComms}
use jpl_vision.Udp.Table.{sockaddr_equal, lookup_client_info}
use jpl_vision.Udp.Table.Lookup.{lookup_client_info_lem}
use jpl_vision.Udp.Send.{send_request_time}
use jpl_vision.Udp.Send.Kept.{send_request_time-keeps}
use jpl_vision.Udp.Echo.Clock.{accepted, handle_echo_time_lem}
use jpl_vision.Udp.Echo.Sum.{add_zero, handle_echo_time-sum}
use jpl_vision.Udp.Loop.{
  Packet, Limits, Event, timeout, message, resend_from, dispatch, handle_packet, loop_round,
}
use jpl_vision.Udp.Loop.Invariant.{IsComms, KnownSender}
use jpl_vision.Udp.Loop.Samples.{
  sample_from, sample_of, sum_of, number_of, sum_at, count_at, Gained, Gained-nil, Gained-append,
}

-- The clients and their statistics are the same.
Kept : UdpComms → UdpComms → Type 0
Kept p q =
    (q.client_count ≡ p.client_count)
    × ((k : ℕ)
        → ((q.client k).sum_half_round_trip_usec ≡ (p.client k).sum_half_round_trip_usec)
          × ((q.client k).sample_count ≡ (p.client k).sample_count))

send_request_time-Kept :
    (sendto : SendTo) (p : UdpComms) (j : ℕ) (usec : ℤ)
    → Kept p (send_request_time sendto p j usec).0
unfolding Kept
send_request_time-Kept sendto p j usec =
    let (others, same, count) = send_request_time-keeps sendto p j usec in
    let q = (send_request_time sendto p j usec).0 in
    (
      count,
      λ k. elim (ℕ_discrete k j) [
        | no h ↦ rw (others k h) (refl, refl)
        | yes h ↦
            subst
              (λ x.
                ((q.client x).sum_half_round_trip_usec ≡ (p.client x).sum_half_round_trip_usec)
                × ((q.client x).sample_count ≡ (p.client x).sample_count))
              (sym h) (same.sum, same.samples)
      ],
    )

resend_from-Kept :
    (n : ℕ) (sendto : SendTo) (p : UdpComms) (j : ℕ) (usec : ℕ → ℤ)
    → Kept p (resend_from n sendto p j usec)
unfolding resend_from Kept
resend_from-Kept zero sendto p j usec = (refl, λ k. (refl, refl))
resend_from-Kept (suc n) sendto p j usec =
    let first = send_request_time-Kept sendto p j (usec j) in
    let later = resend_from-Kept n sendto _ (j + 1) usec in
    (later.0 ∙ first.0, λ k. ((later.1 k).0 ∙ (first.1 k).0, (later.1 k).1 ∙ (first.1 k).1))

Kept-Gained : (p q : UdpComms) → Kept p q → Gained p q []
unfolding Kept
Kept-Gained p q (e, h) = Gained-nil p q (λ k. (rw (e, (h k).0) refl, rw (e, (h k).1) refl))

pub Gained-refl : (p : UdpComms) → Gained p p []
Gained-refl p = Gained-nil p p (λ k. (refl, refl))

-- A new client has no samples, and the others keep theirs.
pub lookup-Gained :
    (m : ℕ) (p : UdpComms) (addr : SockAddr) (addr_len : ℕ)
    → sockaddr_equal addr addr ≡ true
    → IsComms m p
    → let (q, retval) = lookup_client_info p addr addr_len in
      Gained p q [] × ((n : ℕ) → retval ≡ pos n → n < q.client_count)
lookup-Gained m p addr addr_len known v =
    elim (lookup_client_info_lem p addr addr_len v.table known) [
      | inr (r, e, full, f) ↦ (rw e (Gained-refl p), λ n h. absurd (cc (h, r)))
      | inl (i, r, c) ↦
          let q = (lookup_client_info p addr addr_len).0 in
          (
            Gained-nil p q (λ k. elim (dec_lt k p.client_count) [
              | yes h ↦ rw (c.others k h) (ground (arith, c.more), ground (arith, c.more))
              | no h ↦ elim (dec_lt k q.client_count) [
                | no h' ↦ (ground arith, ground arith)
                | yes h' ↦
                    let (i_is, more, new) = c.new (omega (arith, h, h')) in
                    let same : i ≡ k = omega (arith, i_is, more, h, h') in
                    let zero : ((q.client k).sum_half_round_trip_usec ≡ pos 0)
                        × ((q.client k).sample_count ≡ 0) =
                      subst
                        (λ x.
                          ((q.client x).sum_half_round_trip_usec ≡ pos 0)
                          × ((q.client x).sample_count ≡ 0))
                        same (rw new (refl, refl)) in
                    (ground (arith, zero.0), ground (arith, zero.1))
              ]
            ]),
            λ n h. let e : i ≡ n = cc (r, h) in omega (arith, c.in_table, e),
          )
    ]

-- One sample for client `n`, or none.
one_sample :
    (p q : UdpComms) (n : ℕ) (round_trip : ℤ) (b : Bool)
    → n < p.client_count
    → q.client_count ≡ p.client_count
    → ((k : ℕ) → k ≢ n → q.client k ≡ p.client k)
    → (q.client n).sum_half_round_trip_usec
      ≡ (p.client n).sum_half_round_trip_usec +ℤ (if b then round_trip else pos 0)
    → (q.client n).sample_count ≡ (p.client n).sample_count + (if b then 1 else 0)
    → Gained p q (if b then (n, round_trip) ∷ [] else [])
unfolding Kept
one_sample p q n round_trip false l e others sum count = Kept-Gained p q (
  e,
  λ k. elim (ℕ_discrete k n) [
    | no h ↦ rw (others k h) (refl, refl)
    | yes h ↦
        subst
          (λ x.
            ((q.client x).sum_half_round_trip_usec ≡ (p.client x).sum_half_round_trip_usec)
            × ((q.client x).sample_count ≡ (p.client x).sample_count))
          (sym h) (sum ∙ add_zero (p.client n).sum_half_round_trip_usec, omega (arith, count))
  ],
)
one_sample p q n round_trip true l e others sum count = record {
  sum = λ k. elim (ℕ_discrete k n) [
    | no h ↦
        let f : (n == k) ≡ false = ground arith in
        rw (others k h, e, f) (sym (add_zero (sum_at p k)))
    | yes h ↦
        let t : (n == n) ≡ true = ground arith in
        let t' : ltb n p.client_count ≡ true = ground arith in
        subst (λ x. sum_at q x ≡ sum_at p x +ℤ sum_of x ((n, round_trip) ∷ [])) (sym h)
          (rw (e, t, t', sum, add_zero round_trip) refl)
  ];
  count = λ k. elim (ℕ_discrete k n) [
    | no h ↦ let f : (n == k) ≡ false = ground arith in rw (others k h, e, f) (omega arith)
    | yes h ↦
        let t : (n == n) ≡ true = ground arith in
        let t' : ltb n p.client_count ≡ true = ground arith in
        subst (λ x. count_at q x ≡ count_at p x + number_of x ((n, round_trip) ∷ [])) (sym h)
          (rw (e, t, t') (omega (arith, count)))
  ];
}

dispatch-Gained :
    (sendto : SendTo) (l : Limits) (pk : Packet) (arrive usec : ℤ) (p : UdpComms) (client_no : ℤ)
    → ((n : ℕ) → client_no ≡ pos n → n < p.client_count)
    → Gained p (dispatch sendto l pk arrive usec p client_no) (sample_from l pk arrive client_no)
unfolding dispatch
dispatch-Gained sendto l pk arrive usec p (negsuc n) h = Gained-refl p
dispatch-Gained sendto l pk arrive usec p (pos n) h = elim (Bool-cases (pk.msg_id == 2)) [
  | inr m ↦ rw m (Gained-refl p)
  | inl m ↦
      let round_trip = arrive -ℤ pk.echo.cam_host_usec in
      let t =
        handle_echo_time_lem sendto p n pk.echo arrive l.max_samples l.max_round_trip_usecs usec in
      let s =
        handle_echo_time-sum sendto p n pk.echo arrive l.max_samples l.max_round_trip_usecs usec in
      rw m (
        one_sample p _ n round_trip (accepted round_trip l.max_round_trip_usecs) (h n refl) t.5 t.0
          s t.3)
]

pub loop_round-Gained :
    (l : Limits) (p : UdpComms) (e : Event)
    → KnownSender e
    → IsComms l.max_samples p
    → Gained p (loop_round l p e) (sample_of l p e)
unfolding loop_round handle_packet
loop_round-Gained l p (timeout sendto usec) known v =
    Kept-Gained p _ (resend_from-Kept p.client_count sendto p 0 usec)
loop_round-Gained l p (message sendto pk arrive usec) known v =
    let (q, client_no) = lookup_client_info p pk.addr pk.addr_len in
    let (found, small) = lookup-Gained l.max_samples p pk.addr pk.addr_len known v in
    elim (Bool-cases (ltb_ℤ pk.bytes (pos 1))) [
      | inl h ↦ rw h (Gained-refl p)
      | inr h ↦ rw h (
          Gained-append p q _ [] _ found
            (dispatch-Gained sendto l pk arrive usec q client_no small))
    ]
