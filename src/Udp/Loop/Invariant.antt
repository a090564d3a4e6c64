-- ===== src/Udp/Loop/Invariant.antt =====
-- Whatever the network does, message_loop keeps the table of clients and their clocks in order.
use jpl_vision.Common.{
  ℕ, zero, suc, ◌+◌, ◌<◌, ◌≡◌, ◌≢◌, refl, inl, inr, true, List, [], ◌∷◌, ◌==◌, arith, Bool-cases,
  ℕ_discrete, dec_lt, subst, sym,
}
use jpl_vision.Common.Int.{ℤ, pos, negsuc, ltb_ℤ}
use jpl_vision.Udp.Types.{SockAddr, SendTo, UdpComms}
use jpl_vision.Udp.Table.{sockaddr_equal, lookup_client_info, new_client}
use jpl_vision.Udp.Table.Lookup.{IsTable, lookup_client_info_lem}
use jpl_vision.Udp.Send.Kept.{send_request_time-keeps}
use jpl_vision.Udp.Echo.Clock.{IsClock, SameClock-IsClock, handle_echo_time_lem}
use jpl_vision.Udp.Loop.{
  Packet, Limits, Event, timeout, message, resend_from, dispatch, handle_packet, loop_round,
  add_hosts, rounds, message_loop,
}

-- The table has no doubles and at most ten clients, and the clock of every client is right.
pub record IsComms (max_samples : ℕ) (p : UdpComms) : Type 0 where
  pub table : IsTable p
  pub clocks : (k : ℕ) → k < p.client_count → IsClock max_samples (p.client k)

-- One client changed, but neither its address nor that its clock is right.
changed :
    (m : ℕ) (p q : UdpComms) (n : ℕ)
    → q.client_count ≡ p.client_count
    → ((k : ℕ) → k ≢ n → q.client k ≡ p.client k)
    → (q.client n).saddr ≡ (p.client n).saddr
    → (IsClock m (p.client n) → IsClock m (q.client n))
    → IsComms m p
    → IsComms m q
changed m p q n e others addr clock v = record {
  table = record {
    small = omega (arith, v.table.small, e);
    no_doubles = λ i j a b. rw (saddr i, saddr j) (v.table.no_doubles i j a (omega (arith, e)));
  };
  clocks = λ k l. elim (ℕ_discrete k n) [
    | no h ↦ rw (others k h) (v.clocks k (omega (arith, e)))
    | yes h ↦ own k h (omega (arith, e))
  ];
}
  where
    saddr : (k : ℕ) → (q.client k).saddr ≡ (p.client k).saddr
    saddr k = elim (ℕ_discrete k n) [
      | no h ↦ rw (others k h) refl
      | yes h ↦ subst (λ x. (q.client x).saddr ≡ (p.client x).saddr) (sym h) addr
    ]

    own : (k : ℕ) → k ≡ n → k < p.client_count → IsClock m (q.client k)
    own k h l =
        subst (λ x. IsClock m (q.client x)) (sym h)
          (clock (subst (λ x. IsClock m (p.client x)) h (v.clocks k l)))

resend_from-IsComms :
    (n : ℕ) (m : ℕ) (sendto : SendTo) (p : UdpComms) (j : ℕ) (usec : ℕ → ℤ)
    → IsComms m p
    → IsComms m (resend_from n sendto p j usec)
unfolding resend_from
resend_from-IsComms zero m sendto p j usec v = v
resend_from-IsComms (suc n) m sendto p j usec v =
    let k = send_request_time-keeps sendto p j (usec j) in
    resend_from-IsComms n m sendto _ (j + 1) usec
      (changed m p _ j k.2 k.0 k.1.addr (SameClock-IsClock m _ _ k.1) v)

new_client-IsClock : (m : ℕ) (addr : SockAddr) (addr_len : ℕ) → IsClock m (new_client addr addr_len)
new_client-IsClock m addr addr_len = record { no_negative = refl; mean = λ l. refl }

-- After lookup_client_info the state is in order, and a number that it returns is in the table.
pub looked_up :
    (m : ℕ) (p : UdpComms) (addr : SockAddr) (addr_len : ℕ)
    → sockaddr_equal addr addr ≡ true
    → IsComms m p
    → IsComms m (lookup_client_info p addr addr_len).0
looked_up m p addr addr_len known v = elim (lookup_client_info_lem p addr addr_len v.table known) [
  | inr (r, e, full, f) ↦ rw e v
  | inl (i, r, c) ↦ record {
    table = c.table;
    clocks = λ k l. elim (dec_lt k p.client_count) [
      | yes h ↦ rw (c.others k h) (v.clocks k h)
      | no h ↦
          let (i_is, more, new) = c.new (omega (arith, h, l)) in
          let same : i ≡ k = omega (arith, i_is, more, h, l) in
          subst (λ x. IsClock m ((lookup_client_info p addr addr_len).0.client x)) same
            (rw new (new_client-IsClock m addr addr_len))
    ];
  }
]

dispatch-IsComms :
    (sendto : SendTo) (l : Limits) (pk : Packet) (arrive usec : ℤ) (p : UdpComms) (client_no : ℤ)
    → IsComms l.max_samples p
    → IsComms l.max_samples (dispatch sendto l pk arrive usec p client_no)
unfolding dispatch
dispatch-IsComms sendto l pk arrive usec p (negsuc n) v = v
dispatch-IsComms sendto l pk arrive usec p (pos n) v = elim (Bool-cases (pk.msg_id == 2)) [
  | inr h ↦ rw h v
  | inl h ↦ rw h (
      let t =
        handle_echo_time_lem sendto p n pk.echo arrive l.max_samples l.max_round_trip_usecs usec in
      changed l.max_samples p _ n t.5 t.0 t.4 t.1 v)
]

-- The senders are of the address families that the code knows.
abbrev pub KnownSender : Event → Type 0
KnownSender (timeout sendto usec) = Unit {0}
KnownSender (message sendto pk arrive usec) = sockaddr_equal pk.addr pk.addr ≡ true

abbrev pub KnownSenders : List Event → Type 0
KnownSenders [] = Unit {0}
KnownSenders (e ∷ es) = KnownSender e × KnownSenders es

abbrev pub KnownHosts : List (SockAddr × ℕ) → Type 0
KnownHosts [] = Unit {0}
KnownHosts ((addr, addr_len) ∷ hosts) = (sockaddr_equal addr addr ≡ true) × KnownHosts hosts

pub loop_round-IsComms :
    (l : Limits) (p : UdpComms) (e : Event)
    → KnownSender e
    → IsComms l.max_samples p
    → IsComms l.max_samples (loop_round l p e)
unfolding loop_round handle_packet
loop_round-IsComms l p (timeout sendto usec) known v =
    resend_from-IsComms p.client_count l.max_samples sendto p 0 usec v
loop_round-IsComms l p (message sendto pk arrive usec) known v =
    elim (Bool-cases (ltb_ℤ pk.bytes (pos 1))) [
      | inl h ↦ rw h v
      | inr h ↦ rw h (
          dispatch-IsComms sendto l pk arrive usec _ _
            (looked_up l.max_samples p pk.addr pk.addr_len known v))
    ]

pub rounds-IsComms :
    (l : Limits) (p : UdpComms) (es : List Event)
    → KnownSenders es
    → IsComms l.max_samples p
    → IsComms l.max_samples (rounds l p es)
unfolding rounds
rounds-IsComms l p [] known v = v
rounds-IsComms l p (e ∷ es) known v =
    rounds-IsComms l (loop_round l p e) es known.1 (loop_round-IsComms l p e known.0 v)

pub add_hosts-IsComms :
    (m : ℕ) (hosts : List (SockAddr × ℕ)) (p : UdpComms)
    → KnownHosts hosts
    → IsComms m p
    → IsComms m (add_hosts hosts p)
unfolding add_hosts
add_hosts-IsComms m [] p known v = v
add_hosts-IsComms m ((addr, addr_len) ∷ hosts) p known v =
    add_hosts-IsComms m hosts _ known.1 (looked_up m p addr addr_len known.0 v)

pub empty-IsComms : (m : ℕ) (p : UdpComms) → IsComms m (record p { client_count = 0 })
empty-IsComms m p = record {
  table = record { small = omega arith; no_doubles = λ i j a b. absurd (omega arith) };
  clocks = λ k h. absurd (omega arith);
}

-- After any rounds of message_loop the table is in order, and every client's mean agrees with its sum
-- and sample count.
pub message_loop-IsComms :
    (l : Limits) (p : UdpComms) (hosts : List (SockAddr × ℕ)) (es : List Event)
    → KnownHosts hosts
    → KnownSenders es
    → IsComms l.max_samples (message_loop l p hosts es)
unfolding message_loop
message_loop-IsComms l p hosts es known_hosts known =
    rounds-IsComms l _ es known
      (add_hosts-IsComms l.max_samples hosts _ known_hosts (empty-IsComms l.max_samples p))
