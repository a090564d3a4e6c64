-- ===== src/Udp/Loop/Samples.antt =====
-- Which round trips are in the statistics of a client after any rounds of message_loop.
use jpl_vision.Common.{
  ℕ, ◌+◌, ◌≡◌, ◌∙◌, ap, sym, inl, inr, ◌&&◌, List, [], ◌∷◌, ◌++◌, ltb, ◌==◌, if◌then◌else◌, arith,
  Bool-cases,
}
use jpl_vision.Common.Int.{ℤ, pos, negsuc, ◌+ℤ◌, ◌-ℤ◌, ltb_ℤ}
use jpl_vision.Udp.Types.{UdpComms}
use jpl_vision.Udp.Table.{lookup_client_info}
use jpl_vision.Udp.Echo.Clock.{accepted}
use jpl_vision.Udp.Echo.Sum.{add_zero}
use jpl_vision.Udp.Loop.{Packet, Limits, Event, timeout, message, loop_round}

-- A round trip and the number of the client that it counts for.
abbrev pub Sample : Type 0
Sample = ℕ × ℤ

-- What an answer with that arrival time gives, if its sender has the number `client_no`.
abbrev pub sample_from : Limits → Packet → ℤ → ℤ → List Sample
sample_from l pk arrive (negsuc n) = []
sample_from l pk arrive (pos n) =
    let round_trip = arrive -ℤ pk.echo.cam_host_usec in
    if (pk.msg_id == 2) && accepted round_trip l.max_round_trip_usecs
    then (n, round_trip) ∷ []
    else []

-- An empty packet gives none.
abbrev pub sample_of : Limits → UdpComms → Event → List Sample
sample_of l p (timeout sendto usec) = []
sample_of l p (message sendto pk arrive usec) =
    let sample = sample_from l pk arrive (lookup_client_info p pk.addr pk.addr_len).1 in
    if ltb_ℤ pk.bytes (pos 1) then [] else sample

-- The round trips that the rounds `es` accept, from the state `p` on.
abbrev pub samples : Limits → UdpComms → List Event → List Sample
samples l p [] = []
samples l p (e ∷ es) = sample_of l p e ++ samples l (loop_round l p e) es

abbrev pub sum_of : ℕ → List Sample → ℤ
sum_of k [] = pos 0
sum_of k ((n, round_trip) ∷ s) =
    let rest = sum_of k s in if n == k then round_trip +ℤ rest else rest

abbrev pub number_of : ℕ → List Sample → ℕ
number_of k [] = 0
number_of k ((n, round_trip) ∷ s) = let rest = number_of k s in if n == k then 1 + rest else rest

add_assoc : (a b c : ℤ) → a +ℤ b +ℤ c ≡ a +ℤ (b +ℤ c)
add_assoc a b c = ground arith

pub zero_add : (a : ℤ) → pos 0 +ℤ a ≡ a
zero_add (pos n) = ground arith
zero_add (negsuc n) = ground arith

sum_of-append : (k : ℕ) (s t : List Sample) → sum_of k (s ++ t) ≡ sum_of k s +ℤ sum_of k t
sum_of-append k [] t = sym (zero_add (sum_of k t))
sum_of-append k ((n, z) ∷ s) t = elim (Bool-cases (n == k)) [
  | inl h ↦ rw (h, sum_of-append k s t) (sym (add_assoc z (sum_of k s) (sum_of k t)))
  | inr h ↦ rw (h) (sum_of-append k s t)
]

number_of-append :
    (k : ℕ) (s t : List Sample) → number_of k (s ++ t) ≡ number_of k s + number_of k t
number_of-append k [] t = omega arith
number_of-append k ((n, z) ∷ s) t = ground (arith, number_of-append k s t)

-- The statistics of a client with the number `k`, also before there is one.
abbrev pub sum_at : UdpComms → ℕ → ℤ
sum_at p k = if ltb k p.client_count then (p.client k).sum_half_round_trip_usec else pos 0

abbrev pub count_at : UdpComms → ℕ → ℕ
count_at p k = if ltb k p.client_count then (p.client k).sample_count else 0

-- From `p` to `q` the samples `s` have come in.
pub record Gained (p q : UdpComms) (s : List Sample) : Type 0 where
  pub sum : (k : ℕ) → sum_at q k ≡ sum_at p k +ℤ sum_of k s
  pub count : (k : ℕ) → count_at q k ≡ count_at p k + number_of k s

pub Gained-nil :
    (p q : UdpComms)
    → ((k : ℕ) → (sum_at q k ≡ sum_at p k) × (count_at q k ≡ count_at p k))
    → Gained p q []
Gained-nil p q h = record {
  sum = λ k. (h k).0 ∙ sym (add_zero (sum_at p k));
  count = λ k. omega (arith, (h k).1);
}

pub Gained-append :
    (p q r : UdpComms) (s t : List Sample) → Gained p q s → Gained q r t → Gained p r (s ++ t)
Gained-append p q r s t a b = record {
  sum = λ k.
      b.sum k
      ∙ ap (λ x. x +ℤ sum_of k t) (a.sum k)
      ∙ add_assoc (sum_at p k) (sum_of k s) (sum_of k t)
      ∙ ap (λ x. sum_at p k +ℤ x) (sym (sum_of-append k s t));
  count = λ k. omega (arith, a.count k, b.count k, number_of-append k s t);
}
