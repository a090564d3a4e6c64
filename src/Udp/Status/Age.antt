-- ===== src/Udp/Status/Age.antt =====
-- The age of the oldest ping response.
use jpl_vision.Common.{
  ℕ, zero, suc, ◌+◌, ◌≤◌, ◌<◌, ◌≡◌, refl, ◌⊎◌, inl, inr, false, not, ◌&&◌, if◌then◌else◌, arith,
  ℕ_discrete, subst, ap, ◌∙◌,
}
use jpl_vision.Common.Memory.{Array}
use jpl_vision.Common.Int.{ℤ, pos, ◌-ℤ◌, ◌≤ℤ◌, ltb_ℤ, int64_max}
use jpl_vision.Udp.Types.{ClientInfo, UdpComms}
use jpl_vision.Udp.Status.{oldest_from, udp_comms_age_of_oldest_ping_response}

-- `r` is the least of `oldest` and the pings of the connected clients from `i` up to `stop`.
record Oldest (client : Array ClientInfo) (i stop : ℕ) (oldest r : ℤ) : Type 0 where
  below : r ≤ℤ oldest
  all :
      (k : ℕ)
      → i ≤ k
      → k < stop
      → (client k).is_disconnected ≡ false
      → r ≤ℤ (client k).last_ping_usec
  one :
      (r ≡ oldest)
      ⊎ (k : ℕ) × (k < stop)
        × ((client k).is_disconnected ≡ false)
        × (r ≡ (client k).last_ping_usec)

-- What the loop makes of `oldest` at client `c`.
abbrev older : ClientInfo → ℤ → ℤ
older c oldest =
    if not c.is_disconnected && ltb_ℤ c.last_ping_usec oldest then c.last_ping_usec else oldest

older_cases :
    (c : ClientInfo) (oldest : ℤ)
    → (older c oldest ≤ℤ oldest)
      × (c.is_disconnected ≡ false → older c oldest ≤ℤ c.last_ping_usec)
      × ((older c oldest ≡ oldest)
          ⊎ (c.is_disconnected ≡ false) × (older c oldest ≡ c.last_ping_usec))
older_cases c oldest = ground arith

oldest_from-Oldest :
    (n : ℕ) (client : Array ClientInfo) (i stop : ℕ) (oldest : ℤ)
    → i + n ≡ stop
    → Oldest client i stop oldest (oldest_from n client i oldest)
unfolding oldest_from
oldest_from-Oldest zero client i stop oldest e = record {
  below = omega arith;
  all = λ k a b c. absurd (omega arith);
  one = inl refl;
}
oldest_from-Oldest (suc n) client i stop oldest e =
    step (oldest_from-Oldest n client (i + 1) stop (older (client i) oldest) (omega arith))
  where
    step :
        {r : ℤ}
        → Oldest client (i + 1) stop (older (client i) oldest) r
        → Oldest client i stop oldest r
    step {r} o = record {
      below = omega (arith, o.below, (older_cases (client i) oldest).0);
      all =
          λ k a b c. elim (ℕ_discrete i k) [ yes h ↦ at k h c | no h ↦ o.all k (omega arith) b c ];
      one = elim o.one [
        | inr w ↦ inr w
        | inl h ↦ elim (older_cases (client i) oldest).2 [
          | inl g ↦ inl (h ∙ g)
          | inr (c, g) ↦ inr (i, omega arith, c, h ∙ g)
        ]
      ];
    }
      where
        at : (k : ℕ) → i ≡ k → (client k).is_disconnected ≡ false → r ≤ℤ (client k).last_ping_usec
        at k h =
            subst (λ x. (client x).is_disconnected ≡ false → r ≤ℤ (client x).last_ping_usec) h
              (λ c. omega (arith, o.below, (older_cases (client i) oldest).1 c))

-- The age for an oldest time `r`, and what it says of a later time `x`.
abbrev age_since : ℤ → ℤ → ℤ
age_since now r = if ltb_ℤ (now -ℤ r) (pos 0) then pos 0 else now -ℤ r

age_since-later : (now r x : ℤ) → r ≤ℤ x → (now -ℤ x) ≤ℤ age_since now r
age_since-later now r x h = ground arith

age_since-max : (now : ℤ) → now ≤ℤ int64_max → age_since now int64_max ≡ pos 0
age_since-max now h = ground arith

age_since_cases :
    (now r : ℤ)
    → (pos 0 ≤ℤ age_since now r) × ((age_since now r ≡ pos 0) ⊎ (age_since now r ≡ now -ℤ r))
age_since_cases now r = ground arith

Oldest-age :
    (now : ℤ)
    → now ≤ℤ int64_max
    → (n : ℕ) (client : Array ClientInfo) (r : ℤ) → Oldest client 0 n int64_max r
    → (pos 0 ≤ℤ age_since now r)
      × ((k : ℕ)
          → k < n
          → (client k).is_disconnected ≡ false
          → (now -ℤ (client k).last_ping_usec) ≤ℤ age_since now r)
      × ((age_since now r ≡ pos 0)
          ⊎ (k : ℕ) × (k < n)
            × ((client k).is_disconnected ≡ false)
            × (age_since now r ≡ now -ℤ (client k).last_ping_usec))
Oldest-age now h n client r o = (
  (age_since_cases now r).0,
  λ k l c. age_since-later now r (client k).last_ping_usec (o.all k (omega arith) l c),
  elim o.one [
    | inl e ↦ inl (ap (age_since now) e ∙ age_since-max now h)
    | inr (k, l, c, e) ↦ elim (age_since_cases now r).1 [
      | inl z ↦ inl z
      | inr z ↦ inr (k, l, c, z ∙ ap (λ x. now -ℤ x) e)
    ]
  ],
)

-- The age is not negative, and at least the time since the last ping of each client that is not
-- marked as disconnected. It is that of one of these clients, or 0.
pub udp_comms_age-oldest :
    (p : UdpComms) (now : ℤ)
    → now ≤ℤ int64_max
    → let age = udp_comms_age_of_oldest_ping_response p now in
      (pos 0 ≤ℤ age)
      × ((k : ℕ)
          → k < p.client_count
          → (p.client k).is_disconnected ≡ false
          → (now -ℤ (p.client k).last_ping_usec) ≤ℤ age)
      × ((age ≡ pos 0)
          ⊎ (k : ℕ) × (k < p.client_count)
            × ((p.client k).is_disconnected ≡ false)
            × (age ≡ now -ℤ (p.client k).last_ping_usec))
unfolding udp_comms_age_of_oldest_ping_response
udp_comms_age-oldest p now h =
    Oldest-age now h p.client_count p.client (oldest_from p.client_count p.client 0 int64_max)
      (oldest_from-Oldest p.client_count p.client 0 p.client_count int64_max (omega arith))
