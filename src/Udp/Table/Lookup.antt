-- ===== src/Udp/Table/Lookup.antt =====
-- lookup_client_info keeps the table free of doubles and finds or adds the client.
use jpl_vision.Common.{
  ℕ, zero, suc, ◌+◌, ◌≤◌, ◌<◌, ◌≡◌, refl, ◌⊎◌, inl, inr, true, false, some, none, arith, Bool-cases,
  dec_lt, subst,
}
use jpl_vision.Common.Memory.{Array}
use jpl_vision.Common.Int.{pos, negsuc}
use jpl_vision.Udp.Types.{SockAddr, inet, ClientInfo, UdpComms, max_clients, with_client}
use jpl_vision.Udp.Table.{sockaddr_equal, find_client, lookup_client_info, new_client}

-- No two clients of the table are taken for one another, and the table is not overfull.
pub record IsTable (p : UdpComms) : Type 0 where
  pub small : p.client_count ≤ max_clients
  pub no_doubles :
      (i j : ℕ)
      → i < j
      → j < p.client_count
      → sockaddr_equal (p.client j).saddr (p.client i).saddr ≡ false

-- What the search finds among the clients from `i` up to `stop`.
pub record Found (client : Array ClientInfo) (addr : SockAddr) (i stop k : ℕ) : Type 0 where
  pub from : i ≤ k
  pub to : k < stop
  pub matches : sockaddr_equal addr (client k).saddr ≡ true

find_client_cases :
    (n : ℕ) (client : Array ClientInfo) (addr : SockAddr) (i stop : ℕ)
    → i + n ≡ stop
    → ((k : ℕ) × (find_client n client addr i ≡ some k) × Found client addr i stop k)
      ⊎ (find_client n client addr i ≡ none)
        × ((k : ℕ) → i ≤ k → k < stop → sockaddr_equal addr (client k).saddr ≡ false)
unfolding find_client
find_client_cases zero client addr i stop e = inr (refl, λ k a b. absurd (omega arith))
find_client_cases (suc n) client addr i stop e =
    elim (Bool-cases (sockaddr_equal addr (client i).saddr)) [
      | inl h ↦ inl (i, ground arith, record { from = omega arith; to = omega arith; matches = h })
      | inr h ↦ elim (find_client_cases n client addr (i + 1) stop (omega arith)) [
        | inl (k, r, f) ↦ inl (
          k,
          ground (arith, r),
          record { from = omega (arith, f.from); to = f.to; matches = f.matches },
        )
        | inr (r, f) ↦ inr (ground (arith, r), λ k a b. ground (arith, f k))
      ]
    ]

-- What lookup_client_info gives: the number of a client that matches, or -1.
pub record Client (p : UdpComms) (addr : SockAddr) (addr_len : ℕ) (q : UdpComms) (i : ℕ)
    : Type 0 where
  pub in_table : i < q.client_count
  pub matches : sockaddr_equal addr (q.client i).saddr ≡ true
  pub table : IsTable q
  pub more : p.client_count ≤ q.client_count
  pub others : (k : ℕ) → k < p.client_count → q.client k ≡ p.client k
  pub new :
      p.client_count < q.client_count
      → (i ≡ p.client_count)
        × (q.client_count ≡ p.client_count + 1)
        × (q.client i ≡ new_client addr addr_len)

-- The state with a new client at the end of the table.
abbrev appended : UdpComms → SockAddr → ℕ → UdpComms
appended p addr addr_len = record (with_client p p.client_count (new_client addr addr_len)) {
  client_count = p.client_count + 1;
}

module _ (p : UdpComms) (addr : SockAddr) (addr_len : ℕ) where
  found_lem :
      (k : ℕ)
      → find_client p.client_count p.client addr 0 ≡ some k
      → lookup_client_info p addr addr_len ≡ (p, pos k)
  unfolding lookup_client_info
  found_lem k e = rw (lookup_client_info, e) refl

  full_lem :
      find_client p.client_count p.client addr 0 ≡ none
      → max_clients ≤ p.client_count
      → lookup_client_info p addr addr_len ≡ (p, negsuc 0)
  unfolding lookup_client_info
  full_lem e h = rw (lookup_client_info, e) (ground arith)

  added_lem :
      find_client p.client_count p.client addr 0 ≡ none
      → p.client_count < max_clients
      → lookup_client_info p addr addr_len ≡ (appended p addr addr_len, pos p.client_count)
  unfolding lookup_client_info
  added_lem e h = rw (lookup_client_info, e) (ground arith)

  appended-IsTable :
      IsTable p
      → p.client_count < max_clients
      → ((k : ℕ) → k < p.client_count → sockaddr_equal addr (p.client k).saddr ≡ false)
      → IsTable (appended p addr addr_len)
  appended-IsTable v h none_equal = record {
    small = omega arith;
    no_doubles = λ i j a b. ground (arith, v.no_doubles i j a, none_equal i);
  }

-- On a table without doubles, for an address of the families that the code knows,
-- lookup_client_info returns the number of a client that matches the address, which is new if there
-- was none, keeps all other clients and leaves a table without doubles. Or it returns -1 and changes
-- nothing, if the table is full and no client matches.
pub lookup_client_info_lem :
    (p : UdpComms) (addr : SockAddr) (addr_len : ℕ)
    → IsTable p
    → sockaddr_equal addr addr ≡ true
    → let (q, retval) = lookup_client_info p addr addr_len in
      ((i : ℕ) × (retval ≡ pos i) × Client p addr addr_len q i)
      ⊎ (retval ≡ negsuc 0)
        × (q ≡ p)
        × (p.client_count ≡ max_clients)
        × ((k : ℕ) → k < p.client_count → sockaddr_equal addr (p.client k).saddr ≡ false)
lookup_client_info_lem p addr addr_len v known =
    elim (find_client_cases p.client_count p.client addr 0 p.client_count (omega arith)) [
      | inl (k, r, f) ↦ rw (found_lem p addr addr_len k r) (
          inl (
            k,
            refl,
            record {
              in_table = f.to;
              matches = f.matches;
              table = v;
              more = omega arith;
              others = λ i l. refl;
              new = λ l. absurd (omega arith);
            },
          ))
      | inr (r, f) ↦ elim (dec_lt p.client_count max_clients) [
        | no h ↦
            rw (full_lem p addr addr_len r (omega arith))
              (inr (refl, refl, omega (arith, v.small), λ k l. f k (omega arith) l))
        | yes h ↦ rw (added_lem p addr addr_len r h) (
            inl (
              p.client_count,
              refl,
              record {
                in_table = omega arith;
                matches = ground (arith, known);
                table = appended-IsTable p addr addr_len v h (λ k l. f k (omega arith) l);
                more = omega arith;
                others = λ k l. ground arith;
                new = λ l. (refl, refl, ground arith);
              },
            ))
      ]
    ]

same_port-equal : (a b port : ℕ) → sockaddr_equal (inet b port) (inet a port) ≡ true
unfolding sockaddr_equal
same_port-equal a b port = ground arith

-- A client with an IPv4 address takes over all messages from other IPv4 addresses with its port: they
-- get the number of a client that is there already, and the table stays as it is.
pub lookup_client_info-same_port :
    (p : UdpComms) (i a b port addr_len : ℕ)
    → i < p.client_count
    → (p.client i).saddr ≡ inet a port
    → (k : ℕ) × (k < p.client_count) × (lookup_client_info p (inet b port) addr_len ≡ (p, pos k))
lookup_client_info-same_port p i a b port addr_len l e =
    elim (find_client_cases p.client_count p.client (inet b port) 0 p.client_count (omega arith)) [
      | inl (k, r, f) ↦ (k, f.to, found_lem p (inet b port) addr_len k r)
      | inr (r, f) ↦ absurd (
          ground (
            arith,
            same_port-equal a b port,
            subst (λ s. sockaddr_equal (inet b port) s ≡ false) e (f i (omega arith) l),
          ))
    ]
