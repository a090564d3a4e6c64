-- ===== src/Tcp/Server/Slots.antt =====
-- Which slot each connection gets.
use jpl_vision.Common.{
  ℕ, zero, suc, ◌+◌, ◌≤◌, ◌<◌, ◌≡◌, ◌∙◌, refl, ap, true, List, [], ◌∷◌, leb, min, length,
  if◌then◌else◌, ◌==◌, arith, Bool-cases, inl, inr, some, get_elem?,
}
use jpl_vision.Common.Memory.{Array}
use jpl_vision.Tcp.Types.{TcpParams, Floats}
use jpl_vision.Tcp.Server.{
  Slot, Server, Accept, max_connections, accept_round, accept_rounds, server_thread,
}

-- The slot of a connection.
abbrev pub connected_slot : Accept → Slot
connected_slot a = record { fd = a.socket; is_connected = true }

abbrev pub AllStarted : List Accept → Type 0
AllStarted [] = Unit {0}
AllStarted (a ∷ as') = (a.started ≡ true) × AllStarted as'

-- After a round that starts its thread, the work slot is again the one at the count.
round_started :
    (f : Floats) (s : Server) (a : Accept)
    → a.started ≡ true
    → s.work ≡ s.connection_count
    → s.connection_count ≤ max_connections
    → let (t, sent, goes_on) = accept_round f s a in
      (t.connection_count ≡ min (s.connection_count + 1) max_connections)
      × (t.work ≡ t.connection_count)
      × (goes_on ≡ true)
unfolding accept_round
round_started f s a h e l = elim (Bool-cases (leb max_connections s.connection_count)) [
  | inl q ↦ rw (q) (ground arith, e, refl)
  | inr q ↦ rw (q, h) (ground arith, refl, refl)
]

accept_rounds-count :
    (f : Floats) (s : Server) (as' : List Accept)
    → AllStarted as'
    → s.work ≡ s.connection_count
    → s.connection_count ≤ max_connections
    → let t = accept_rounds f s as' in
      (t.connection_count ≡ min (s.connection_count + length as') max_connections)
      × (t.work ≡ t.connection_count)
unfolding accept_rounds
accept_rounds-count f s [] h e l = (omega arith, e)
accept_rounds-count f s (a ∷ as') h e l =
    let (c, w, g) = round_started f s a h.0 e l in
    let s' = (accept_round f s a).0 in
    let (count, work) = accept_rounds-count f s' as' h.1 w (omega (arith, c)) in
    rw (g) (omega (arith, count, c), work)

-- A round writes the work slot only.
round_slots :
    (f : Floats) (s : Server) (a : Accept) (j : ℕ)
    → (accept_round f s a).0.slots j ≡ (if j == s.work then connected_slot a else s.slots j)
unfolding accept_round
round_slots f s a j = ground arith

-- The slots below the count stay, and the i-th connection gets the i-th slot from the count on.
accept_rounds-kept :
    (f : Floats) (s : Server) (as' : List Accept)
    → AllStarted as'
    → s.work ≡ s.connection_count
    → s.connection_count ≤ max_connections
    → (j : ℕ) → j < s.connection_count
    → (accept_rounds f s as').slots j ≡ s.slots j
unfolding accept_rounds
accept_rounds-kept f s [] h e l j lt = refl
accept_rounds-kept f s (a ∷ as') h e l j lt =
    let (c, w, g) = round_started f s a h.0 e l in
    let s' = (accept_round f s a).0 in
    let kept = accept_rounds-kept f s' as' h.1 w (omega (arith, c)) j (omega (arith, c)) in
    rw (g) (kept ∙ round_slots f s a j ∙ ground (arith))

accept_rounds-taken :
    (f : Floats) (s : Server) (as' : List Accept)
    → AllStarted as'
    → s.work ≡ s.connection_count
    → s.connection_count ≤ max_connections
    → (i : ℕ) (a : Accept) → s.connection_count + i < max_connections
    → get_elem? as' i ≡ some a
    → (accept_rounds f s as').slots (s.connection_count + i) ≡ connected_slot a
unfolding accept_rounds
accept_rounds-taken f s [] h e l i b lt g = absurd (cc g)
accept_rounds-taken f s (a ∷ as') h e l zero b lt g =
    let (c, w, goes) = round_started f s a h.0 e l in
    let s' = (accept_round f s a).0 in
    let kept =
      accept_rounds-kept f s' as' h.1 w (omega (arith, c)) (s.connection_count + 0)
        (omega (arith, c)) in
    let same : a ≡ b = cc g in
    let first_slot : (if s.connection_count + 0 == s.work
          then connected_slot a
          else s.slots (s.connection_count + 0))
        ≡ connected_slot a =
      ground (arith, e) in
    rw (goes)
      (kept ∙ round_slots f s a (s.connection_count + 0) ∙ first_slot ∙ ap connected_slot same)
accept_rounds-taken f s (a ∷ as') h e l (suc i) b lt g =
    let (c, w, goes) = round_started f s a h.0 e l in
    let s' = (accept_round f s a).0 in
    let taken = accept_rounds-taken f s' as' h.1 w (omega (arith, c)) i b (omega (arith, c)) g in
    rw (goes) (ap (accept_rounds f s' as').slots (omega (arith, c)) ∙ taken)

pub server_thread-count :
    (f : Floats) (slots : Array Slot) (p : TcpParams) (as' : List Accept)
    → AllStarted as'
    → let t = server_thread f slots p as' in
      (t.connection_count ≡ min (length as') max_connections) × (t.work ≡ t.connection_count)
unfolding server_thread
server_thread-count f slots p as' h =
    let s : Server = record { slots = slots; connection_count = 0; work = 0; params = p } in
    let (count, work) = accept_rounds-count f s as' h refl (omega arith) in
    (omega (arith, count), work)

pub server_thread-taken :
    (f : Floats) (slots : Array Slot) (p : TcpParams) (as' : List Accept)
    → AllStarted as'
    → (i : ℕ) (a : Accept) → i < max_connections
    → get_elem? as' i ≡ some a
    → (server_thread f slots p as').slots i ≡ connected_slot a
unfolding server_thread
server_thread-taken f slots p as' h i a l g =
    let s : Server = record { slots = slots; connection_count = 0; work = 0; params = p } in
    ap (accept_rounds f s as').slots (omega arith)
    ∙ accept_rounds-taken f s as' h refl (omega arith) i a (omega arith) g

-- While every thread can be started, the count of server_thread is the number of connections, but at
-- most 256; the i-th connection is in the i-th slot, for i below 256; and the next connection is written
-- to the slot at the count, which after 256 connections lies behind the end of the array.
pub server_thread-slots :
    (f : Floats) (slots : Array Slot) (p : TcpParams) (as' : List Accept) (i : ℕ) (a next : Accept)
    → AllStarted as'
    → i < max_connections
    → get_elem? as' i ≡ some a
    → let t = server_thread f slots p as' in
      (t.connection_count ≡ min (length as') max_connections)
      × (t.slots i ≡ connected_slot a)
      × ((accept_round f t next).0.slots (min (length as') max_connections) ≡ connected_slot next)
server_thread-slots f slots p as' i a next h l g =
    let t = server_thread f slots p as' in
    let (count, work) = server_thread-count f slots p as' h in
    (
      count,
      server_thread-taken f slots p as' h i a l g,
      round_slots f t next (min (length as') max_connections) ∙ ground (arith, count, work),
    )
