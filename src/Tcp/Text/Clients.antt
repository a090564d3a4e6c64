-- ===== src/Tcp/Text/Clients.antt =====
-- Who gets the text, and what it reads.
use jpl_vision.Common.{
  ℕ, zero, suc, ◌+◌, ◌<◌, ◌≡◌, ◌≢◌, ◌∙◌, refl, ap, some, List, [], ◌∷◌, take, map, min, length,
  get_elem?, if◌then◌else◌, ◌==◌, arith,
}
use jpl_vision.Common.Memory.{Array}
use jpl_vision.Tcp.Types.{TcpParams, Floats}
use jpl_vision.Tcp.Server.{Slot, Accept, max_connections, server_thread}
use jpl_vision.Tcp.Server.Slots.{
  AllStarted, connected_slot, server_thread-count, server_thread-taken,
}
use jpl_vision.Tcp.Text.{strncpy, text_message, send_from, tcp_comms_send_string}

-- A string in memory: the bytes before the first NUL.
abbrev pub until_nul : List ℕ → List ℕ
until_nul [] = []
until_nul (c ∷ s) = let rest = until_nul s in if c == 0 then [] else c ∷ rest

abbrev pub NoNul : List ℕ → Type 0
NoNul [] = Unit {0}
NoNul (c ∷ s) = (c ≢ 0) × NoNul s

length-strncpy : (n : ℕ) (s : List ℕ) → length (strncpy n s) ≡ n
unfolding strncpy
length-strncpy zero s = refl
length-strncpy (suc n) [] = omega (arith, length-strncpy n [])
length-strncpy (suc n) (c ∷ s) = omega (arith, length-strncpy n s)

until_nul-strncpy : (n : ℕ) (s : List ℕ) → NoNul s → until_nul (strncpy n s) ≡ take n s
unfolding strncpy
until_nul-strncpy zero s h = refl
until_nul-strncpy (suc n) [] h = refl
until_nul-strncpy (suc n) (c ∷ s) h = grind (arith, until_nul-strncpy n s h.1, h.0)

-- If the i-th slot from `ii` on has the i-th accepted connection, the text goes to
-- their sockets.
send_from-taken :
    (slots : Array Slot) (msg : List ℕ) (ii n : ℕ) (as' : List Accept)
    → ((i : ℕ) (a : Accept) → i < n → get_elem? as' i ≡ some a → slots (ii + i) ≡ connected_slot a)
    → send_from slots msg ii (min (length as') n)
      ≡ map (λ (a : Accept). (a.socket, msg)) (take n as')
unfolding send_from
send_from-taken slots msg ii zero as' h =
    let e : min (length as') 0 ≡ 0 = omega arith in rw (e) refl
send_from-taken slots msg ii (suc n) [] h = let e : min 0 (suc n) ≡ 0 = omega arith in rw (e) refl
send_from-taken slots msg ii (suc n) (a ∷ as') h =
    let first : slots ii ≡ connected_slot a = ap slots (omega arith) ∙ h 0 a (omega arith) refl in
    let rest =
      send_from-taken slots msg (ii + 1) n as'
        (λ i b l g. ap slots (omega arith) ∙ h (suc i) b (omega arith) g) in
    let e : min (suc (length as')) (suc n) ≡ suc (min (length as') n) = omega arith in
    rw (e, first) (ap (λ r. (a.socket, msg) ∷ r) rest)

-- A text goes, in one message, to the first 256 connections that server_thread has accepted, while
-- every thread can be started and no connection has ended, in the order of their accepts.
-- The message is the colour and 80 bytes, in which the bytes before the first NUL
-- are the first 80 characters of the text, if it has no NUL.
pub tcp_comms_send_string-server_thread :
    (f : Floats) (slots : Array Slot) (p : TcpParams) (as' : List Accept) (colour : ℕ)
    (string : List ℕ)
    → AllStarted as'
    → NoNul string
    → let msg = text_message colour string in
      (tcp_comms_send_string (server_thread f slots p as') colour string
        ≡ map (λ (a : Accept). (a.socket, msg)) (take max_connections as'))
      × ((text : List ℕ) × (msg ≡ colour ∷ text)
          × (length text ≡ 80)
          × (until_nul text ≡ take 80 string))
unfolding tcp_comms_send_string text_message
tcp_comms_send_string-server_thread f slots p as' colour string h nn =
    let t = server_thread f slots p as' in
    let (count, work) = server_thread-count f slots p as' h in
    let taken = server_thread-taken f slots p as' h in
    let to_all =
      send_from-taken t.slots (text_message colour string) 0 max_connections as'
        (λ i a l g. ap t.slots (omega arith) ∙ taken i a l g) in
    (
      rw (count) to_all,
      (strncpy 80 string, refl, length-strncpy 80 string, until_nul-strncpy 80 string nn),
    )
