-- ===== src/Tcp/Text.antt =====
-- The text sent to the clients, tcp_comms_send_string of tcp_comms.c, and the end of
-- a connection. A string is its characters before the NUL.
pub mod Clients
use jpl_vision.Common.{
  ℕ, zero, suc, ◌+◌, Bool, true, false, Option, none, some, List, [], ◌∷◌, if◌then◌else◌,
}
use jpl_vision.Common.Memory.{Array, update}
use jpl_vision.Tcp.Server.{Slot, Server}

-- The `n` bytes that strncpy writes.
pub strncpy : ℕ → List ℕ → List ℕ
strncpy zero s = []
strncpy (suc n) [] = 0 ∷ strncpy n []
strncpy (suc n) (c ∷ s) = c ∷ strncpy n s

abbrev pub max_string : ℕ
max_string = 80

-- What tcp_comms_send_string sends to each client.
pub text_message : ℕ → List ℕ → List ℕ
unfolding strncpy
text_message colour string = colour ∷ strncpy max_string string

-- The loop over the slots from `ii` on: each call of send with its descriptor.
pub send_from : Array Slot → List ℕ → ℕ → ℕ → List (ℕ × List ℕ)
send_from slots msg ii zero = []
send_from slots msg ii (suc n) =
    let rest = send_from slots msg (ii + 1) n in
    if (slots ii).is_connected then ((slots ii).fd, msg) ∷ rest else rest

pub tcp_comms_send_string : Server → ℕ → List ℕ → List (ℕ × List ℕ)
unfolding text_message send_from
tcp_comms_send_string s colour string =
    send_from s.slots (text_message colour string) 0 s.connection_count

-- The end of connection_thread for the client in slot `i`: only if the connection was reset, it is
-- not connected any more.
pub connection_end : Server → ℕ → Bool → Server
connection_end s i was_reset =
    if was_reset
    then record s { slots = update s.slots i (record (s.slots i) { is_connected = false }) }
    else s
