-- ===== src/Udp/Send/Backoff.antt =====
-- Which failed sends udp_comms_send logs.
use jpl_vision.Common.{ℕ, ◌≤◌, ◌<◌, ◌≡◌, Bool, false, List, [], ◌∷◌, arith}
use jpl_vision.Common.Int.{pos, ltb_ℤ}
use jpl_vision.Udp.Types.{SendTo, Message, UdpComms}
use jpl_vision.Udp.Send.{udp_comms_send}

-- Sends of one message after another to a client, with what sendto returns each time: the state
-- afterwards, and whether one of them was logged.
pub sends : List SendTo → UdpComms → ℕ → Message → UdpComms × List Bool
sends [] p client_no msg = (p, [])
sends (s ∷ ss) p client_no msg =
    let (q, retval, logged) = udp_comms_send s p client_no msg in
    let (q', logs) = sends ss q client_no msg in (q', logged ∷ logs)

abbrev pub AllFalse : List Bool → Type 0
AllFalse [] = Unit {0}
AllFalse (b ∷ bs) = (b ≡ false) × AllFalse bs

-- Once more sends to a client have failed than log_next_at says, none of the following failures is
-- logged.
sends-quiet :
    (ss : List SendTo) (p : UdpComms) (client_no : ℕ) (msg : Message)
    → (p.client client_no).log_next_at ≤ (p.client client_no).failed_sends
    → 0 < (p.client client_no).failed_sends
    → AllFalse (sends ss p client_no msg).1
unfolding sends udp_comms_send
sends-quiet [] p client_no msg h k = tt
sends-quiet (s ∷ ss) p client_no msg h k = (
  ground arith,
  sends-quiet ss (udp_comms_send s p client_no msg).0 client_no msg (ground arith) (ground arith),
)

-- After a send that succeeds, to a client for which a send has failed before, no failure is logged
-- any more, however many sends fail.
pub udp_comms_send-quiet :
    (s : SendTo) (ss : List SendTo) (p : UdpComms) (client_no : ℕ) (msg : Message)
    → 0 < (p.client client_no).failed_sends
    → let (q, retval, logged) = udp_comms_send s p client_no msg in
      ltb_ℤ retval (pos 0) ≡ false → AllFalse (sends ss q client_no msg).1
unfolding udp_comms_send
udp_comms_send-quiet s ss p client_no msg h ok =
    sends-quiet ss (udp_comms_send s p client_no msg).0 client_no msg (ground arith) (ground arith)
