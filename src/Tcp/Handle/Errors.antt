-- ===== src/Tcp/Handle/Errors.antt =====
-- Messages that are too short.
use jpl_vision.Common.{ℕ, ◌<◌, ◌≡◌, refl, Bool, true, List, [], ◌∷◌, none, some, arith}
use jpl_vision.Common.Memory.{Array}
use jpl_vision.Tcp.Types.{TcpParams, Floats}
use jpl_vision.Tcp.Handle.{
  Tag, quit, handle, Connection, received, tag_in, tags, switch, finish, message_round,
}
use jpl_vision.Tcp.Cases.{Handled}

handle-short :
    (f : Floats) (t : Tag) (m : Array ℕ) (n : ℕ) (p : TcpParams) → n < 7 → handle f t m n p ≡ none
unfolding handle
handle-short f quit m n p h = ground arith
handle-short f _ m n p h = ground arith

-- The reports of the message_rounds.
pub reports : Floats → Connection → List (Array ℕ × ℕ) → List Bool
reports f c [] = []
reports f c ((packet, bytes) ∷ ms) =
    let r = message_round f c packet bytes in r.too_few ∷ reports f r.state ms

abbrev pub AllTrue : List Bool → Type 0
AllTrue [] = Unit {0}
AllTrue (b ∷ bs) = (b ≡ true) × AllTrue bs

finish-sticky :
    (c : Connection) (m : Array ℕ) (h : Handled)
    → c.error_seen ≡ true
    → ((finish c m h).too_few ≡ true) × ((finish c m h).state.error_seen ≡ true)
unfolding finish
finish-sticky c m none e = (refl, refl)
finish-sticky c m (some (p, calls)) e = (e, e)

reports-sticky :
    (f : Floats) (c : Connection) (ms : List (Array ℕ × ℕ))
    → c.error_seen ≡ true
    → AllTrue (reports f c ms)
unfolding reports message_round
reports-sticky f c [] e = tt
reports-sticky f c ((packet, bytes) ∷ ms) e =
    let m = received c.mesg packet bytes in
    let s = finish-sticky c m (switch f (tag_in tags 0 (m 0)) m bytes c.params) e in
    (s.0, reports-sticky f (message_round f c packet bytes).state ms s.1)

-- A message of a known tag with less than seven bytes changes no parameter and calls no setter, and
-- is reported; but error_seen stays set, so that every later message of the connection, complete or
-- not, is reported as too short as well.
pub message_round_short :
    (f : Floats) (c : Connection) (packet : Array ℕ) (bytes : ℕ) (t : Tag)
    (later : List (Array ℕ × ℕ))
    → tag_in tags 0 (received c.mesg packet bytes 0) ≡ some t
    → bytes < 7
    → let r = message_round f c packet bytes in
      (r.state.params ≡ c.params)
      × (r.calls ≡ [])
      × (r.too_few ≡ true)
      × AllTrue (reports f r.state later)
unfolding message_round switch finish
message_round_short f c packet bytes t later e h =
    let m = received c.mesg packet bytes in
    rw (e, handle-short f t m bytes c.params h)
      (
        refl,
        refl,
        refl,
        reports-sticky f (record { mesg = m; error_seen = true; params = c.params }) later refl,
      )
