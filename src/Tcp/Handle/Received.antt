-- ===== src/Tcp/Handle/Received.antt =====
-- A message is judged by the bytes that have come only: what the buffer held before does not matter.
use jpl_vision.Common.{ℕ, ◌+◌, ◌<◌, ◌≡◌, refl, arith, Option, some, none}
use jpl_vision.Common.Memory.{Array}
use jpl_vision.Tcp.Types.{TcpParams, Floats}
use jpl_vision.Tcp.Handle.{
  Tag, quit, handle, Connection, received, message_round, tag_in, tags, switch, finish,
  MessageRound,
}
use jpl_vision.Tcp.Cases.{word_at, Handled}

-- The first `n` bytes are the same.
abbrev pub SameBytes : ℕ → Array ℕ → Array ℕ → Type 0
SameBytes n m m' = (k : ℕ) → k < n → m k ≡ m' k

word_at-same :
    (n : ℕ) (m m' : Array ℕ) (k : ℕ) → SameBytes n m m' → k + 3 < n → word_at m k ≡ word_at m' k
unfolding word_at
word_at-same n m m' k s h = omega (
  arith,
  s k (omega arith),
  s (k + 1) (omega arith),
  s (k + 2) (omega arith),
  s (k + 3) (omega arith),
)

pub handle-same :
    (f : Floats) (t : Tag) (m m' : Array ℕ) (n : ℕ) (p : TcpParams)
    → SameBytes n m m'
    → handle f t m n p ≡ handle f t m' n p
unfolding handle
handle-same f quit m m' n p s = ground (arith, word_at-same n m m' 4 s)
handle-same f _ m m' n p s = ground (
  arith,
  word_at-same n m m' 4 s,
  word_at-same n m m' 8 s,
  word_at-same n m m' 12 s,
  word_at-same n m m' 16 s,
  s 1,
  s 2,
  s 3,
  s 4,
  s 5,
  s 6,
)

switch-same :
    (f : Floats) (o : Option Tag) (m m' : Array ℕ) (n : ℕ) (p : TcpParams)
    → SameBytes n m m'
    → switch f o m n p ≡ switch f o m' n p
unfolding switch
switch-same f none m m' n p s = refl
switch-same f (some t) m m' n p s = handle-same f t m m' n p s

-- Two message_rounds do the same to the parameters and the camera, and report the same.
pub record SameRound (r r' : MessageRound) : Type 0 where
  pub same_params : r.state.params ≡ r'.state.params
  pub same_error : r.state.error_seen ≡ r'.state.error_seen
  pub same_calls : r.calls ≡ r'.calls
  pub same_report : r.too_few ≡ r'.too_few

finish-SameRound :
    (c : Connection) (mesg m m' : Array ℕ) (h : Handled)
    → SameRound (finish c m h) (finish (record c { mesg = mesg }) m' h)
unfolding finish
finish-SameRound c mesg m m' none = record {
  same_params = refl;
  same_error = refl;
  same_calls = refl;
  same_report = refl;
}
finish-SameRound c mesg m m' (some (p, calls)) = record {
  same_params = refl;
  same_error = refl;
  same_calls = refl;
  same_report = refl;
}

-- What a round of at least one byte does to the parameters and the camera, and what it reports,
-- depends on the bytes that have come in it, and not on what the buffer held before.
pub message_round-received :
    (f : Floats) (c : Connection) (mesg packet : Array ℕ) (bytes : ℕ)
    → 0 < bytes
    → SameRound
        (message_round f c packet bytes)
        (message_round f (record c { mesg = mesg }) packet bytes)
unfolding message_round
message_round-received f c mesg packet bytes h =
    let same : SameBytes bytes (received c.mesg packet bytes) (received mesg packet bytes) =
      λ k l. ground arith in
    rw
      (
        same 0 h,
        switch-same f (tag_in tags 0 (received mesg packet bytes 0)) _ _ bytes c.params same,
      )
      (finish-SameRound c mesg (received c.mesg packet bytes) (received mesg packet bytes) (
        switch f (tag_in tags 0 (received mesg packet bytes 0)) (received mesg packet bytes) bytes
          c.params))
