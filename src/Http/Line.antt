-- ===== src/Http/Line.antt =====
-- The lines of a request, _read and _readline of plugins/output_http/httpd.c. The iobuffer is the bytes
-- of it that are not used yet: the last `level` of its array.
pub mod FirstLine
use jpl_vision.Common.{
  ℕ, zero, suc, ◌+◌, ◌-◌, Bool, true, false, Option, none, some, List, [], ◌∷◌, ◌++◌, length, take,
  ltb, leb, ◌==◌, min, if◌then◌else◌,
}

-- What select and read do the next time: bytes, at least one and at most 256; no bytes in time; the end of the
-- connection or an error of read; an error of select.
pub data Arrival : Type 0 where
  arrived : ℕ → List ℕ → Arrival
  timed_out closed select_failed : Arrival

-- The bytes and the state after them, -1, or the exit of the program.
pub data Reading : Type 0 where
  bytes_read : List ℕ → List ℕ → List Arrival → Reading
  read_error : Reading
  exited : Reading

unfoldable pub drop : ℕ → List ℕ → List ℕ
drop zero xs = xs
drop (suc n) [] = []
drop (suc n) (x ∷ xs) = drop n xs

-- The bytes so far after some of those in the iobuffer are copied, and what stays there.
abbrev pub copied_on : List ℕ → ℕ → List ℕ → List ℕ
copied_on iobuf missing copied = copied ++ take (min (length iobuf) missing) iobuf

abbrev pub kept : List ℕ → ℕ → List ℕ
kept iobuf missing = drop (min (length iobuf) missing) iobuf

-- `missing` is len - copied. Without arrivals, nothing comes in time.
unfoldable pub read_from : List Arrival → List ℕ → ℕ → List ℕ → Reading
unfolding drop
read_from [] iobuf missing copied =
    bytes_read (copied_on iobuf missing copied) (kept iobuf missing) []
read_from (arrived c cs ∷ later) iobuf missing copied =
    let rest = read_from later (c ∷ cs) (missing - length iobuf) (copied_on iobuf missing copied) in
    if leb missing (length iobuf)
    then bytes_read (copied_on iobuf missing copied) (kept iobuf missing) (arrived c cs ∷ later)
    else rest
read_from (timed_out ∷ later) iobuf missing copied =
    bytes_read (copied_on iobuf missing copied) (kept iobuf missing)
      (if leb missing (length iobuf) then timed_out ∷ later else later)
read_from (closed ∷ later) iobuf missing copied =
    if leb missing (length iobuf)
    then bytes_read (copied_on iobuf missing copied) (kept iobuf missing) (closed ∷ later)
    else read_error
read_from (select_failed ∷ later) iobuf missing copied =
    if leb missing (length iobuf)
    then bytes_read (copied_on iobuf missing copied) (kept iobuf missing) (select_failed ∷ later)
    else exited

pub read : List Arrival → List ℕ → ℕ → Reading
unfolding read_from
read arrivals iobuf len = read_from arrivals iobuf len []

-- What _readline gives: the line and the state after it, -1, or the exit of the program.
pub data Line : Type 0 where
  line_read : List ℕ → List ℕ → List Arrival → Line
  line_error : Line
  line_exited : Line

-- The rest of the line after a character of it.
abbrev pub after_char : ℕ → Line → Line
after_char c (line_read line iobuf arrivals) = line_read (c ∷ line) iobuf arrivals
after_char c line_error = line_error
after_char c line_exited = line_exited

-- One turn of the loop, where `next` is the rest of the loop.
unfoldable pub readline_turn : Reading → (List Arrival → List ℕ → Line) → Line
readline_turn (bytes_read [] iobuf arrivals) next = line_error
readline_turn (bytes_read (c ∷ cs) iobuf arrivals) next =
    if c == 10 then line_read (c ∷ []) iobuf arrivals else after_char c (next arrivals iobuf)
readline_turn read_error next = line_error
readline_turn exited next = line_exited

-- The loop: `len` is how many characters there is still room for.
unfoldable pub readline : ℕ → List Arrival → List ℕ → Line
unfolding read readline_turn
readline zero arrivals iobuf = line_read [] iobuf arrivals
readline (suc len) arrivals iobuf = readline_turn (read arrivals iobuf 1) (readline len)
