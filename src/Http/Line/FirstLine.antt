-- ===== src/Http/Line/FirstLine.antt =====
-- _readline gives the first line of the bytes that come, however they come.
use jpl_vision.Common.{
  ℕ, zero, suc, ◌≡◌, refl, ap, ◌∙◌, inl, inr, true, Option, none, some, List, [], ◌∷◌, ◌++◌, length,
  ◌==◌, leb, min, arith, if◌then◌else◌, Bool-cases,
}
use jpl_vision.Http.Line.{
  Arrival, arrived, timed_out, closed, select_failed, bytes_read, read_from, read, Line, line_read,
  line_error, line_exited, after_char, readline, readline_turn,
}

-- The bytes that come without a pause that is too long, an end or an error.
abbrev pub coming : List Arrival → List ℕ
coming [] = []
coming (arrived c cs ∷ later) = c ∷ (cs ++ coming later)
coming (timed_out ∷ later) = []
coming (closed ∷ later) = []
coming (select_failed ∷ later) = []

abbrev pub with_char : ℕ → Option (List ℕ × List ℕ) → Option (List ℕ × List ℕ)
with_char c none = none
with_char c (some (line, rest)) = some (c ∷ line, rest)

-- The line at the start of the bytes, with its line feed, or as long as there is room for, and what
-- is behind it.
pub first_line : ℕ → List ℕ → Option (List ℕ × List ℕ)
first_line zero cs = some ([], cs)
first_line (suc len) [] = none
first_line (suc len) (c ∷ cs) =
    if c == 10 then some (c ∷ [], cs) else with_char c (first_line len cs)

-- The line and all the bytes that come after it.
abbrev pub outcome : Line → Option (List ℕ × List ℕ)
outcome (line_read line iobuf arrivals) = some (line, iobuf ++ coming arrivals)
outcome line_error = none
outcome line_exited = none

min-one : (n : ℕ) → min (suc n) 1 ≡ 1
min-one n = omega arith

one_fits : (n : ℕ) → leb 1 (suc n) ≡ true
one_fits n = ground arith

read-one :
    (c : ℕ) (cs : List ℕ) (arrivals : List Arrival)
    → read arrivals (c ∷ cs) 1 ≡ bytes_read (c ∷ []) cs arrivals
unfolding read read_from
read-one c cs [] = rw (min-one (length cs)) refl
read-one c cs (arrived d ds ∷ later) = rw (min-one (length cs), one_fits (length cs)) refl
read-one c cs (timed_out ∷ later) = rw (min-one (length cs), one_fits (length cs)) refl
read-one c cs (closed ∷ later) = rw (min-one (length cs), one_fits (length cs)) refl
read-one c cs (select_failed ∷ later) = rw (min-one (length cs), one_fits (length cs)) refl

outcome-after_char : (c : ℕ) (l : Line) → outcome (after_char c l) ≡ with_char c (outcome l)
outcome-after_char c (line_read line iobuf arrivals) = refl
outcome-after_char c line_error = refl
outcome-after_char c line_exited = refl

-- A line from a character that has been read.
from_char :
    (len c : ℕ) (cs : List ℕ) (arrivals since : List Arrival) (iobuf : List ℕ)
    → read arrivals iobuf 1 ≡ bytes_read (c ∷ []) cs since
    → outcome (readline len since cs) ≡ first_line len (cs ++ coming since)
    → outcome (readline (suc len) arrivals iobuf) ≡ first_line (suc len) (c ∷ (cs ++ coming since))
unfolding readline readline_turn first_line
from_char len c cs arrivals since iobuf e h = elim (Bool-cases (c == 10)) [
  | inl t ↦ rw (e, t) refl
  | inr f ↦ rw (e, f) (outcome-after_char c (readline len since cs) ∙ ap (with_char c) h)
]

-- _readline gives the first line of the bytes that come, up to its line feed or to the length that
-- there is room for, and leaves all the bytes behind it, however they are divided between the reads;
-- it gives -1, or the program exits, exactly if a pause, the end or an error comes before that.
pub readline-first_line :
    (len : ℕ) (arrivals : List Arrival) (iobuf : List ℕ)
    → outcome (readline len arrivals iobuf) ≡ first_line len (iobuf ++ coming arrivals)
unfolding readline readline_turn first_line read read_from
readline-first_line zero arrivals iobuf = refl
readline-first_line (suc len) arrivals (c ∷ cs) =
    from_char len c cs arrivals arrivals (c ∷ cs) (read-one c cs arrivals)
      (readline-first_line len arrivals cs)
readline-first_line (suc len) [] [] = refl
readline-first_line (suc len) (arrived c cs ∷ later) [] =
    from_char len c cs (arrived c cs ∷ later) later [] (read-one c cs later)
      (readline-first_line len later cs)
readline-first_line (suc len) (timed_out ∷ later) [] = refl
readline-first_line (suc len) (closed ∷ later) [] = refl
readline-first_line (suc len) (select_failed ∷ later) [] = refl
