-- ===== src/Proxy/Chunks.antt =====
-- How the bytes of a connection come in chunks, and that the flag stops the loops.
use jpl_vision.Common.{
  ℕ, ◌≡◌, refl, ap, sym, ◌∙◌, inl, inr, Bool, true, false, Option, none, some, List, [], ◌∷◌, ◌++◌,
  ◌||◌, ◌>>=◌, if◌then◌else◌, Option-cases, Bool-cases, append_assoc, append_nil,
}
use jpl_vision.Proxy.{ExtractorState, Received, extract_byte, extract_data, process_response}
use jpl_vision.Proxy.Header.{read_all}

abbrev Outcome : Type 0
Outcome = Option (ExtractorState × List Received)

-- The images before and those of the rest of the run.
abbrev pub followed_by : List Received → Outcome → Outcome
followed_by images none = none
followed_by images (some (u, later)) = some (u, images ++ later)

followed_by-nil : (o : Outcome) → followed_by [] o ≡ o
followed_by-nil none = refl
followed_by-nil (some (u, later)) = refl

followed_by-append :
    (xs ys : List Received) (o : Outcome)
    → followed_by (xs ++ ys) o ≡ followed_by xs (followed_by ys o)
followed_by-append xs ys none = refl
followed_by-append xs ys (some (u, later)) = ap (λ l. some (u, l)) (append_assoc xs ys later)

pub extract_data-cons :
    (s t : ExtractorState) (c : ℕ) (cs : List (Bool × ℕ)) (images : List Received)
    → extract_byte s.part s c ≡ some (t, images)
    → extract_data s ((false, c) ∷ cs) ≡ followed_by images (extract_data t cs)
unfolding extract_data
extract_data-cons s t c cs images e = elim (Option-cases (extract_data t cs)) [
  | inl n ↦ rw (e, n) refl
  | inr ((u, later), r) ↦ rw (e, r) refl
]

pub extract_data-cons_fails :
    (s : ExtractorState) (c : ℕ) (cs : List (Bool × ℕ))
    → extract_byte s.part s c ≡ none
    → extract_data s ((false, c) ∷ cs) ≡ none
unfolding extract_data
extract_data-cons_fails s c cs e = rw (e) refl

abbrev pub then_read : Outcome → List ℕ → Outcome
then_read none ys = none
then_read (some (t, images)) ys = followed_by images (extract_data t (read_all ys))

then_read-followed_by :
    (images : List Received) (o : Outcome) (ys : List ℕ)
    → followed_by images (then_read o ys) ≡ then_read (followed_by images o) ys
then_read-followed_by images none ys = refl
then_read-followed_by images (some (t, more)) ys =
    sym (followed_by-append images more (extract_data t (read_all ys)))

-- A run over bytes one after the other.
pub extract_data-append :
    (s : ExtractorState) (xs ys : List ℕ)
    → extract_data s (read_all (xs ++ ys)) ≡ then_read (extract_data s (read_all xs)) ys
unfolding extract_data
extract_data-append s [] ys = sym (followed_by-nil (extract_data s (read_all ys)))
extract_data-append s (x ∷ xs) ys = elim (Option-cases (extract_byte s.part s x)) [
  | inl n ↦
      extract_data-cons_fails s x (read_all (xs ++ ys)) n
      ∙ ap (λ o. then_read o ys) (sym (extract_data-cons_fails s x (read_all xs) n))
  | inr ((t, images), e) ↦
      extract_data-cons s t x (read_all (xs ++ ys)) images e
      ∙ ap (followed_by images) (extract_data-append t xs ys)
      ∙ then_read-followed_by images (extract_data t (read_all xs)) ys
      ∙ ap (λ o. then_read o ys) (sym (extract_data-cons s t x (read_all xs) images e))
]

abbrev pub join : List (List ℕ) → List ℕ
join [] = []
join (chunk ∷ chunks) = chunk ++ join chunks

-- Chunks that are read while nothing stops the client.
abbrev pub unstopped : List (List ℕ) → List (Bool × List (Bool × ℕ))
unstopped [] = []
unstopped (chunk ∷ chunks) = (false, read_all chunk) ∷ unstopped chunks

abbrev pub images_of : Outcome → Option (List Received)
images_of none = none
images_of (some (u, images)) = some images

images_of-followed_by :
    (images : List Received) (o : Outcome)
    → images_of (followed_by images o) ≡ (images_of o >>= λ later. some (images ++ later))
images_of-followed_by images none = refl
images_of-followed_by images (some (u, later)) = refl

-- The chunks can be cut anywhere.
pub process_response-join :
    (s : ExtractorState) (chunks : List (List ℕ))
    → process_response s (unstopped chunks) ≡ images_of (extract_data s (read_all (join chunks)))
unfolding process_response
process_response-join s [] = refl
process_response-join s (chunk ∷ chunks) = elim (Option-cases (extract_data s (read_all chunk))) [
  | inl n ↦ rw (extract_data-append s chunk (join chunks), n) refl
  | inr ((t, images), e) ↦
      rw
        (
          extract_data-append s chunk (join chunks),
          e,
          images_of-followed_by images (extract_data t (read_all (join chunks))),
          process_response-join t chunks,
        )
        refl
]

abbrev pub any_set : List (Bool × ℕ) → Bool
any_set [] = false
any_set ((b, c) ∷ cs) = b || any_set cs

abbrev pub NextSet : List (Bool × List (Bool × ℕ)) → Type 0
NextSet [] = Unit {0}
NextSet ((b, chunk) ∷ chunks) = b ≡ true

-- The flag is not reset: once it was found set before a byte, it is set after the next call of recv.
abbrev pub StaysSet : List (Bool × List (Bool × ℕ)) → Type 0
StaysSet [] = Unit {0}
StaysSet ((b, chunk) ∷ chunks) = (any_set chunk ≡ true → NextSet chunks) × StaysSet chunks

-- The bytes of a chunk up to the first reading of the flag that finds it set.
abbrev pub before_stop : List (Bool × ℕ) → List ℕ
before_stop [] = []
before_stop ((b, c) ∷ cs) = if b then [] else c ∷ before_stop cs

-- All bytes up to the first reading of the flag, behind recv or before a byte, that finds it set.
abbrev pub bytes_before_stop : List (Bool × List (Bool × ℕ)) → List ℕ
bytes_before_stop [] = []
bytes_before_stop ((b, chunk) ∷ chunks) =
    let rest = bytes_before_stop chunks in
    if b then [] else before_stop chunk ++ (if any_set chunk then [] else rest)

process_response-NextSet :
    (t : ExtractorState) (chunks : List (Bool × List (Bool × ℕ)))
    → NextSet chunks
    → process_response t chunks ≡ some []
unfolding process_response
process_response-NextSet t [] h = refl
process_response-NextSet t ((true, chunk) ∷ chunks) h = refl
process_response-NextSet t ((false, chunk) ∷ chunks) h = absurd (cc h)

extract_data-before_stop :
    (s : ExtractorState) (cs : List (Bool × ℕ))
    → extract_data s cs ≡ extract_data s (read_all (before_stop cs))
unfolding extract_data
extract_data-before_stop s [] = refl
extract_data-before_stop s ((true, c) ∷ cs) = refl
extract_data-before_stop s ((false, c) ∷ cs) = elim (Option-cases (extract_byte s.part s c)) [
  | inl n ↦
      extract_data-cons_fails s c cs n
      ∙ sym (extract_data-cons_fails s c (read_all (before_stop cs)) n)
  | inr ((t, images), e) ↦
      extract_data-cons s t c cs images e
      ∙ ap (followed_by images) (extract_data-before_stop t cs)
      ∙ sym (extract_data-cons s t c (read_all (before_stop cs)) images e)
]

-- A chunk in which the flag is found set is the last one.
process_response-any_set :
    (s : ExtractorState) (chunk : List (Bool × ℕ)) (chunks : List (Bool × List (Bool × ℕ)))
    → NextSet chunks
    → process_response s ((false, chunk) ∷ chunks) ≡ images_of (extract_data s chunk)
unfolding process_response
process_response-any_set s chunk chunks h = elim (Option-cases (extract_data s chunk)) [
  | inl n ↦ rw (n) refl
  | inr ((t, images), e) ↦ rw (e, process_response-NextSet t chunks h) (ap some (append_nil images))
]

-- A chunk before others.
process_response-next :
    (s : ExtractorState) (chunk : List (Bool × ℕ)) (chunks : List (Bool × List (Bool × ℕ)))
    → let bytes = bytes_before_stop chunks in
      ((t : ExtractorState)
        → process_response t chunks ≡ images_of (extract_data t (read_all bytes)))
      → process_response s ((false, chunk) ∷ chunks)
        ≡ images_of (extract_data s (read_all (before_stop chunk ++ bytes)))
unfolding process_response
process_response-next s chunk chunks k =
    let bytes = bytes_before_stop chunks in
    let start = extract_data-before_stop s chunk in
    let split = extract_data-append s (before_stop chunk) bytes in
    elim (Option-cases (extract_data s chunk)) [
      | inl n ↦ rw (split, sym start, n) refl
      | inr ((t, images), e) ↦
          rw
            (
              split,
              sym start,
              e,
              images_of-followed_by images (extract_data t (read_all bytes)),
              k t,
            )
            refl
    ]

-- If the flag, once it is found set while the bytes of a chunk are processed, is set at the next
-- reading behind recv too, then the callbacks of a connection, in their order, are those of one run
-- over the bytes that come before the first reading that finds it set, and the connection fails if
-- that run does. Bytes and chunks behind that reading have no effect.
pub process_response-bytes_before_stop :
    (s : ExtractorState) (chunks : List (Bool × List (Bool × ℕ)))
    → StaysSet chunks
    → process_response s chunks ≡ images_of (extract_data s (read_all (bytes_before_stop chunks)))
unfolding process_response
process_response-bytes_before_stop s [] k = refl
process_response-bytes_before_stop s ((true, chunk) ∷ chunks) k = refl
process_response-bytes_before_stop s ((false, chunk) ∷ chunks) k =
    elim (Bool-cases (any_set chunk)) [
      | inl b ↦
          rw (b, append_nil (before_stop chunk))
            (process_response-any_set s chunk chunks (k.0 b)
              ∙ ap images_of (extract_data-before_stop s chunk))
      | inr b ↦ rw (b) (
          process_response-next s chunk chunks
            (λ t. process_response-bytes_before_stop t chunks k.1))
    ]
