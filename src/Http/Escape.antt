-- ===== src/Http/Escape.antt =====
-- hex_char_to_int and unescape of plugins/output_http/httpd.c. A string is its characters before the
-- NUL; the code writes into the string that it reads, never behind the place where it reads. `none` is
-- the result -1.
use jpl_vision.Common.{
  ℕ, ◌+◌, ◌-◌, ◌*◌, ◌/◌, ◌%◌, ◌<◌, ◌≡◌, refl, ap, ◌∙◌, inl, inr, Bool, true, false, ◌&&◌, ◌||◌,
  Option, none, some, List, [], ◌∷◌, ltb, leb, ◌==◌, if◌then◌else◌, ◌>>=◌, Bool-cases, arith,
}

pub hex_char_to_int : ℕ → Option ℕ
hex_char_to_int c =
    if leb 48 c && leb c 57
    then some (c - 48)
    else if leb 97 c && leb c 102
    then some (c - 97 + 10)
    else if leb 65 c && leb c 70
    then some (c - 65 + 10)
    else none

-- The character for the two behind a `%`.
pub escaped : ℕ → ℕ → Option ℕ
unfolding hex_char_to_int
escaped h l = do rc ← hex_char_to_int h; rc' ← hex_char_to_int l; some ((rc * 16 + rc') % 256)

abbrev cons_to : Option ℕ → Option (List ℕ) → Option (List ℕ)
cons_to none rest = none
cons_to (some c) none = none
cons_to (some c) (some cs) = some (c ∷ cs)

-- With one character behind a `%` the second one that is read is the NUL, which is not a digit.
pub unescape : List ℕ → Option (List ℕ)
unfolding escaped
unescape [] = some []
unescape (c ∷ []) = if c == 37 then none else some (c ∷ [])
unescape (c ∷ h ∷ []) =
    if c == 37 then escaped h 0 >>= (λ d. some (d ∷ [])) else cons_to (some c) (unescape (h ∷ []))
unescape (c ∷ h ∷ l ∷ cs) =
    let decoded = unescape cs in
    let plain = unescape (h ∷ l ∷ cs) in
    if c == 37 then cons_to (escaped h l) decoded else cons_to (some c) plain

-- The digit, in capitals, for a number below 16.
abbrev pub hex_digit : ℕ → ℕ
hex_digit v = if ltb v 10 then 48 + v else 55 + v

-- Characters that stand for themselves in a query: letters, digits, and - . _ ~ of RFC 3986.
abbrev pub unreserved : ℕ → Bool
unreserved c =
    (leb 48 c && leb c 57)
    || (leb 65 c && leb c 90)
    || (leb 97 c && leb c 122)
    || c == 45
    || c == 46
    || c == 95
    || c == 126

-- The percent-encoding of RFC 3986, 2.1.
pub percent_encode : List ℕ → List ℕ
percent_encode [] = []
percent_encode (c ∷ cs) =
    let rest = percent_encode cs in
    if unreserved c then c ∷ rest else 37 ∷ hex_digit (c / 16) ∷ hex_digit (c % 16) ∷ rest

hex_char_to_int-hex_digit : (v : ℕ) → v < 16 → hex_char_to_int (hex_digit v) ≡ some v
unfolding hex_char_to_int
hex_char_to_int-hex_digit v h = ground arith

escaped-hex_digit : (c : ℕ) → c < 256 → escaped (hex_digit (c / 16)) (hex_digit (c % 16)) ≡ some c
unfolding escaped
escaped-hex_digit c h =
    rw
      (
        hex_char_to_int-hex_digit (c / 16) (omega arith),
        hex_char_to_int-hex_digit (c % 16) (omega arith),
      )
      (ap some (omega arith))

unreserved_plain : (c : ℕ) → unreserved c ≡ true → (c == 37) ≡ false
unreserved_plain c h = ground arith

unescape-plain :
    (c : ℕ) (cs : List ℕ) → (c == 37) ≡ false → unescape (c ∷ cs) ≡ cons_to (some c) (unescape cs)
unfolding unescape
unescape-plain c [] h = rw (h) refl
unescape-plain c (d ∷ []) h = rw (h) refl
unescape-plain c (d ∷ e ∷ cs) h = rw (h) refl

unescape-escape :
    (h l : ℕ) (cs : List ℕ) → unescape (37 ∷ h ∷ l ∷ cs) ≡ cons_to (escaped h l) (unescape cs)
unfolding unescape
unescape-escape h l cs = refl

abbrev pub AllBytes : List ℕ → Type 0
AllBytes [] = Unit {0}
AllBytes (c ∷ cs) = (c < 256) × AllBytes cs

-- What has been percent-encoded is decoded, whatever the bytes are.
pub unescape-percent_encode : (cs : List ℕ) → AllBytes cs → unescape (percent_encode cs) ≡ some cs
unfolding percent_encode unescape
unescape-percent_encode [] a = refl
unescape-percent_encode (c ∷ cs) a = elim (Bool-cases (unreserved c)) [
  | inl t ↦
      ap unescape (
        ap
          (λ b.
            if b
            then c ∷ percent_encode cs
            else 37 ∷ hex_digit (c / 16) ∷ hex_digit (c % 16) ∷ percent_encode cs)
          t)
      ∙ unescape-plain c (percent_encode cs) (unreserved_plain c t)
      ∙ ap (cons_to (some c)) (unescape-percent_encode cs a.1)
  | inr f ↦
      ap unescape (
        ap
          (λ b.
            if b
            then c ∷ percent_encode cs
            else 37 ∷ hex_digit (c / 16) ∷ hex_digit (c % 16) ∷ percent_encode cs)
          f)
      ∙ unescape-escape (hex_digit (c / 16)) (hex_digit (c % 16)) (percent_encode cs)
      ∙ ap (λ d. cons_to d (unescape (percent_encode cs))) (escaped-hex_digit c a.0)
      ∙ ap (cons_to (some c)) (unescape-percent_encode cs a.1)
]
