-- ===== src/Http/Base64.antt =====
-- What has been encoded is decoded.
use jpl_vision.Common.{
  ℕ, ◌+◌, ◌-◌, ◌*◌, ◌/◌, ◌%◌, ◌^◌, ◌<◌, ◌≡◌, refl, ◌∙◌, some, List, [], ◌∷◌, ◌++◌, ltb, ◌==◌,
  if◌then◌else◌, arith,
}
use jpl_vision.Http.{base64_value, decode_round, decode_from, decode_base64}

-- The encoding of RFC 4648: a character for each six bits, and `=` where the last group has less than
-- three bytes.
abbrev pub base64_char : ℕ → ℕ
base64_char v =
    if ltb v 26
    then 65 + v
    else if ltb v 52
    then 97 + (v - 26)
    else if ltb v 62
    then 48 + (v - 52)
    else if v == 62
    then 43
    else 47

pub base64_encode : List ℕ → List ℕ
base64_encode [] = []
base64_encode (a ∷ []) = base64_char (a / 4) ∷ base64_char (a % 4 * 16) ∷ 61 ∷ 61 ∷ []
base64_encode (a ∷ b ∷ []) =
    base64_char (a / 4) ∷ base64_char (a % 4 * 16 + b / 16) ∷ base64_char (b % 16 * 4) ∷ 61 ∷ []
base64_encode (a ∷ b ∷ c ∷ bytes) =
    base64_char (a / 4)
    ∷ base64_char (a % 4 * 16 + b / 16)
    ∷ base64_char (b % 16 * 4 + c / 64)
    ∷ base64_char (c % 64)
    ∷ base64_encode bytes

-- The NULs that the last group is filled up with.
pub padding : List ℕ → List ℕ
padding [] = []
padding (a ∷ []) = 0 ∷ 0 ∷ []
padding (a ∷ b ∷ []) = 0 ∷ []
padding (a ∷ b ∷ c ∷ bytes) = padding bytes

abbrev pub AllBytes : List ℕ → Type 0
AllBytes [] = Unit {0}
AllBytes (b ∷ bs) = (b < 256) × AllBytes bs

base64_value-char : (v : ℕ) → v < 64 → base64_value (base64_char v) ≡ some v
unfolding base64_value
base64_value-char v h = ground arith

equals_sign : base64_value 61 ≡ some 0
unfolding base64_value
equals_sign = refl

-- The last 24 bits of the number after four characters.
abbrev pub word_after : ℕ → ℕ → ℕ → ℕ → ℕ → ℕ
word_after ch a b c d =
    ((((ch * 64 + a) % 2 ^ 32 * 64 + b) % 2 ^ 32 * 64 + c) % 2 ^ 32 * 64 + d) % 2 ^ 32

word_after-low :
    (ch a b c d : ℕ)
    → a < 64
    → b < 64
    → c < 64
    → d < 64
    → word_after ch a b c d % 2 ^ 24 ≡ a * 2 ^ 18 + b * 2 ^ 12 + c * 2 ^ 6 + d
word_after-low ch a b c d la lb lc ld = omega arith

word_bytes :
    (w a b c d : ℕ)
    → a < 64
    → b < 64
    → c < 64
    → d < 64
    → w % 2 ^ 24 ≡ a * 2 ^ 18 + b * 2 ^ 12 + c * 2 ^ 6 + d
    → (w / 2 ^ 16 % 256 ≡ a * 4 + b / 16)
      × (w / 2 ^ 8 % 256 ≡ b % 16 * 16 + c / 4)
      × (w % 256 ≡ c % 4 * 64 + d)
word_bytes w a b c d la lb lc ld e = (omega arith, omega arith, omega arith)

-- A group of four characters with known values.
decode_from-group :
    (s t u v : ℕ) (a b c d : ℕ) (rest : List ℕ) (ch : ℕ)
    → base64_value s ≡ some a
    → base64_value t ≡ some b
    → base64_value u ≡ some c
    → base64_value v ≡ some d
    → a < 64
    → b < 64
    → c < 64
    → d < 64
    → (ch' : ℕ) × (decode_from (s ∷ t ∷ u ∷ v ∷ rest) ch 0
        ≡ (a * 4 + b / 16) ∷ (b % 16 * 16 + c / 4) ∷ (c % 4 * 64 + d) ∷ decode_from rest ch' 0)
unfolding decode_from decode_round
decode_from-group s t u v a b c d rest ch ea eb ec ed la lb lc ld =
    let w = word_after ch a b c d in
    let (first, second, third) =
      word_bytes w a b c d la lb lc ld (word_after-low ch a b c d la lb lc ld) in
    (w, rw (ea, eb, ec, ed) (rw (first, second, third) refl))

decode_from-nil : (ch : ℕ) → decode_from [] ch 0 ≡ []
unfolding decode_from
decode_from-nil ch = refl

decode_from-encode :
    (bytes : List ℕ) (ch : ℕ)
    → AllBytes bytes
    → decode_from (base64_encode bytes) ch 0 ≡ bytes ++ padding bytes
unfolding base64_encode padding
decode_from-encode [] ch h = unfold decode_from in refl
decode_from-encode (a ∷ []) ch h =
    let (ch', group) =
      decode_from-group _ _ _ _ (a / 4) (a % 4 * 16) 0 0 [] ch
        (base64_value-char (a / 4) (omega (arith, h.0)))
        (base64_value-char (a % 4 * 16) (omega arith)) equals_sign equals_sign (omega (arith, h.0))
        (omega arith) (omega arith) (omega arith) in
    let e0 : a / 4 * 4 + a % 4 * 16 / 16 ≡ a = omega arith in
    let e1 : a % 4 * 16 % 16 * 16 + 0 ≡ 0 = omega arith in
    group ∙ rw (e0, e1, decode_from-nil ch') refl
decode_from-encode (a ∷ b ∷ []) ch h =
    let (ch', group) =
      decode_from-group _ _ _ _ (a / 4) (a % 4 * 16 + b / 16) (b % 16 * 4) 0 [] ch
        (base64_value-char (a / 4) (omega (arith, h.0)))
        (base64_value-char (a % 4 * 16 + b / 16) (omega (arith, h.1.0)))
        (base64_value-char (b % 16 * 4) (omega arith)) equals_sign (omega (arith, h.0))
        (omega (arith, h.1.0)) (omega arith) (omega arith) in
    let e0 : a / 4 * 4 + (a % 4 * 16 + b / 16) / 16 ≡ a = omega (arith, h.1.0) in
    let e1 : (a % 4 * 16 + b / 16) % 16 * 16 + b % 16 * 4 / 4 ≡ b = omega (arith, h.1.0) in
    let e2 : b % 16 * 4 % 4 * 64 + 0 ≡ 0 = omega arith in
    group ∙ rw (e0, e1, e2, decode_from-nil ch') refl
decode_from-encode (a ∷ b ∷ c ∷ bytes) ch h =
    let (ch', group) =
      decode_from-group _ _ _ _ (a / 4) (a % 4 * 16 + b / 16) (b % 16 * 4 + c / 64) (c % 64)
        (base64_encode bytes) ch (base64_value-char (a / 4) (omega (arith, h.0)))
        (base64_value-char (a % 4 * 16 + b / 16) (omega (arith, h.1.0)))
        (base64_value-char (b % 16 * 4 + c / 64) (omega (arith, h.1.1.0)))
        (base64_value-char (c % 64) (omega arith)) (omega (arith, h.0)) (omega (arith, h.1.0))
        (omega (arith, h.1.1.0)) (omega arith) in
    let rest = decode_from-encode bytes ch' h.1.1.1 in
    let e0 : a / 4 * 4 + (a % 4 * 16 + b / 16) / 16 ≡ a = omega (arith, h.1.0) in
    let e1 : (a % 4 * 16 + b / 16) % 16 * 16 + (b % 16 * 4 + c / 64) / 4 ≡ b =
      omega (arith, h.1.0, h.1.1.0) in
    let e2 : (b % 16 * 4 + c / 64) % 4 * 64 + c % 64 ≡ c = omega (arith, h.1.1.0) in
    group ∙ rw (e0, e1, e2, rest) refl

-- decodeBase64 gives back the bytes that were encoded by RFC 4648, and behind them a NUL for each `=` of
-- the encoding.
pub decode_base64-base64_encode :
    (bytes : List ℕ) → AllBytes bytes → decode_base64 (base64_encode bytes) ≡ bytes ++ padding bytes
unfolding decode_base64
decode_base64-base64_encode bytes h = decode_from-encode bytes 0 h
