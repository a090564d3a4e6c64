-- ===== src/Http/Tests.antt =====
-- "user:pw", in the encoding of which the last group has one byte.
use jpl_vision.Common.{ℕ, ◌≡◌, List, [], ◌∷◌, ◌++◌, arith}
use jpl_vision.Http.{decode_base64}
use jpl_vision.Http.Base64.{base64_encode, padding, decode_base64-base64_encode}

abbrev credentials : List ℕ
credentials = 117 ∷ 115 ∷ 101 ∷ 114 ∷ 58 ∷ 112 ∷ 119 ∷ []

decode_base64-base64_encode_example :
    decode_base64 (base64_encode credentials) ≡ credentials ++ padding credentials
decode_base64-base64_encode_example = decode_base64-base64_encode credentials (
  omega arith,
  (omega arith, (omega arith, (omega arith, (omega arith, (omega arith, (omega arith, tt)))))),
)
