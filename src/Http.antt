-- ===== src/Http.antt =====
-- The credentials of a request, decodeBase64 of plugins/output_http/httpd.c. A string is its characters
-- before the NUL. The code writes into the string that it reads; a group of three bytes is
-- written after the four characters for it have been read, so that nothing is overwritten before it is
-- read.
pub mod Base64
pub mod Stream
pub mod Line
pub mod Escape
pub mod Request
pub mod Command
mod Tests
mod RequestTests
use jpl_vision.Common.{
  ℕ, ◌+◌, ◌-◌, ◌*◌, ◌/◌, ◌%◌, ◌^◌, ◌&&◌, Option, none, some, List, [], ◌∷◌, ◌++◌, leb, ◌==◌,
  if◌then◌else◌,
}

-- What the character stands for, if it is one of those of the encoding.
pub base64_value : ℕ → Option ℕ
base64_value t =
    if leb 48 t && leb t 57
    then some (t - 48 + 52)
    else if leb 65 t && leb t 90
    then some (t - 65)
    else if leb 97 t && leb t 122
    then some (t - 97 + 26)
    else if t == 43
    then some 62
    else if t == 47
    then some 63
    else if t == 61
    then some 0
    else none

-- One round on a character with that value: `ch`, of 32 bits, `i`, and the bytes that are written.
pub decode_round : Option ℕ → ℕ → ℕ → ℕ × ℕ × List ℕ
decode_round none ch i = (ch, i, [])
decode_round (some t) ch i =
    let ch' = (ch * 64 + t) % 2 ^ 32 in
    if i + 1 == 4
    then (ch', 0, ch' / 2 ^ 16 % 256 ∷ ch' / 2 ^ 8 % 256 ∷ ch' % 256 ∷ [])
    else (ch', i + 1, [])

pub decode_from : List ℕ → ℕ → ℕ → List ℕ
unfolding base64_value decode_round
decode_from [] ch i = []
decode_from (t ∷ ts) ch i =
    let (ch', i', bytes) = decode_round (base64_value t) ch i in
    let rest = decode_from ts ch' i' in bytes ++ rest

-- The bytes that are written before the last NUL.
pub decode_base64 : List ℕ → List ℕ
unfolding decode_from
decode_base64 string = decode_from string 0 0
