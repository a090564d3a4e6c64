-- ===== src/Http/Request.antt =====
-- client_thread of plugins/output_http/httpd.c, as it is built without ENABLE_HTTP_MANAGEMENT and
-- WXP_COMPAT: what a client asks for. A string is its characters before the NUL; an allocation succeeds,
-- otherwise the program exits.
pub mod Answer
use jpl_vision.Common.{
  ℕ, zero, suc, ◌+◌, ◌-◌, Bool, true, false, not, ◌&&◌, ◌||◌, Option, none, some, List, [], ◌∷◌,
  ◌++◌, length, take, ltb, leb, ◌==◌, min, if◌then◌else◌, codes,
}
use jpl_vision.Http.{decode_base64}
use jpl_vision.Http.Line.{drop}
use jpl_vision.Http.Escape.{unescape}

-- string.h

unfoldable pub c_string : List ℕ → List ℕ
c_string [] = []
c_string (c ∷ cs) = let rest = c_string cs in if c == 0 then [] else c ∷ rest

unfoldable pub starts_with : List ℕ → List ℕ → Bool
starts_with [] cs = true
starts_with (x ∷ xs) [] = false
starts_with (x ∷ xs) (c ∷ cs) = x == c && starts_with xs cs

-- The rest of the string from the first place where the other stands.
unfoldable pub strstr : List ℕ → List ℕ → Option (List ℕ)
unfolding starts_with
strstr text [] = if starts_with text [] then some [] else none
strstr text (c ∷ cs) =
    let later = strstr text cs in if starts_with text (c ∷ cs) then some (c ∷ cs) else later

abbrev pub is_some {ℓ} : {A : Type ℓ} → Option A → Bool
is_some none = false
is_some (some a) = true

abbrev pub has : List ℕ → List ℕ → Bool
has buffer text = is_some (strstr text buffer)

unfoldable pub member : ℕ → List ℕ → Bool
member c [] = false
member c (x ∷ xs) = c == x || member c xs

-- The characters that strspn counts.
unfoldable pub span : List ℕ → List ℕ → List ℕ
unfolding member
span accept [] = []
span accept (c ∷ cs) = let rest = span accept cs in if member c accept then c ∷ rest else []

lower : ℕ → ℕ
lower c = if leb 65 c && leb c 90 then c + 32 else c

lower_all : List ℕ → List ℕ
unfolding lower
lower_all [] = []
lower_all (c ∷ cs) = lower c ∷ lower_all cs

-- Whether strcasestr finds the text.
unfoldable pub has_caseless : List ℕ → List ℕ → Bool
unfolding lower_all strstr
has_caseless buffer text = has (lower_all buffer) (lower_all text)

-- The request

pub data AnswerType : Type 0 where
  a_unknown a_snapshot a_snapshot_wxp a_stream a_stream_wxp a_command a_file a_cgi a_take :
      AnswerType
  a_input_json a_output_json a_program_json : AnswerType

pub record Request : Type 0 where
  pub answer_type : AnswerType
  pub parameter : Option (List ℕ)
  pub query_string : Option (List ℕ)
  pub query_suffixed : Bool

-- An error that is sent before the connection is closed, or the request.
pub data Parsed : Type 0 where
  refused : ℕ → List ℕ → Parsed
  accepted : Request → Parsed

abbrev pub plain_request : AnswerType → Bool → Request
plain_request kind suffixed = record {
  answer_type = kind;
  parameter = none;
  query_string = none;
  query_suffixed = suffixed;
}

abbrev pub letters : List ℕ
letters = codes "abcdefghijklmnopqrstuvwxyzABCDEFGHIJKLMNOPQRSTUVWXYZ"

abbrev pub command_characters : List ℕ
command_characters = letters ++ codes "_-=&1234567890%./"

abbrev pub file_characters : List ℕ
file_characters = letters ++ codes "._-1234567890"

abbrev pub query_characters : List ℕ
query_characters = letters ++ codes "._-1234567890=&"

-- At most 100 of the accepted characters at the start.
unfoldable pub parameter_of : List ℕ → List ℕ → List ℕ
unfolding span
parameter_of accept pb = take 100 (span accept pb)

unfoldable pub with_unescaped : AnswerType → Bool → Option (List ℕ) → Parsed
unfolding c_string
with_unescaped kind suffixed none =
    refused 500 (codes "could not properly unescape command parameter string")
with_unescaped kind suffixed (some decoded) = accepted (record {
  answer_type = kind;
  parameter = some (c_string decoded);
  query_string = none;
  query_suffixed = suffixed;
})

-- Behind the text of a command or of a take; `none` cannot come, since the text has been found.
unfoldable pub command_request : AnswerType → Bool → List ℕ → Option (List ℕ) → Parsed
unfolding with_unescaped parameter_of
command_request kind suffixed text none = refused 400 (codes "Malformed HTTP request")
command_request kind suffixed text (some found) =
    with_unescaped kind suffixed
      (unescape (parameter_of command_characters (drop (length text) found)))

-- The characters behind the `?` that the query string gets.
unfoldable pub query_of : Option (List ℕ) → List ℕ
unfolding span
query_of none = codes " "
query_of (some found) = span query_characters (drop 1 found)

unfoldable pub file_request : Option (List ℕ) → Parsed
unfolding parameter_of query_of strstr
file_request none = refused 400 (codes "Malformed HTTP request")
file_request (some found) =
    let pb = drop 5 found in
    let is_cgi = has pb (codes ".cgi") in
    accepted (record {
      answer_type = if is_cgi then a_cgi else a_file;
      parameter = some (parameter_of file_characters pb);
      query_string = if is_cgi then some (query_of (strstr (codes "?") pb)) else none;
      query_suffixed = false;
    })

-- The first line.
unfoldable pub parse_request : List ℕ → Parsed
unfolding command_request file_request strstr
parse_request buffer =
    if has buffer (codes "GET /?action=snapshot")
    then accepted (plain_request a_snapshot true)
    else if has buffer (codes "POST /stream")
    then accepted (plain_request a_stream true)
    else if has buffer (codes "GET /?action=stream")
    then accepted (plain_request a_stream true)
    else if has buffer (codes "GET /?action=take")
    then command_request a_take true (codes "GET /?action=take")
        (strstr (codes "GET /?action=take") buffer)
    else if has buffer (codes "GET /input") && has buffer (codes ".json")
    then accepted (plain_request a_input_json true)
    else if has buffer (codes "GET /output") && has buffer (codes ".json")
    then accepted (plain_request a_output_json true)
    else if has buffer (codes "GET /program.json")
    then accepted (plain_request a_program_json false)
    else if has buffer (codes "GET /?action=command")
    then command_request a_command false (codes "GET /?action=command")
        (strstr (codes "GET /?action=command") buffer)
    else file_request (strstr (codes "GET /") buffer)

-- atoi of the one character behind the `_`.
number_behind : Option (List ℕ) → ℕ
number_behind (some (u ∷ c ∷ cs)) = if leb 48 c && leb c 57 then c - 48 else 0
number_behind _ = 0

unfoldable pub input_number_of : Request → List ℕ → ℕ
unfolding number_behind strstr
input_number_of req buffer =
    if req.query_suffixed then number_behind (strstr (codes "_") buffer) else 0

-- The credentials after one more line.
unfoldable pub line_credentials : List ℕ → Option (List ℕ) → Option (List ℕ)
unfolding has_caseless c_string
line_credentials buffer credentials =
    if has_caseless buffer (codes "User-Agent: ")
    then credentials
    else if has_caseless buffer (codes "Authorization: Basic ")
    then some (c_string (decode_base64 (drop 21 buffer)))
    else credentials

-- The header lines, with `credentials` so far; `none` if _readline gives -1 before their end.
unfoldable pub read_headers : List (List ℕ) → Option (List ℕ) → Option (Option (List ℕ))
unfolding line_credentials c_string
read_headers [] credentials = none
read_headers (line ∷ lines) credentials =
    let buffer = c_string line in
    let credentials' = line_credentials buffer credentials in
    let rest = read_headers lines credentials' in
    if ltb 2 (length line) && not (starts_with (13 ∷ 10 ∷ []) buffer)
    then rest
    else some credentials'
