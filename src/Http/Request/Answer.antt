-- ===== src/Http/Request/Answer.antt =====
-- The rest of client_thread: the credentials, the range of the number, and what is sent as an answer.
pub mod Safe
pub mod Granted
use jpl_vision.Common.{
  ℕ, zero, suc, ◌+◌, Bool, true, false, not, ◌&&◌, Option, none, some, List, [], ◌∷◌, ltb, ◌==◌,
  if◌then◌else◌, codes,
}
use jpl_vision.Common.Int.{ℤ, is_zero}
use jpl_vision.Http.Line.{drop}
use jpl_vision.Http.Request.{
  AnswerType, a_unknown, a_snapshot, a_snapshot_wxp, a_stream, a_stream_wxp, a_command, a_file,
  a_cgi, a_take, a_input_json, a_output_json, a_program_json, Request, Parsed, refused, accepted,
  c_string, strstr, has, parse_request, input_number_of, read_headers,
}

-- The calls that answer the client, with their arguments.
pub data Call : Type 0 where
  send_error : ℕ → List ℕ → Call
  send_snapshot send_stream send_input_json send_output_json : ℕ → Call
  send_program_json : Call
  command send_file : List ℕ → Call
  execute_cgi : List ℕ → List ℕ → Call
  output_cmd : ℕ → List ℕ → Call

-- An instance of the server: config, the counts of plugins and the names of the output plugins, and
-- what the cmd of an output plugin returns for a file name.
pub record HttpServer : Type 0 where
  pub credentials : Option (List ℕ)
  pub has_www_folder : Bool
  pub nocommands : Bool
  pub incnt : ℕ
  pub output_names : List (Option (List ℕ))
  pub output_result : ℕ → List ℕ → ℤ

abbrev pub count {ℓ} : {A : Type ℓ} → List A → ℕ
count [] = 0
count (x ∷ xs) = suc (count xs)

unfoldable pub same_string : List ℕ → List ℕ → Bool
same_string [] [] = true
same_string [] (d ∷ ds) = false
same_string (c ∷ cs) [] = false
same_string (c ∷ cs) (d ∷ ds) = c == d && same_string cs ds

-- Whether the request is let through to its answer.
unfoldable pub is_granted : Option (List ℕ) → Option (List ℕ) → Bool
unfolding same_string
is_granted none given = true
is_granted (some wanted) none = false
is_granted (some wanted) (some given) = same_string wanted given

-- The output plugin that saves files, from the number `i` on.
unfoldable pub file_plugin : List (Option (List ℕ)) → ℕ → Option ℕ
unfolding strstr
file_plugin [] i = none
file_plugin (none ∷ names) i = file_plugin names (i + 1)
file_plugin (some name ∷ names) i =
    let later = file_plugin names (i + 1) in
    if has name (codes "FILE output plugin") then some i else later

-- The text up to a `&`.
pub up_to_ampersand : List ℕ → List ℕ
up_to_ampersand [] = []
up_to_ampersand (c ∷ cs) = let rest = up_to_ampersand cs in if c == 38 then [] else c ∷ rest

unfoldable pub after_take : ℤ → ℕ → Call
after_take ret input_number =
    if is_zero ret
    then send_snapshot input_number
    else send_error 404 (codes "Taking snapshot failed!")

-- With the plugin found; without a file name the error is sent, and then the snapshot.
unfoldable pub take_with : HttpServer → ℕ → Option (List ℕ) → ℕ → List Call
unfolding up_to_ampersand after_take
take_with s i none input_number =
    send_error 404 (codes "The &filename= must present for the take command in the URL")
    ∷ send_snapshot input_number
    ∷ []
take_with s i (some found) input_number =
    let filename = up_to_ampersand (drop 9 found) in
    output_cmd i filename ∷ after_take (s.output_result i filename) input_number ∷ []

unfoldable pub take_from : HttpServer → Option ℕ → Option (List ℕ) → ℕ → List Call
unfolding take_with
take_from s none found input_number =
    send_error 404 (codes "FILE output plugin not loaded, taking snapshot not possible") ∷ []
take_from s (some i) found input_number = take_with s i found input_number

unfoldable pub text_of : Option (List ℕ) → List ℕ
text_of none = []
text_of (some text) = text

-- The switch.
unfoldable pub answer_switch : HttpServer → AnswerType → Request → ℕ → List Call
unfolding take_from file_plugin text_of strstr
answer_switch s a_snapshot_wxp req n = send_snapshot n ∷ []
answer_switch s a_snapshot req n = send_snapshot n ∷ []
answer_switch s a_stream req n = send_stream n ∷ []
answer_switch s a_command req n =
    if s.nocommands
    then send_error 501 (codes "this server is configured to not accept commands") ∷ []
    else command (text_of req.parameter) ∷ []
answer_switch s a_input_json req n = send_input_json n ∷ []
answer_switch s a_output_json req n = send_output_json n ∷ []
answer_switch s a_program_json req n = send_program_json ∷ []
answer_switch s a_file req n =
    if not s.has_www_folder
    then send_error 501 (codes "no www-folder configured") ∷ []
    else send_file (text_of req.parameter) ∷ []
answer_switch s a_take req n =
    take_from s (file_plugin s.output_names 0) (strstr (codes "filename=") (text_of req.parameter))
      n
answer_switch s a_cgi req n = execute_cgi (text_of req.parameter) (text_of req.query_string) ∷ []
answer_switch s a_stream_wxp req n = []
answer_switch s a_unknown req n = []

-- Whether the number is one of those of the output plugins for a_output_json, or else of the input plugins.
unfoldable pub in_range : HttpServer → AnswerType → ℕ → Bool
in_range s a_output_json n = ltb n (count s.output_names)
in_range s _ n = ltb n s.incnt

pub range_message : AnswerType → List ℕ
range_message a_output_json = codes "Invalid output plugin number"
range_message _ = codes "Invalid input plugin number"

unfoldable pub answer : HttpServer → Request → ℕ → List Call
unfolding in_range range_message answer_switch
answer s req n =
    if req.query_suffixed && not (in_range s req.answer_type n)
    then send_error 404 (range_message req.answer_type) ∷ []
    else answer_switch s req.answer_type req n

-- Behind the headers.
unfoldable pub check_credentials : HttpServer → Request → ℕ → Option (Option (List ℕ)) → List Call
unfolding is_granted answer
check_credentials s req n none = []
check_credentials s req n (some given) =
    if is_granted s.credentials given
    then answer s req n
    else send_error 401 (codes "username and password do not match to configuration") ∷ []

unfoldable pub after_first_line : HttpServer → List ℕ → List (List ℕ) → Parsed → List Call
unfolding check_credentials read_headers input_number_of
after_first_line s buffer lines (refused which message) = send_error which message ∷ []
after_first_line s buffer lines (accepted req) =
    check_credentials s req (input_number_of req buffer) (read_headers lines none)

-- The calls that answer a client, where the lines are those that _readline gives before it gives -1.
unfoldable pub client_thread : HttpServer → List (List ℕ) → List Call
unfolding after_first_line parse_request c_string
client_thread s [] = []
client_thread s (line ∷ lines) =
    after_first_line s (c_string line) lines (parse_request (c_string line))
