-- ===== src/Http/Request/Answer/Safe.antt =====
-- What an answer never does, whatever the client sends.
use jpl_vision.Common.{
  ℕ, zero, suc, ◌+◌, ◌≤◌, ◌<◌, ◌≡◌, ◌≢◌, refl, ap, sym, ◌∙◌, inl, inr, Bool, true, false, not, ◌&&◌,
  Option, none, some, List, [], ◌∷◌, length, take, ltb→lt, if◌then◌else◌, codes, Bool-cases, arith,
  length-take, if_both, if_cases,
}
use jpl_vision.Common.Int.{ℤ, is_zero}
use jpl_vision.Http.Line.{drop}
use jpl_vision.Http.Request.{
  AnswerType, a_unknown, a_snapshot, a_snapshot_wxp, a_stream, a_stream_wxp, a_command, a_file,
  a_cgi, a_take, a_input_json, a_output_json, a_program_json, Request, Parsed, refused, accepted,
  c_string, strstr, has, parse_request, input_number_of, read_headers, member, span, parameter_of,
  file_characters, file_request, plain_request, command_request, with_unescaped,
}
use jpl_vision.Http.Request.Answer.{
  Call, send_error, send_snapshot, send_stream, send_input_json, send_output_json,
  send_program_json, command, send_file, execute_cgi, output_cmd, HttpServer, count, is_granted,
  answer_switch, in_range, answer, check_credentials, client_thread, after_first_line, take_from,
  take_with, after_take, file_plugin, text_of, up_to_ampersand, range_message,
}

abbrev pub AllOf {ℓ κ} : {A : Type ℓ} → (A → Type κ) → List A → Type κ
AllOf P [] = Unit
AllOf P (x ∷ xs) = P x × AllOf P xs

-- The name of a file in the folder itself: no `/`, and at most 100 characters.
abbrev pub FileName : List ℕ → Type 0
FileName p = AllOf (λ c. c ≢ 47) p × (length p ≤ 100)

-- What the server may do for a client.
abbrev pub Allowed : HttpServer → Call → Type 0
Allowed s (send_error which message) = Unit {0}
Allowed s (send_snapshot n) = n < s.incnt
Allowed s (send_stream n) = n < s.incnt
Allowed s (send_input_json n) = n < s.incnt
Allowed s (send_output_json n) = n < count s.output_names
Allowed s send_program_json = Unit {0}
Allowed s (command p) = s.nocommands ≡ false
Allowed s (send_file p) = (s.has_www_folder ≡ true) × FileName p
Allowed s (execute_cgi p q) = FileName p
Allowed s (output_cmd i filename) = i < count s.output_names

-- What parse_request guarantees of a request.
abbrev WellFormed : AnswerType → Request → Type 0
WellFormed a_unknown req = Unit {0}
WellFormed a_snapshot req = req.query_suffixed ≡ true
WellFormed a_snapshot_wxp req = ⊥
WellFormed a_stream req = req.query_suffixed ≡ true
WellFormed a_stream_wxp req = ⊥
WellFormed a_command req = Unit {0}
WellFormed a_file req = FileName (text_of req.parameter)
WellFormed a_cgi req = FileName (text_of req.parameter)
WellFormed a_take req = req.query_suffixed ≡ true
WellFormed a_input_json req = req.query_suffixed ≡ true
WellFormed a_output_json req = req.query_suffixed ≡ true
WellFormed a_program_json req = Unit {0}

ParsedWell : Parsed → Type 0
ParsedWell (refused which message) = Unit {0}
ParsedWell (accepted req) = WellFormed req.answer_type req

span-no_slash :
    (accept cs : List ℕ) → member 47 accept ≡ false → AllOf (λ c. c ≢ 47) (span accept cs)
unfolding span
span-no_slash accept [] h = tt
span-no_slash accept (c ∷ cs) h = elim (Bool-cases (member c accept)) [
  | inl t ↦ rw (t) ((λ e. absurd (cc (h, t, e))), span-no_slash accept cs h)
  | inr f ↦ rw (f) tt
]

AllOf-take : (n : ℕ) (cs : List ℕ) → AllOf (λ c. c ≢ 47) cs → AllOf (λ c. c ≢ 47) (take n cs)
AllOf-take zero cs a = tt
AllOf-take (suc n) [] a = tt
AllOf-take (suc n) (c ∷ cs) a = (a.0, AllOf-take n cs a.1)

parameter_of-FileName : (pb : List ℕ) → FileName (parameter_of file_characters pb)
unfolding parameter_of
parameter_of-FileName pb = (
  AllOf-take 100 (span file_characters pb) (span-no_slash file_characters pb refl),
  omega (arith, length-take 100 (span file_characters pb)),
)

either_file :
    (b : Bool) (req : Request)
    → FileName (text_of req.parameter)
    → WellFormed (if b then a_cgi else a_file) req
either_file true req f = f
either_file false req f = f

file_request-well : (found : Option (List ℕ)) → ParsedWell (file_request found)
unfolding file_request text_of ParsedWell
file_request-well none = tt
file_request-well (some found) =
    either_file (has (drop 5 found) (codes ".cgi")) _ (parameter_of-FileName (drop 5 found))

with_unescaped-well :
    (kind : AnswerType) (suffixed : Bool) (decoded : Option (List ℕ))
    → ((req : Request) → req.query_suffixed ≡ suffixed → WellFormed kind req)
    → ParsedWell (with_unescaped kind suffixed decoded)
unfolding with_unescaped ParsedWell
with_unescaped-well kind suffixed none h = tt
with_unescaped-well kind suffixed (some decoded) h = h _ refl

command_request-well :
    (kind : AnswerType) (suffixed : Bool) (text : List ℕ) (found : Option (List ℕ))
    → ((req : Request) → req.query_suffixed ≡ suffixed → WellFormed kind req)
    → ParsedWell (command_request kind suffixed text found)
unfolding command_request ParsedWell
command_request-well kind suffixed text none h = tt
command_request-well kind suffixed text (some found) h = with_unescaped-well kind suffixed _ h

plain-well :
    (kind : AnswerType) (suffixed : Bool)
    → WellFormed kind (plain_request kind suffixed)
    → ParsedWell (accepted (plain_request kind suffixed))
unfolding ParsedWell
plain-well kind suffixed h = h

parse_request-well : (buffer : List ℕ) → ParsedWell (parse_request buffer)
unfolding parse_request
parse_request-well buffer =
    (if_both ParsedWell (has buffer (codes "GET /?action=snapshot")) _ _
      (plain-well a_snapshot true refl)
      (if_both ParsedWell (has buffer (codes "POST /stream")) _ _ (plain-well a_stream true refl) (
        if_both ParsedWell (has buffer (codes "GET /?action=stream")) _ _
          (plain-well a_stream true refl)
          (if_both ParsedWell (has buffer (codes "GET /?action=take")) _ _
            (command_request-well a_take true (codes "GET /?action=take")
              (strstr (codes "GET /?action=take") buffer) (λ req e. e))
            (if_both ParsedWell (has buffer (codes "GET /input") && has buffer (codes ".json")) _ _
              (plain-well a_input_json true refl)
              (if_both ParsedWell (has buffer (codes "GET /output") && has buffer (codes ".json")) _
                _ (plain-well a_output_json true refl)
                (if_both ParsedWell (has buffer (codes "GET /program.json")) _ _
                  (plain-well a_program_json false tt)
                  (if_both ParsedWell (has buffer (codes "GET /?action=command")) _ _
                    (command_request-well a_command false (codes "GET /?action=command")
                      (strstr (codes "GET /?action=command") buffer) (λ req e. tt))
                    (file_request-well (strstr (codes "GET /") buffer))))))))))

file_plugin-bound :
    (names : List (Option (List ℕ))) (i j : ℕ) → file_plugin names i ≡ some j → j < i + count names
unfolding file_plugin
file_plugin-bound [] i j e = absurd (cc e)
file_plugin-bound (none ∷ names) i j e = omega (arith, file_plugin-bound names (i + 1) j e)
file_plugin-bound (some name ∷ names) i j e =
    elim (Bool-cases (has name (codes "FILE output plugin"))) [
      | inl t ↦
          let same : i ≡ j =
            cc (sym (ap (λ b. if b then some i else file_plugin names (i + 1)) t) ∙ e) in
          omega (arith, same)
      | inr f ↦ omega (
        arith,
        file_plugin-bound names (i + 1) j
            (sym (ap (λ b. if b then some i else file_plugin names (i + 1)) f) ∙ e),
      )
    ]

after_take-Allowed : (s : HttpServer) (ret : ℤ) (n : ℕ) → n < s.incnt → Allowed s (after_take ret n)
unfolding after_take
after_take-Allowed s ret n h = if_both (Allowed s) (is_zero ret) (send_snapshot n) _ h tt

take_with-Allowed :
    (s : HttpServer) (i : ℕ) (found : Option (List ℕ)) (n : ℕ)
    → i < count s.output_names
    → n < s.incnt
    → AllOf (Allowed s) (take_with s i found n)
unfolding take_with
take_with-Allowed s i none n li h = (tt, (h, tt))
take_with-Allowed s i (some found) n li h =
    (li, (after_take-Allowed s (s.output_result i (up_to_ampersand (drop 9 found))) n h, tt))

take_from-Allowed :
    (s : HttpServer) (plugin : Option ℕ) (found : Option (List ℕ)) (n : ℕ)
    → ((i : ℕ) → plugin ≡ some i → i < count s.output_names)
    → n < s.incnt
    → AllOf (Allowed s) (take_from s plugin found n)
unfolding take_from
take_from-Allowed s none found n li h = (tt, tt)
take_from-Allowed s (some i) found n li h = take_with-Allowed s i found n (li i refl) h

-- The number, checked as far as the kind of answer asks for it.
abbrev Checked : HttpServer → AnswerType → Request → ℕ → Type 0
Checked s kind req n = req.query_suffixed ≡ true → in_range s kind n ≡ true

unnegated : (b : Bool) → not b ≡ false → b ≡ true
unnegated true h = refl
unnegated false h = absurd (cc h)

answer_switch-Allowed :
    (s : HttpServer) (kind : AnswerType) (req : Request) (n : ℕ)
    → WellFormed kind req
    → Checked s kind req n
    → AllOf (Allowed s) (answer_switch s kind req n)
unfolding answer_switch in_range
answer_switch-Allowed s a_unknown req n w h = tt
answer_switch-Allowed s a_snapshot req n w h = (ltb→lt n s.incnt (h w), tt)
answer_switch-Allowed s a_snapshot_wxp req n w h = absurd w
answer_switch-Allowed s a_stream req n w h = (ltb→lt n s.incnt (h w), tt)
answer_switch-Allowed s a_stream_wxp req n w h = absurd w
answer_switch-Allowed s a_command req n w h =
    if_cases (AllOf (Allowed s)) s.nocommands _ (command (text_of req.parameter) ∷ [])
      (λ t. (tt, tt)) (λ f. (f, tt))
answer_switch-Allowed s a_file req n w h =
    if_cases (AllOf (Allowed s)) (not s.has_www_folder) _ (send_file (text_of req.parameter) ∷ [])
      (λ t. (tt, tt)) (λ f. ((unnegated s.has_www_folder f, w), tt))
answer_switch-Allowed s a_cgi req n w h = (w, tt)
answer_switch-Allowed s a_take req n w h =
    take_from-Allowed s (file_plugin s.output_names 0) _ n
      (λ i e. omega (arith, file_plugin-bound s.output_names 0 i e)) (ltb→lt n s.incnt (h w))
answer_switch-Allowed s a_input_json req n w h = (ltb→lt n s.incnt (h w), tt)
answer_switch-Allowed s a_output_json req n w h = (ltb→lt n (count s.output_names) (h w), tt)
answer_switch-Allowed s a_program_json req n w h = (tt, tt)

answer-Allowed :
    (s : HttpServer) (req : Request) (n : ℕ)
    → WellFormed req.answer_type req
    → AllOf (Allowed s) (answer s req n)
unfolding answer
answer-Allowed s req n w =
    if_cases (AllOf (Allowed s)) (req.query_suffixed && not (in_range s req.answer_type n))
      (send_error 404 (range_message req.answer_type) ∷ []) (answer_switch s req.answer_type req n)
      (λ t. (tt, tt))
      (λ f. answer_switch-Allowed s req.answer_type req n w (λ q.
        let outside : not (in_range s req.answer_type n) ≡ false =
          ap (λ b. b && not (in_range s req.answer_type n)) (sym q) ∙ f in
        unnegated (in_range s req.answer_type n) outside))

check_credentials-Allowed :
    (s : HttpServer) (req : Request) (n : ℕ) (given : Option (Option (List ℕ)))
    → WellFormed req.answer_type req
    → AllOf (Allowed s) (check_credentials s req n given)
unfolding check_credentials
check_credentials-Allowed s req n none w = tt
check_credentials-Allowed s req n (some given) w =
    if_both (AllOf (Allowed s)) (is_granted s.credentials given) (answer s req n)
      (send_error 401 (codes "username and password do not match to configuration") ∷ [])
      (answer-Allowed s req n w) (tt, tt)

after_first_line-Allowed :
    (s : HttpServer) (buffer : List ℕ) (lines : List (List ℕ)) (parsed : Parsed)
    → ParsedWell parsed
    → AllOf (Allowed s) (after_first_line s buffer lines parsed)
unfolding after_first_line ParsedWell
after_first_line-Allowed s buffer lines (refused which message) w = (tt, tt)
after_first_line-Allowed s buffer lines (accepted req) w =
    check_credentials-Allowed s req (input_number_of req buffer) (read_headers lines none) w

-- Whatever lines a client sends, a picture, a stream or a description is taken from a plugin that there
-- is, a file or a script has a name without `/` of at most 100 characters, a file is sent only if there
-- is a folder for them, and a command is carried out only if the configuration allows commands.
pub client_thread-Allowed :
    (s : HttpServer) (lines : List (List ℕ)) → AllOf (Allowed s) (client_thread s lines)
unfolding client_thread
client_thread-Allowed s [] = tt
client_thread-Allowed s (line ∷ lines) =
    after_first_line-Allowed s (c_string line) lines (parse_request (c_string line))
      (parse_request-well (c_string line))
