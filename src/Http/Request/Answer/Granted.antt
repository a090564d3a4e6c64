-- ===== src/Http/Request/Answer/Granted.antt =====
-- The credentials: what a client without them gets.
use jpl_vision.Common.{
  ℕ, ◌≡◌, refl, ap, sym, ◌∙◌, inl, inr, ◌⊎◌, true, not, ◌&&◌, Option, none, some, List, [], ◌∷◌,
  length, ltb, ◌==◌, ==_iff, if◌then◌else◌, codes, Bool-cases,
}
use jpl_vision.Http.{decode_base64}
use jpl_vision.Http.Line.{drop}
use jpl_vision.Http.Request.{
  Request, Parsed, refused, accepted, c_string, starts_with, parse_request, input_number_of,
  has_caseless, read_headers, line_credentials,
}
use jpl_vision.Http.Request.Answer.{
  Call, send_error, send_snapshot, send_stream, send_input_json, send_output_json,
  send_program_json, command, send_file, execute_cgi, output_cmd, HttpServer, same_string,
  is_granted, check_credentials, client_thread, after_first_line,
}
use jpl_vision.Http.Request.Answer.Safe.{AllOf}

abbrev pub IsError : Call → Type 0
IsError (send_error which message) = Unit {0}
IsError (send_snapshot n) = ⊥
IsError (send_stream n) = ⊥
IsError (send_input_json n) = ⊥
IsError (send_output_json n) = ⊥
IsError send_program_json = ⊥
IsError (command p) = ⊥
IsError (send_file p) = ⊥
IsError (execute_cgi p q) = ⊥
IsError (output_cmd i filename) = ⊥

abbrev pub AnyOf {ℓ} : {A : Type ℓ} → (A → Type 0) → List A → Type 0
AnyOf P [] = ⊥
AnyOf P (x ∷ xs) = P x ⊎ AnyOf P xs

-- A header line with these credentials in it.
abbrev pub Presents : List ℕ → List ℕ → Type 0
Presents wanted line =
    (has_caseless (c_string line) (codes "Authorization: Basic ") ≡ true)
    × (c_string (decode_base64 (drop 21 (c_string line))) ≡ wanted)

same_string-true : (xs ys : List ℕ) → same_string xs ys ≡ true → xs ≡ ys
unfolding same_string
same_string-true [] [] h = refl
same_string-true [] (d ∷ ds) h = absurd (cc h)
same_string-true (c ∷ cs) [] h = absurd (cc h)
same_string-true (c ∷ cs) (d ∷ ds) h = elim (Bool-cases (c == d)) [
  | inl t ↦
      cc ((==_iff c d).0 t, same_string-true cs ds (sym (ap (λ b. b && same_string cs ds) t) ∙ h))
  | inr f ↦ absurd (cc (h, ap (λ b. b && same_string cs ds) f))
]

line_credentials-some :
    (line : List ℕ) (credentials : Option (List ℕ)) (wanted : List ℕ)
    → line_credentials (c_string line) credentials ≡ some wanted
    → (credentials ≡ some wanted) ⊎ Presents wanted line
unfolding line_credentials
line_credentials-some line credentials wanted h =
    elim (Bool-cases (has_caseless (c_string line) (codes "User-Agent: "))) [
      | inl a ↦ inl (rw (a) at h)
      | inr a ↦ elim (Bool-cases (has_caseless (c_string line) (codes "Authorization: Basic "))) [
        | inl b ↦ inr (b, cc (rw (a, b) at h))
        | inr b ↦ inl (rw (a, b) at h)
      ]
    ]

read_headers-some :
    (lines : List (List ℕ)) (credentials : Option (List ℕ)) (wanted : List ℕ)
    → read_headers lines credentials ≡ some (some wanted)
    → (credentials ≡ some wanted) ⊎ AnyOf (Presents wanted) lines
unfolding read_headers
read_headers-some [] credentials wanted h = absurd (cc h)
read_headers-some (line ∷ lines) credentials wanted h =
    elim (Bool-cases (ltb 2 (length line) && not (starts_with (13 ∷ 10 ∷ []) (c_string line)))) [
      | inl more ↦
          elim (read_headers-some lines (line_credentials (c_string line) credentials) wanted (
            sym (
              ap
                (λ b.
                  if b
                  then read_headers lines (line_credentials (c_string line) credentials)
                  else some (line_credentials (c_string line) credentials))
                more)
            ∙ h)) [ inl e ↦ here e | inr later ↦ inr (inr later) ]
      | inr end ↦ here (
          cc (
            sym (
              ap
                (λ b.
                  if b
                  then read_headers lines (line_credentials (c_string line) credentials)
                  else some (line_credentials (c_string line) credentials))
                end)
            ∙ h))
    ]
  where
    here :
        line_credentials (c_string line) credentials ≡ some wanted
        → (credentials ≡ some wanted) ⊎ AnyOf (Presents wanted) (line ∷ lines)
    here e = elim (line_credentials-some line credentials wanted e) [
      | inl c ↦ inl c
      | inr p ↦ inr (inl p)
    ]

is_granted-some :
    (wanted : List ℕ) (given : Option (List ℕ))
    → is_granted (some wanted) given ≡ true
    → given ≡ some wanted
unfolding is_granted
is_granted-some wanted none h = absurd (cc h)
is_granted-some wanted (some given) h = ap some (sym (same_string-true wanted given h))

no_credentials : (wanted : List ℕ) (P : Type 0) → none ≡ some wanted → P
no_credentials wanted P h = absurd (cc h)

check_credentials-Presents :
    (s : HttpServer) (wanted : List ℕ) (req : Request) (n : ℕ) (lines : List (List ℕ))
    (read : Option (Option (List ℕ)))
    → read_headers lines none ≡ read
    → s.credentials ≡ some wanted
    → AllOf IsError (check_credentials s req n read) ⊎ AnyOf (Presents wanted) lines
unfolding check_credentials
check_credentials-Presents s wanted req n lines none r e = inl tt
check_credentials-Presents s wanted req n lines (some given) r e =
    elim (Bool-cases (is_granted s.credentials given)) [
      | inl t ↦
          let g = is_granted-some wanted given (ap (λ c. is_granted c given) (sym e) ∙ t) in
          elim (read_headers-some lines none wanted (r ∙ ap some g)) [
            | inl absent ↦ no_credentials wanted _ absent
            | inr presents ↦ inr presents
          ]
      | inr f ↦ inl (rw (f) (tt, tt))
    ]

-- If the server is given credentials, a client that does not present them in a header line gets nothing
-- but errors.
pub client_thread-Presents :
    (s : HttpServer) (wanted : List ℕ) (lines : List (List ℕ))
    → s.credentials ≡ some wanted
    → AllOf IsError (client_thread s lines) ⊎ AnyOf (Presents wanted) lines
unfolding client_thread
client_thread-Presents s wanted [] e = inl tt
client_thread-Presents s wanted (line ∷ lines) e = through (parse_request (c_string line))
  where
    through :
        (parsed : Parsed)
        → AllOf IsError (after_first_line s (c_string line) lines parsed)
          ⊎ AnyOf (Presents wanted) (line ∷ lines)
    through (refused which message) = inl (tt, tt)
    through (accepted req) =
        elim (check_credentials-Presents s wanted req (input_number_of req (c_string line)) lines
          (read_headers lines none) refl e) [
            | inl errors ↦ inl errors
            | inr presents ↦ inr (inr presents)
          ]
