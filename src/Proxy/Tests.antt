-- ===== src/Proxy/Tests.antt =====
-- Connections: a stream of two frames in two chunks, a flag that is set, a frame that is too large, and
-- a boundary behind a header.
use jpl_vision.Common.{
  ℕ, zero, suc, ◌+◌, ◌/◌, ◌%◌, ◌<◌, ◌≡◌, refl, ap, Bool, true, false, none, some, List, [], ◌∷◌,
  ◌++◌, map, length, take, arith, codes, length-append, append_nil, ltb, if◌then◌else◌, Bool-cases,
  inl, inr,
}
use jpl_vision.Common.Int.{negsuc}
use jpl_vision.Proxy.{
  boundary_text, Received, init_extractor_state, extract_data, process_response, on_image_received,
  send_request_and_process_response,
}
use jpl_vision.Proxy.Chunks.{
  unstopped, bytes_before_stop, images_of, process_response-bytes_before_stop,
}
use jpl_vision.Proxy.Frames.{Contains}
use jpl_vision.Proxy.Header.{read_all}
use jpl_vision.Proxy.Limits.{
  send_request_and_process_response-overflow, send_request_and_process_response-negative,
}
use jpl_vision.Http.Stream.{Turn, send_stream}
use jpl_vision.Http.Stream.Images.{
  Number, header_rest, send_stream-send_request_and_process_response,
}

-- The decimal digits of a number below 10 ^ fuel.
digits : ℕ → ℕ → List ℕ → List ℕ
digits zero n ds = ds
digits (suc fuel) n ds =
    if ltb n 10 then (48 + n) ∷ ds else digits fuel (n / 10) ((48 + n % 10) ∷ ds)

decimal : ℕ → List ℕ
unfolding digits
decimal n = digits 20 (n / 10) ((48 + n % 10) ∷ [])

digits-Number : (fuel n : ℕ) (ds : List ℕ) → Number ds → Number (digits fuel n ds)
unfolding digits
digits-Number zero n ds h = h
digits-Number (suc fuel) n ds h = elim (Bool-cases (ltb n 10)) [
  | inl t ↦ rw (t) (((omega arith, ground arith), h.0), omega (arith, h.1))
  | inr f ↦ rw (f) (
      digits-Number fuel (n / 10) ((48 + n % 10) ∷ ds)
        (((omega arith, omega arith), h.0), omega (arith, h.1)))
]

decimal-Number : (n : ℕ) → Number (decimal n)
unfolding decimal
decimal-Number n =
    digits-Number 20 (n / 10) ((48 + n % 10) ∷ []) (((omega arith, omega arith), tt), omega arith)

none_in_short : (frame : List ℕ) → length frame < 20 → ¬ Contains boundary_text frame
none_in_short frame l (before, after, e) =
    let size = ap length e in
    omega (
      arith,
      l,
      size,
      length-append before (boundary_text ++ after),
      length-append boundary_text after,
    )

abbrev turn : List ℕ → Turn
turn frame = record {
  stop = false;
  frame = frame;
  tv_sec = 1700000000;
  tv_usec = 40000;
  has_memory = true;
  header_written = true;
  frame_written = true;
  boundary_written = true;
}

abbrev first_frame : List ℕ
first_frame = 255 ∷ 216 ∷ 79 ∷ 75 ∷ 13 ∷ 10 ∷ 255 ∷ 217 ∷ []

abbrev second_frame : List ℕ
second_frame = 255 ∷ 216 ∷ 45 ∷ 45 ∷ 98 ∷ 255 ∷ 217 ∷ []

abbrev turns : List Turn
turns = turn first_frame ∷ turn second_frame ∷ []

drop : ℕ → List ℕ → List ℕ
drop zero xs = xs
drop (suc n) [] = []
drop (suc n) (x ∷ xs) = drop n xs

take-drop : (n : ℕ) (xs : List ℕ) → take n xs ++ (drop n xs ++ []) ≡ xs
unfolding drop
take-drop zero xs = append_nil xs
take-drop (suc n) [] = refl
take-drop (suc n) (x ∷ xs) = ap (λ t. x ∷ t) (take-drop n xs)

abbrev stream : List ℕ
stream = send_stream decimal decimal true turns

send_stream-send_request_and_process_response_example :
    (images : List Received) × (send_request_and_process_response
        (unstopped (take 350 stream ∷ drop 350 stream ∷ []))
      ≡ some images)
    × (map on_image_received images ≡ some header_rest ∷ some first_frame ∷ some second_frame ∷ [])
send_stream-send_request_and_process_response_example =
    send_stream-send_request_and_process_response decimal decimal decimal-Number decimal-Number
      turns (take 350 stream ∷ drop 350 stream ∷ [])
      (
        ((refl, refl, refl, refl, refl), (omega arith, none_in_short first_frame (omega arith))),
        (
          ((refl, refl, refl, refl, refl), (omega arith, none_in_short second_frame (omega arith))),
          tt,
        ),
      )
      (take-drop 350 stream)

abbrev hello : List ℕ
hello = codes "HTTP/1.0 200\r\n\r\n"

first_negative :
    (r : Received) × (send_request_and_process_response (unstopped ((hello ++ boundary_text) ∷ []))
      ≡ some (r ∷ []))
    × (r.received_length ≡ negsuc 1)
    × (on_image_received r ≡ none)
first_negative =
    send_request_and_process_response-negative hello ((hello ++ boundary_text) ∷ [])
      (ground arith, refl) refl

zeros : ℕ → List ℕ
zeros zero = []
zeros (suc n) = 0 ∷ zeros n

first_of : List ℕ → ℕ
first_of [] = 0
first_of (x ∷ xs) = x

length-zeros : (n : ℕ) → length (zeros n) ≡ n
unfolding zeros
length-zeros zero = refl
length-zeros (suc n) = omega (arith, length-zeros n)

no_dash_in_zeros :
    (n : ℕ) (before after : List ℕ) → zeros n ≡ before ++ (boundary_text ++ after) → ⊥
unfolding zeros first_of
no_dash_in_zeros zero [] after e = cc e
no_dash_in_zeros zero (b ∷ before) after e = cc e
no_dash_in_zeros (suc n) [] after e = omega (arith, ap first_of e)
no_dash_in_zeros (suc n) (b ∷ before) after e = no_dash_in_zeros n before after (cc e)

none_in_zeros : (n : ℕ) → ¬ Contains boundary_text (zeros n)
none_in_zeros n (before, after, e) = no_dash_in_zeros n before after e

abbrev large : List ℕ
large = zeros 102401

send_request_and_process_response-overflow_example :
    send_request_and_process_response (unstopped ((hello ++ (large ++ [])) ∷ [])) ≡ none
send_request_and_process_response-overflow_example =
    send_request_and_process_response-overflow hello large [] ((hello ++ (large ++ [])) ∷ [])
      (ground arith, refl) (none_in_zeros 102401) (omega (arith, length-zeros 102401))
      (append_nil (hello ++ (large ++ [])))

abbrev flagged : List (Bool × List (Bool × ℕ))
flagged =
    (false, read_all (take 30 (hello ++ boundary_text)) ++ (true, 116) ∷ [])
    ∷ (true, read_all (drop 31 (hello ++ boundary_text)))
    ∷ []

-- The flag is set before the third byte behind the boundary.
process_response-bytes_before_stop_example :
    process_response init_extractor_state flagged
    ≡ images_of (extract_data init_extractor_state (read_all (bytes_before_stop flagged)))
process_response-bytes_before_stop_example =
    process_response-bytes_before_stop init_extractor_state flagged ((λ s. refl), ((λ s. tt), tt))

flagged_bytes : bytes_before_stop flagged ≡ take 30 (hello ++ boundary_text)
unfolding drop
flagged_bytes = refl
