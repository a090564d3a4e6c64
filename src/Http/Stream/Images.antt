-- ===== src/Http/Stream/Images.antt =====
-- The server's stream read by the client of plugins/input_http.
use jpl_vision.Common.{
  ℕ, ◌+◌, ◌≤◌, ◌<◌, ◌≡◌, refl, ap, sym, ◌∙◌, Bool, true, false, some, List, [], ◌∷◌, ◌++◌, map,
  length, ltb, ◌&&◌, if◌then◌else◌, ◌*◌, arith, codes, append_assoc, take-append, length-append,
}
use jpl_vision.Common.Int.{pos, sub_ℕ}
use jpl_vision.Proxy.{
  boundary_text, buffer_size, ExtractorState, Received, init_extractor_state, extract_data,
  on_image_received, copied_image, send_request_and_process_response,
}
use jpl_vision.Proxy.Header.{
  read_all, header_state, word, looks_cr, looks_lf, AllText, ends_header, header_run,
}
use jpl_vision.Proxy.Chunks.{
  extract_data-append, then_read, followed_by, join, unstopped, images_of, process_response-join,
}
use jpl_vision.Proxy.Frames.{image, Contains, frame_run}
use jpl_vision.Http.Stream.{
  Turn, std_header, stream_header, part_header, send_frame, send_frames, send_stream,
}

-- What sprintf prints for a number: digits, at least one.
abbrev pub AllDigits : List ℕ → Type 0
AllDigits [] = Unit {0}
AllDigits (d ∷ ds) = ((48 ≤ d) × (d < 58)) × AllDigits ds

abbrev pub Number : List ℕ → Type 0
Number ds = AllDigits ds × (0 < length ds)

digit_lf : (d : ℕ) → 48 ≤ d → d < 58 → looks_lf d ≡ false
digit_lf d l h = ground arith

digit_cr : (d : ℕ) → 48 ≤ d → d < 58 → looks_cr d ≡ false
digit_cr d l h = ground arith

-- No header ends in a number.
ends_header-digits :
    (ds cs : List ℕ) (cr2 lf3 cr3 : Bool)
    → AllDigits ds
    → ((a b c : Bool) → ends_header a b c false false cs ≡ true)
    → ends_header cr2 lf3 cr3 false false (ds ++ cs) ≡ true
ends_header-digits [] cs cr2 lf3 cr3 a h = h cr2 lf3 cr3
ends_header-digits (d ∷ ds) cs cr2 lf3 cr3 a h =
    rw (digit_lf d a.0.0 a.0.1, digit_cr d a.0.0 a.0.1)
      (ends_header-digits ds cs cr3 false false a.1 h)

ends_header-Number :
    (ds cs : List ℕ) (cr2 lf3 cr3 lf4 cr4 : Bool)
    → Number ds
    → ((a b c : Bool) → ends_header a b c false false cs ≡ true)
    → ends_header cr2 lf3 cr3 lf4 cr4 (ds ++ cs) ≡ true
ends_header-Number [] cs cr2 lf3 cr3 lf4 cr4 n h = absurd (omega (arith, n))
ends_header-Number (d ∷ ds) cs cr2 lf3 cr3 lf4 cr4 n h =
    rw (digit_lf d n.0.0.0 n.0.0.1, digit_cr d n.0.0.0 n.0.0.1)
      (ends_header-digits ds cs cr3 lf4 cr4 n.0.1 h)

AllText-append : (xs ys : List ℕ) → AllText xs → AllText ys → AllText (xs ++ ys)
AllText-append [] ys a b = b
AllText-append (x ∷ xs) ys a b = (a.0, AllText-append xs ys a.1 b)

AllDigits-AllText : (ds : List ℕ) → AllDigits ds → AllText ds
AllDigits-AllText [] a = tt
AllDigits-AllText (d ∷ ds) a = ((omega (arith, a.0), omega (arith, a.0)), AllDigits-AllText ds a.1)

AllText-Number : (ds cs : List ℕ) → Number ds → AllText cs → AllText (ds ++ cs)
AllText-Number ds cs n b = AllText-append ds cs (AllDigits-AllText ds n.0) b

and_false : (b : Bool) → (b && false) ≡ false
and_false true = refl
and_false false = refl

-- The client before each part: behind the boundary and its line feed.
abbrev waiting : ExtractorState
waiting = header_state (word 0 0 13 10) 0

-- A turn of the loop in which all is written.
abbrev pub Delivered : Turn → Type 0
Delivered t =
    (t.stop ≡ false)
    × (t.has_memory ≡ true)
    × (t.header_written ≡ true)
    × (t.frame_written ≡ true)
    × (t.boundary_written ≡ true)

-- A frame that the client can hold, and that it does not take for a boundary.
abbrev pub Fits : List ℕ → Type 0
Fits frame = (length frame + 22 ≤ buffer_size) × ¬ Contains boundary_text frame

abbrev pub AllSent : List Turn → Type 0
AllSent [] = Unit {0}
AllSent (t ∷ ts) = (Delivered t × Fits t.frame) × AllSent ts

abbrev pub frame_image : Turn → Received
frame_image t = image (t.frame ++ 13 ∷ 10 ∷ boundary_text)

module _ (printed printed_06 : ℕ → List ℕ) (number : (n : ℕ) → Number (printed n))
    (number_06 : (n : ℕ) → Number (printed_06 n)) where
  part_header-AllText : (t : Turn) → AllText (part_header printed printed_06 t)
  unfolding part_header
  part_header-AllText t =
      let fraction =
        AllText-Number (printed_06 t.tv_usec) (codes "\r\n\r\n") (number_06 t.tv_usec)
          (ground arith) in
      let seconds =
        AllText-Number (printed t.tv_sec) (46 ∷ (printed_06 t.tv_usec ++ codes "\r\n\r\n"))
          (number t.tv_sec) ((omega arith, omega arith), fraction) in
      let time =
        AllText-append (codes "\r\nX-Timestamp: ")
          (printed t.tv_sec ++ (46 ∷ (printed_06 t.tv_usec ++ codes "\r\n\r\n"))) (ground arith)
          seconds in
      let size =
        AllText-Number (printed (length t.frame))
          (codes "\r\nX-Timestamp: "
            ++ (printed t.tv_sec ++ (46 ∷ (printed_06 t.tv_usec ++ codes "\r\n\r\n"))))
          (number (length t.frame)) time in
      AllText-append (codes "Content-Type: image/jpeg\r\nContent-Length: ")
        (printed (length t.frame)
          ++ (codes "\r\nX-Timestamp: "
              ++ (printed t.tv_sec ++ (46 ∷ (printed_06 t.tv_usec ++ codes "\r\n\r\n")))))
        (ground arith) size

  part_header-ends :
      (t : Turn) → ends_header false false true true false (part_header printed printed_06 t) ≡ true
  unfolding part_header
  part_header-ends t =
      let fraction = λ (a b c : Bool).
        ends_header-Number (printed_06 t.tv_usec) (codes "\r\n\r\n") c false false true false
          (number_06 t.tv_usec) (λ a b c. refl) in
      let seconds = λ (a b c : Bool).
        ends_header-Number (printed t.tv_sec) (46 ∷ (printed_06 t.tv_usec ++ codes "\r\n\r\n"))
          false true false false false (number t.tv_sec) fraction in
      ends_header-Number (printed (length t.frame))
        (codes "\r\nX-Timestamp: "
          ++ (printed t.tv_sec ++ (46 ∷ (printed_06 t.tv_usec ++ codes "\r\n\r\n"))))
        false true false false false (number (length t.frame)) seconds

  read_part :
      (t : Turn)
      → Fits t.frame
      → extract_data waiting
          (read_all (part_header printed printed_06 t ++ (t.frame ++ 13 ∷ 10 ∷ boundary_text)))
        ≡ some (init_extractor_state, frame_image t ∷ [])
  read_part t f =
      let (last, m, run) =
        header_run 0 0 13 10 0 (part_header printed printed_06 t) (omega arith) (omega arith)
          (omega arith) (omega arith) (omega arith) (part_header-AllText t) (part_header-ends t) in
      extract_data-append waiting (part_header printed printed_06 t)
        (t.frame ++ 13 ∷ 10 ∷ boundary_text)
      ∙ ap (λ o. then_read o (t.frame ++ 13 ∷ 10 ∷ boundary_text)) run
      ∙ ap (followed_by []) (frame_run t.frame last m f.0 f.1)

  line_read : extract_data init_extractor_state (read_all (13 ∷ 10 ∷ [])) ≡ some (waiting, [])
  unfolding extract_data
  line_read = refl

  abbrev next_size : Turn → ℕ → ℕ
  next_size t max_frame_size =
      if ltb max_frame_size (length t.frame) then length t.frame + 10 * 1024 else max_frame_size

  sent_turn :
      (t : Turn) (ts : List Turn) (max_frame_size : ℕ)
      → Delivered t
      → send_frames printed printed_06 (t ∷ ts) max_frame_size
        ≡ (part_header printed printed_06 t ++ (t.frame ++ 13 ∷ 10 ∷ boundary_text))
          ++ (13 ∷ 10 ∷ send_frames printed printed_06 ts (next_size t max_frame_size))
  unfolding send_frames send_frame
  sent_turn t ts max_frame_size (s, m, h, f, b) =
      rw (s, m, h, f, b, and_false (ltb max_frame_size (length t.frame)))
        (ap (λ l. part_header printed printed_06 t ++ l)
            (sym (
              append_assoc t.frame (13 ∷ 10 ∷ boundary_text)
                (13 ∷ 10 ∷ send_frames printed printed_06 ts (next_size t max_frame_size))))
          ∙ sym (
              append_assoc (part_header printed printed_06 t) (t.frame ++ 13 ∷ 10 ∷ boundary_text)
                (13 ∷ 10 ∷ send_frames printed printed_06 ts (next_size t max_frame_size))))

  -- What the client has called back with when it has read the turns.
  send_frames-read :
      (ts : List Turn) (max_frame_size : ℕ)
      → AllSent ts
      → (u : ExtractorState) × (extract_data waiting
            (read_all (send_frames printed printed_06 ts max_frame_size))
          ≡ some (u, map frame_image ts))
  unfolding send_frames extract_data
  send_frames-read [] max_frame_size a = (waiting, refl)
  send_frames-read (t ∷ ts) max_frame_size a =
      let rest = send_frames printed printed_06 ts (next_size t max_frame_size) in
      let part = part_header printed printed_06 t ++ (t.frame ++ 13 ∷ 10 ∷ boundary_text) in
      let (u, later) = send_frames-read ts (next_size t max_frame_size) a.1 in
      let line =
        extract_data-append init_extractor_state (13 ∷ 10 ∷ []) rest
        ∙ ap (λ o. then_read o rest) line_read
        ∙ ap (followed_by []) later in
      (
        u,
        ap (λ b. extract_data waiting (read_all b)) (sent_turn t ts max_frame_size a.0.0)
            ∙ extract_data-append waiting part (13 ∷ 10 ∷ rest)
            ∙ ap (λ o. then_read o (13 ∷ 10 ∷ rest)) (read_part t a.0.1)
            ∙ ap (followed_by (frame_image t ∷ [])) line,
      )

-- The rest of the response's header behind "HTTP/1.0 200 OK" and its line end.
abbrev pub header_rest : List ℕ
header_rest =
    codes "Access-Control-Allow-Origin: *\r\n"
    ++ std_header
    ++ codes "Content-Type: multipart/x-mixed-replace;boundary=boundarydonotcross\r\n"

response_read :
    extract_data init_extractor_state (read_all stream_header)
    ≡ some (waiting, image (header_rest ++ 13 ∷ 10 ∷ boundary_text) ∷ [])
unfolding extract_data stream_header
response_read = refl

cut : (n m : ℕ) → n ≡ m + 22 → sub_ℕ n 22 ≡ pos m
cut n m e = ground (arith, ap pos)

-- The bytes that image leaves, without the line end before the boundary.
copied_image-image :
    (frame : List ℕ) → on_image_received (image (frame ++ 13 ∷ 10 ∷ boundary_text)) ≡ some frame
unfolding copied_image
copied_image-image frame =
    let bytes = frame ++ 13 ∷ 10 ∷ boundary_text in
    let size = length-append frame (13 ∷ 10 ∷ boundary_text) in
    let enough : ltb (length bytes) (length frame) ≡ false = ground (arith, size) in
    ap (copied_image (image bytes)) (cut (length bytes) (length frame) size)
    ∙ rw (enough, take-append frame (13 ∷ 10 ∷ boundary_text)) refl

copied-frames :
    (ts : List Turn)
    → map on_image_received (map (λ t. image (t.frame ++ 13 ∷ 10 ∷ boundary_text)) ts)
      ≡ map (λ t. some t.frame) ts
copied-frames [] = refl
copied-frames (t ∷ ts) = rw (copied_image-image t.frame, copied-frames ts) refl

-- The server's stream, in whatever chunks the client receives it, makes the client of input_http copy to
-- the global buffer first the rest of the response's header, and then exactly the frames that were sent,
-- in their order. Every turn of the loop is one in which nothing stops the server, memory is given
-- and all writes succeed, a frame has no boundary in it and at most 102378 bytes, numbers are
-- printed as one digit or more, and nothing stops the client.
pub send_stream-send_request_and_process_response :
    (printed printed_06 : ℕ → List ℕ)
    → ((n : ℕ) → Number (printed n))
    → ((n : ℕ) → Number (printed_06 n))
    → (ts : List Turn) (chunks : List (List ℕ)) → AllSent ts
    → join chunks ≡ send_stream printed printed_06 true ts
    → (images : List Received) × (send_request_and_process_response (unstopped chunks)
        ≡ some images)
      × (map on_image_received images ≡ some header_rest ∷ map (λ t. some t.frame) ts)
unfolding send_stream send_request_and_process_response
send_stream-send_request_and_process_response printed printed_06 number number_06 ts chunks a e =
    let (u, turns) = send_frames-read printed printed_06 number number_06 ts 0 a in
    let first = image (header_rest ++ 13 ∷ 10 ∷ boundary_text) in
    let run =
      extract_data-append init_extractor_state stream_header (send_frames printed printed_06 ts 0)
      ∙ ap (λ o. then_read o (send_frames printed printed_06 ts 0)) response_read
      ∙ ap (followed_by (first ∷ [])) turns in
    (
      first ∷ map (λ t. image (t.frame ++ 13 ∷ 10 ∷ boundary_text)) ts,
      process_response-join init_extractor_state chunks
          ∙ ap (λ b. images_of (extract_data init_extractor_state (read_all b))) e
          ∙ ap images_of run,
      ap (λ i. i ∷ map on_image_received (map (λ t. image (t.frame ++ 13 ∷ 10 ∷ boundary_text)) ts))
            (copied_image-image header_rest)
          ∙ ap (λ l. some header_rest ∷ l) (copied-frames ts),
    )
