-- ===== src/Proxy/Limits.antt =====
-- The buffer of extract_data and the lengths that it reports.
use jpl_vision.Common.{
  ℕ, ◌+◌, ◌≤◌, ◌<◌, ◌≡◌, refl, ap, subst, ◌∙◌, inl, inr, ◌⊎◌, true, false, none, some, List, [],
  ◌∷◌, ◌++◌, length, ltb, arith, append_assoc, length-append,
}
use jpl_vision.Proxy.{
  boundary_text, buffer_size, Received, extract_content, extract_byte, extract_data,
  init_extractor_state, on_image_received, copied_image, send_request_and_process_response,
}
use jpl_vision.Common.Int.{negsuc}
use jpl_vision.Proxy.Search.{next}
use jpl_vision.Proxy.Header.{read_all, content_state, AllText, ends_header, header_run}
use jpl_vision.Proxy.Chunks.{
  extract_data-append, extract_data-cons, extract_data-cons_fails, then_read, followed_by, join,
  unstopped, images_of, process_response-join,
}
use jpl_vision.Proxy.Frames.{
  image, Contains, EndsIn, EndsIn-next, EndsIn-Contains, next-le, before_end, content_goes_on,
  boundary_first,
}

-- A byte that the buffer has no room for.
content_full :
    (buffer : List ℕ) (k last m c : ℕ)
    → buffer_size ≤ length buffer
    → extract_content (content_state buffer k last m) c ≡ none
unfolding extract_content
content_full buffer k last m c lb =
    let full : ltb (length buffer) buffer_size ≡ false = ground arith in rw (full) refl

content_overflows :
    (cs buffer : List ℕ) (k last m : ℕ)
    → k < length boundary_text
    → EndsIn boundary_text k buffer
    → length buffer ≤ buffer_size
    → buffer_size < length buffer + length cs
    → ¬ Contains boundary_text (buffer ++ cs)
    → extract_data (content_state buffer k last m) (read_all cs) ≡ none
unfolding extract_byte
content_overflows [] buffer k last m lk e le lb none_inside = absurd (omega (arith, le, lb))
content_overflows (c ∷ cs) buffer k last m lk e le lb none_inside = elim (room (length buffer)) [
  | inl full ↦
      extract_data-cons_fails (content_state buffer k last m) c (read_all cs)
        (content_full buffer k last m c full)
  | inr free ↦ elim (before_end (next boundary_text k c) (next-le boundary_text k c lk)) [
    | inl whole ↦
        let ended =
          subst (λ n. EndsIn boundary_text n (buffer ++ c ∷ [])) whole
            (EndsIn-next boundary_text buffer k c lk e) in
        absurd (
          none_inside (
            subst (Contains boundary_text) (append_assoc buffer (c ∷ []) cs)
              (EndsIn-Contains boundary_text (buffer ++ c ∷ []) cs ended)))
    | inr ln ↦
        let next_state = content_state (buffer ++ c ∷ []) (next boundary_text k c) last m in
        let grown = length-append buffer (c ∷ []) in
        let rest =
          content_overflows cs (buffer ++ c ∷ []) (next boundary_text k c) last m ln
            (EndsIn-next boundary_text buffer k c lk e) (omega (arith, free, grown))
            (omega (arith, lb, grown))
            (λ d.
              none_inside (subst (Contains boundary_text) (append_assoc buffer (c ∷ []) cs) d)) in
        extract_data-cons (content_state buffer k last m) next_state c (read_all cs) []
          (content_goes_on buffer k last m c lk free ln)
        ∙ ap (followed_by []) rest
  ]
]
  where
    room : (n : ℕ) → (buffer_size ≤ n) ⊎ (n < buffer_size)
    room n = ground arith

-- What the client's header is: bytes that are not NUL, and of which only the last is seen as the end.
abbrev pub IsHeader : List ℕ → Type 0
IsHeader hs = AllText hs × (ends_header false false false false false hs ≡ true)

behind_header :
    (hs : List ℕ)
    → IsHeader hs
    → (last : ℕ) × (m : ℕ) × (extract_data init_extractor_state (read_all hs)
        ≡ some (content_state [] 0 last m, []))
behind_header hs h =
    header_run 0 0 0 0 0 hs (omega arith) (omega arith) (omega arith) (omega arith) (omega arith)
      h.0 h.1

-- A part of more than 102400 bytes without a boundary in it, behind a header, is written beyond the
-- end of the client's buffer, in whatever chunks it comes.
pub send_request_and_process_response-overflow :
    (hs frame rest : List ℕ) (chunks : List (List ℕ))
    → IsHeader hs
    → ¬ Contains boundary_text frame
    → buffer_size < length frame
    → join chunks ≡ hs ++ (frame ++ rest)
    → send_request_and_process_response (unstopped chunks) ≡ none
unfolding send_request_and_process_response
send_request_and_process_response-overflow hs frame rest chunks h none_inside l e =
    let (last, m, run) = behind_header hs h in
    let over =
      content_overflows frame [] 0 last m (omega arith) ([], refl) (omega arith) (omega (arith, l))
        none_inside in
    process_response-join init_extractor_state chunks
    ∙ ap (λ b. images_of (extract_data init_extractor_state (read_all b))) e
    ∙ ap images_of (extract_data-append init_extractor_state hs (frame ++ rest))
    ∙ ap (λ o. images_of (then_read o (frame ++ rest))) run
    ∙ ap (λ o. images_of (followed_by [] o))
        (extract_data-append (content_state [] 0 last m) frame rest)
    ∙ ap (λ o. images_of (followed_by [] (then_read o rest))) over

-- A boundary right behind a header calls back with a length of -2, for which the callback copies beyond
-- any array.
pub send_request_and_process_response-negative :
    (hs : List ℕ) (chunks : List (List ℕ))
    → IsHeader hs
    → join chunks ≡ hs ++ boundary_text
    → (r : Received) × (send_request_and_process_response (unstopped chunks) ≡ some (r ∷ []))
      × (r.received_length ≡ negsuc 1)
      × (on_image_received r ≡ none)
unfolding send_request_and_process_response copied_image
send_request_and_process_response-negative hs chunks h e =
    let (last, m, run) = behind_header hs h in
    (
      image boundary_text,
      process_response-join init_extractor_state chunks
          ∙ ap (λ b. images_of (extract_data init_extractor_state (read_all b))) e
          ∙ ap images_of (extract_data-append init_extractor_state hs boundary_text)
          ∙ ap (λ o. images_of (then_read o boundary_text)) run
          ∙ ap (λ o. images_of (followed_by [] o)) (boundary_first last m),
      refl,
      refl,
    )
