-- ===== src/Proxy/Frames.antt =====
-- The content that extract_data collects: up to the boundary the bytes are kept, and at the boundary
-- the callback gets them.
use jpl_vision.Common.{
  ℕ, suc, ◌+◌, ◌≤◌, ◌<◌, ◌≡◌, refl, ap, sym, ◌∙◌, inl, inr, ◌⊎◌, false, some, List, [], ◌∷◌, ◌++◌,
  length, get_or, take, ◌==◌, Bool-cases, subst, arith, lt→ltb, length-append, append_assoc,
  append_nil, codes, take-suc, take-length,
}
use jpl_vision.Common.Int.{sub_ℕ}
use jpl_vision.Proxy.{
  boundary_text, buffer_size, content, ExtractorState, Received, init_extractor_state, image_of,
  extract_content, content_byte, extract_byte, extract_data,
}
use jpl_vision.Proxy.Search.{
  next, AllNonzero, search_pattern_compare-next, search_pattern_matches_iff,
}
use jpl_vision.Proxy.Header.{read_all, content_state}
use jpl_vision.Proxy.Chunks.{extract_data-append, then_read, followed_by}

abbrev pub image : List ℕ → Received
image buffer = record {
  received_data = buffer;
  received_length = sub_ℕ (length buffer) (length boundary_text + 2);
}

boundary-AllNonzero : AllNonzero boundary_text
boundary-AllNonzero = ground arith

pub next-le : (text : List ℕ) (k c : ℕ) → k < length text → next text k c ≤ length text
next-le text k c h = ground arith

pub before_end :
    (k : ℕ) → k ≤ length boundary_text → (k ≡ length boundary_text) ⊎ (k < length boundary_text)
before_end k h = ground arith

pub content_goes_on :
    (buffer : List ℕ) (k last m c : ℕ)
    → k < length boundary_text
    → length buffer < buffer_size
    → next boundary_text k c < length boundary_text
    → extract_content (content_state buffer k last m) c
      ≡ some (content_state (buffer ++ c ∷ []) (next boundary_text k c) last m, [])
unfolding extract_content content_byte
content_goes_on buffer k last m c lk lb ln =
    let le = next-le boundary_text k c lk in
    let other : (next boundary_text k c == length boundary_text) ≡ false = ground arith in
    rw
      (
        lt→ltb (length buffer) buffer_size lb,
        search_pattern_compare-next boundary_text k c (omega arith),
        search_pattern_matches_iff boundary_text (next boundary_text k c) boundary-AllNonzero le,
        other,
      )
      refl

content_ends :
    (buffer : List ℕ) (k last m c : ℕ)
    → k < length boundary_text
    → length buffer < buffer_size
    → next boundary_text k c ≡ length boundary_text
    → extract_content (content_state buffer k last m) c
      ≡ some (init_extractor_state, image (buffer ++ c ∷ []) ∷ [])
unfolding extract_content content_byte image_of
content_ends buffer k last m c lk lb e =
    rw
      (
        lt→ltb (length buffer) buffer_size lb,
        search_pattern_compare-next boundary_text k c (omega arith),
        e,
      )
      refl

-- One step of the loop.
extract_data-content :
    (s s' t : ExtractorState) (c : ℕ) (cs : List ℕ) (images later : List Received)
    → extract_content s c ≡ some (s', images)
    → extract_data s' (read_all cs) ≡ some (t, later)
    → s.part ≡ content
    → extract_data s (read_all (c ∷ cs)) ≡ some (t, images ++ later)
unfolding extract_data extract_byte
extract_data-content s s' t c cs images later e r p =
    rw (ap (λ q. extract_byte q s c) p ∙ e, r) refl

-- The text stands somewhere in the bytes.
abbrev pub Contains : List ℕ → List ℕ → Type 0
Contains text xs = (before : List ℕ) × (after : List ℕ) × (xs ≡ before ++ (text ++ after))

-- The bytes end in the first `k` of the text.
abbrev pub EndsIn : List ℕ → ℕ → List ℕ → Type 0
EndsIn text k xs = (before : List ℕ) × (xs ≡ before ++ take k text)

pub EndsIn-next :
    (text xs : List ℕ) (k c : ℕ)
    → k < length text
    → EndsIn text k xs
    → EndsIn text (next text k c) (xs ++ c ∷ [])
EndsIn-next text xs k c h (before, e) = elim (Bool-cases (get_or text k 0 == c)) [
  | inl t ↦
      let same : get_or text k 0 ≡ c = ground arith in
      let counted : next text k c ≡ suc k = ground arith in
      (
        before,
        cc (e, append_assoc before (take k text) (c ∷ []), take-suc text k 0 h, same, counted),
      )
  | inr f ↦ (xs ++ c ∷ [], rw (f) (sym (append_nil (xs ++ c ∷ []))))
]

pub EndsIn-Contains :
    (text xs ys : List ℕ) → EndsIn text (length text) xs → Contains text (xs ++ ys)
EndsIn-Contains text xs ys (before, e) =
    (before, ys, rw (e, take-length text, append_assoc before text ys) refl)

content_run :
    (cs buffer : List ℕ) (k last m : ℕ)
    → k < length boundary_text
    → EndsIn boundary_text k buffer
    → length buffer + length cs ≤ buffer_size
    → ¬ Contains boundary_text (buffer ++ cs)
    → (k' : ℕ) × (k' < length boundary_text)
      × (extract_data (content_state buffer k last m) (read_all cs)
          ≡ some (content_state (buffer ++ cs) k' last m, []))
unfolding extract_data
content_run [] buffer k last m lk e lb none_inside = (k, lk, rw (append_nil buffer) refl)
content_run (c ∷ cs) buffer k last m lk e lb none_inside =
    elim (before_end (next boundary_text k c) (next-le boundary_text k c lk)) [
      | inl whole ↦
          let ended =
            subst (λ n. EndsIn boundary_text n (buffer ++ c ∷ [])) whole
              (EndsIn-next boundary_text buffer k c lk e) in
          absurd (
            none_inside (
              subst (Contains boundary_text) (append_assoc buffer (c ∷ []) cs)
                (EndsIn-Contains boundary_text (buffer ++ c ∷ []) cs ended)))
      | inr ln ↦
          let assoc = append_assoc buffer (c ∷ []) cs in
          let (k', l', r) =
            content_run cs (buffer ++ c ∷ []) (next boundary_text k c) last m ln
              (EndsIn-next boundary_text buffer k c lk e)
              (omega (arith, lb, length-append buffer (c ∷ [])))
              (λ d. none_inside (subst (Contains boundary_text) assoc d)) in
          (
            k',
            l',
            extract_data-content (content_state buffer k last m)
                (content_state (buffer ++ c ∷ []) (next boundary_text k c) last m)
                (content_state (buffer ++ c ∷ cs) k' last m) c cs [] []
                (content_goes_on buffer k last m c lk (omega (arith, lb)) ln)
                (r ∙ ap (λ b. some (content_state b k' last m, [])) assoc) refl,
          )
    ]

get_or-append : (xs : List ℕ) (y : ℕ) (ys : List ℕ) → get_or (xs ++ y ∷ ys) (length xs) 0 ≡ y
get_or-append [] y ys = refl
get_or-append (x ∷ xs) y ys = get_or-append xs y ys

next-part :
    (text xs : List ℕ) (y : ℕ) (ys : List ℕ)
    → xs ++ y ∷ ys ≡ text
    → next text (length xs) y ≡ length (xs ++ y ∷ [])
next-part text xs y ys e =
    let here = ap (λ t. get_or t (length xs) 0) (sym e) ∙ get_or-append xs y ys in
    ground (arith, here, length-append xs (y ∷ []))

-- The rest of the boundary, after some of it.
boundary_run :
    (xs : List ℕ) (y : ℕ) (ys buffer : List ℕ) (last m : ℕ)
    → xs ++ y ∷ ys ≡ boundary_text
    → length buffer + suc (length ys) ≤ buffer_size
    → extract_data (content_state buffer (length xs) last m) (read_all (y ∷ ys))
      ≡ some (init_extractor_state, image (buffer ++ y ∷ ys) ∷ [])
unfolding extract_data
boundary_run xs y [] buffer last m e lb =
    let size = ap length e in
    let ends =
      content_ends buffer (length xs) last m y (omega (arith, size, length-append xs (y ∷ [])))
        (omega (arith, lb)) (next-part boundary_text xs y [] e ∙ size) in
    extract_data-content (content_state buffer (length xs) last m) init_extractor_state
      init_extractor_state y [] (image (buffer ++ y ∷ []) ∷ []) [] ends refl refl
boundary_run xs y (z ∷ ys) buffer last m e lb =
    let size = ap length e in
    let before : length xs < length boundary_text =
      omega (arith, size, length-append xs (y ∷ z ∷ ys)) in
    let counted = next-part boundary_text xs y (z ∷ ys) e in
    let goes =
      content_goes_on buffer (length xs) last m y before (omega (arith, lb))
        (omega (arith, counted, size, length-append xs (y ∷ z ∷ ys), length-append xs (y ∷ []))) in
    let rest =
      boundary_run (xs ++ y ∷ []) z ys (buffer ++ y ∷ []) last m
        (append_assoc xs (y ∷ []) (z ∷ ys) ∙ e)
        (omega (arith, lb, length-append buffer (y ∷ []))) in
    extract_data-content (content_state buffer (length xs) last m)
      (content_state (buffer ++ y ∷ []) (length (xs ++ y ∷ [])) last m) init_extractor_state y
      (z ∷ ys) [] (image (buffer ++ y ∷ z ∷ ys) ∷ [])
      (goes ∙ ap (λ n. some (content_state (buffer ++ y ∷ []) n last m, [])) counted)
      (rest
        ∙ ap (λ b. some (init_extractor_state, image b ∷ []))
            (append_assoc buffer (y ∷ []) (z ∷ ys)))
      refl

next-return : (k : ℕ) → k < length boundary_text → next boundary_text k 13 ≡ 0
next-return k h = ground arith

-- The first line feed and carriage return behind the frame, and the boundary after them.
frame_end :
    (frame : List ℕ) (k last m : ℕ)
    → k < length boundary_text
    → length frame + 22 ≤ buffer_size
    → extract_data (content_state frame k last m) (read_all (13 ∷ 10 ∷ boundary_text))
      ≡ some (init_extractor_state, image (frame ++ 13 ∷ 10 ∷ boundary_text) ∷ [])
frame_end frame k last m lk lb =
    let returned = frame ++ 13 ∷ [] in
    let fed = returned ++ 10 ∷ [] in
    let back = next-return k lk in
    let grown = length-append frame (13 ∷ []) in
    let run =
      boundary_run [] 45 (codes "-boundarydonotcross") fed last m refl
        (omega (arith, lb, grown, length-append returned (10 ∷ []))) in
    let second =
      content_goes_on returned 0 last m 10 (omega arith) (omega (arith, lb, grown)) (omega arith) in
    let first = content_goes_on frame k last m 13 lk (omega (arith, lb)) (omega (arith, back)) in
    extract_data-content (content_state frame k last m) (content_state returned 0 last m)
      init_extractor_state 13 (10 ∷ boundary_text) []
      (image (frame ++ 13 ∷ 10 ∷ boundary_text) ∷ [])
      (first ∙ ap (λ n. some (content_state returned n last m, [])) back)
      (extract_data-content (content_state returned 0 last m) (content_state fed 0 last m)
        init_extractor_state 10 boundary_text [] (image (frame ++ 13 ∷ 10 ∷ boundary_text) ∷ [])
        second
        (run
          ∙ ap (λ b. some (init_extractor_state, image b ∷ []))
              (append_assoc returned (10 ∷ []) boundary_text
                ∙ append_assoc frame (13 ∷ []) (10 ∷ boundary_text)))
        refl)
      refl

-- A frame without the boundary in it, and the boundary behind it.
pub frame_run :
    (frame : List ℕ) (last m : ℕ)
    → length frame + 22 ≤ buffer_size
    → ¬ Contains boundary_text frame
    → extract_data (content_state [] 0 last m) (read_all (frame ++ 13 ∷ 10 ∷ boundary_text))
      ≡ some (init_extractor_state, image (frame ++ 13 ∷ 10 ∷ boundary_text) ∷ [])
frame_run frame last m lb h =
    let (k, lk, run) =
      content_run frame [] 0 last m (omega arith) ([], refl) (omega (arith, lb)) h in
    extract_data-append (content_state [] 0 last m) frame (13 ∷ 10 ∷ boundary_text)
    ∙ ap (λ o. then_read o (13 ∷ 10 ∷ boundary_text)) run
    ∙ ap (followed_by []) (frame_end frame k last m lk lb)

-- The boundary right behind a header: an image of a negative length.
pub boundary_first :
    (last m : ℕ)
    → extract_data (content_state [] 0 last m) (read_all boundary_text)
      ≡ some (init_extractor_state, image boundary_text ∷ [])
boundary_first last m =
    boundary_run [] 45 (codes "-boundarydonotcross") [] last m refl (omega arith)
