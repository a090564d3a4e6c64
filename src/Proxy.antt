-- ===== src/Proxy.antt =====
-- The client of another streamer, plugins/input_http: extract_data and
-- send_request_and_process_response of mjpg-proxy.c, misc.c, and on_image_received of input_http.c.
-- A `char` is a byte without a sign, as it is on the ARM that runs it; an `int` keeps its 32 bits.
-- `none` is a read or write outside an array. The buffer of a state is the part of the array below
-- `length`, which nothing else reads.
pub mod Search
pub mod Header
pub mod Chunks
pub mod Frames
pub mod Limits
mod Tests
use jpl_vision.Common.{
  ℕ, ◌+◌, ◌*◌, ◌/◌, ◌%◌, ◌^◌, Bool, true, false, ◌&&◌, Option, none, some, List, [], ◌∷◌, ◌++◌,
  length, get_elem?, take, ltb, ◌==◌, if◌then◌else◌, ◌>>=◌, codes, assert,
}
use jpl_vision.Common.Int.{ℤ, pos, negsuc, sub_ℕ}

-- misc.c

unfoldable pub bit : ℕ → ℕ → Bool
bit bytes k = bytes / 2 ^ k % 2 == 1

-- The mask has the bits of 13 << 8 and of 10.
unfoldable pub is_crlf : ℕ → Bool
unfolding bit
is_crlf bytes = bit bytes 1 && bit bytes 3 && bit bytes 8 && bit bytes 10 && bit bytes 11

unfoldable pub is_crlfcrlf : ℕ → Bool
unfolding is_crlf
is_crlfcrlf bytes = is_crlf bytes && is_crlf (bytes / 2 ^ 16)

unfoldable pub push_byte : ℕ → ℕ → ℕ
push_byte bytes byte = (bytes * 2 ^ 8 + byte) % 2 ^ 32

-- `matched` is current_matched_char - string.
pub record SearchPattern : Type 0 where
  pub string : List ℕ
  pub matched : ℕ

abbrev pub search_pattern_reset : SearchPattern → SearchPattern
search_pattern_reset p = record p { matched = 0 }

-- The character that current_matched_char points to, the NUL at the end included.
abbrev pub current_char : SearchPattern → Option ℕ
current_char p = get_elem? (p.string ++ 0 ∷ []) p.matched

unfoldable pub search_pattern_compare : SearchPattern → ℕ → Option SearchPattern
search_pattern_compare p c = do
  d ← current_char p
  some (if d == c then record p { matched = p.matched + 1 } else search_pattern_reset p)

unfoldable pub search_pattern_matches : SearchPattern → Option Bool
search_pattern_matches p = do d ← current_char p; some (d == 0)

-- mjpg-proxy.c

abbrev pub content_length_text : List ℕ
content_length_text = codes "Content-Length:"

abbrev pub boundary_text : List ℕ
boundary_text = codes "--boundarydonotcross"

abbrev pub buffer_size : ℕ
buffer_size = 1024 * 100

pub data Part : Type 0 where
  header content : Part

pub record ExtractorState : Type 0 where
  pub buffer : List ℕ
  pub part : Part
  pub last_four_bytes : ℕ
  pub contentlength : SearchPattern
  pub boundary : SearchPattern

-- A call of on_image_received, with the buffer and the length.
pub record Received : Type 0 where
  pub received_data : List ℕ
  pub received_length : ℤ

-- The bytes that the callback may still find in the buffer are not reset, but no code reads them.
abbrev pub init_extractor_state : ExtractorState
init_extractor_state = record {
  buffer = [];
  part = header;
  last_four_bytes = 0;
  contentlength = record { string = content_length_text; matched = 0 };
  boundary = record { string = boundary_text; matched = 0 };
}

unfoldable pub extract_header : ExtractorState → ℕ → Option ExtractorState
unfolding push_byte is_crlfcrlf is_crlf search_pattern_compare search_pattern_matches
extract_header state c =
    let last = push_byte state.last_four_bytes c in
    if is_crlfcrlf last
    then some (record state { last_four_bytes = last; part = content })
    else if is_crlf last
    then some (record state {
      last_four_bytes = last;
      contentlength = search_pattern_reset state.contentlength;
    })
    else do
      p ← search_pattern_compare state.contentlength c
      _ ← search_pattern_matches p
      some (record state { last_four_bytes = last; contentlength = p })

-- The length is reduced by strlen(state->boundary.string) + 2.
unfoldable pub image_of : ExtractorState → Received
image_of state = record {
  received_data = state.buffer;
  received_length = sub_ℕ (length state.buffer) (length state.boundary.string + 2);
}

unfoldable pub content_byte : ExtractorState → Bool → ExtractorState × List Received
unfolding image_of
content_byte state found =
    if found then (init_extractor_state, image_of state ∷ []) else (state, [])

unfoldable pub extract_content : ExtractorState → ℕ → Option (ExtractorState × List Received)
unfolding search_pattern_compare search_pattern_matches image_of content_byte
extract_content state c = do
  _ ← assert (ltb (length state.buffer) buffer_size)
  p ← search_pattern_compare state.boundary c
  found ← search_pattern_matches p
  some (content_byte (record state { buffer = state.buffer ++ c ∷ []; boundary = p }) found)

unfoldable pub extract_byte : Part → ExtractorState → ℕ → Option (ExtractorState × List Received)
unfolding extract_header extract_content
extract_byte header state c = do state' ← extract_header state c; some (state', [])
extract_byte content state c = extract_content state c

-- The loop over a chunk; each byte comes with the value of *should_stop that the loop reads before it.
unfoldable pub extract_data :
    ExtractorState → List (Bool × ℕ) → Option (ExtractorState × List Received)
unfolding extract_byte
extract_data state [] = some (state, [])
extract_data state ((true, c) ∷ cs) = some (state, [])
extract_data state ((false, c) ∷ cs) = do
  (state', images) ← extract_byte state.part state c
  (state'', later) ← extract_data state' cs
  some (state'', images ++ later)

-- The loop around recv: each chunk comes with the value of *should_stop that is read after it. It ends
-- when recv returns 0 or an error, the end of the list.
unfoldable pub process_response :
    ExtractorState → List (Bool × List (Bool × ℕ)) → Option (List Received)
unfolding extract_data
process_response state [] = some []
process_response state ((true, chunk) ∷ chunks) = some []
process_response state ((false, chunk) ∷ chunks) = do
  (state', images) ← extract_data state chunk
  later ← process_response state' chunks
  some (images ++ later)

-- The callbacks from one connection.
unfoldable pub send_request_and_process_response :
    List (Bool × List (Bool × ℕ)) → Option (List Received)
unfolding process_response
send_request_and_process_response chunks = process_response init_extractor_state chunks

-- input_http.c: the bytes that are copied to the global buffer; a negative length is a size of memcpy
-- beyond any array.
unfoldable pub copied_image : Received → ℤ → Option (List ℕ)
copied_image r (pos n) =
    if ltb (length r.received_data) n then none else some (take n r.received_data)
copied_image r (negsuc n) = none

abbrev pub on_image_received : Received → Option (List ℕ)
unfolding copied_image
on_image_received r = copied_image r r.received_length
