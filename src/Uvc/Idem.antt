-- ===== src/Uvc/Idem.antt =====
-- A picture that has got its table is copied as it is.
use jpl_vision.Common.{
  ℕ, zero, suc, ◌+◌, ◌-◌, ◌*◌, ◌≤◌, ◌<◌, ◌≡◌, ◌≢◌, refl, ap, sym, ◌∙◌, inl, inr, ◌⊎◌, true, false,
  some, List, [], ◌∷◌, ◌++◌, length, get_or, ◌==◌, ==_iff, if◌then◌else◌, Bool-cases, length-append,
  arith,
}
use jpl_vision.Common.Memory.{Array, slice}
use jpl_vision.Uvc.{
  dht_data, marker, is_huffman_from, is_huffman, frame_start_from, with_table, memcpy_picture,
}

-- A buffer with the bytes in it, before other memory.
abbrev pub placed : List ℕ → Array ℕ → Array ℕ
placed xs rest i = get_or xs i (rest i)

length-slice : (buf : Array ℕ) (i n : ℕ) → length (slice buf i n) ≡ n
unfolding slice
length-slice buf i zero = refl
length-slice buf i (suc n) = omega (arith, length-slice buf (i + 1) n)

get_or-slice :
    (buf : Array ℕ) (i n j : ℕ) (d : ℕ) → j < n → get_or (slice buf i n) j d ≡ buf (i + j)
unfolding slice
get_or-slice buf i zero j d l = absurd (omega (arith, l))
get_or-slice buf i (suc n) zero d l = ap buf (omega arith)
get_or-slice buf i (suc n) (suc j) d l =
    get_or-slice buf (i + 1) n j d (omega (arith, l)) ∙ ap buf (omega arith)

get_or-first : (xs ys : List ℕ) (j d : ℕ) → j < length xs → get_or (xs ++ ys) j d ≡ get_or xs j d
get_or-first [] ys j d l = absurd (omega (arith, l))
get_or-first (x ∷ xs) ys zero d l = refl
get_or-first (x ∷ xs) ys (suc j) d l = get_or-first xs ys j d (omega (arith, l))

get_or-second :
    (xs ys : List ℕ) (j k d : ℕ) → k ≡ length xs + j → get_or (xs ++ ys) k d ≡ get_or ys j d
get_or-second [] ys j k d l = ap (λ i. get_or ys i d) (omega (arith, l))
get_or-second (x ∷ xs) ys j zero d l = absurd (omega (arith, l))
get_or-second (x ∷ xs) ys j (suc k) d l = get_or-second xs ys j k d (omega (arith, l))

get_or-default : (xs : List ℕ) (j c d : ℕ) → j < length xs → get_or xs j c ≡ get_or xs j d
get_or-default [] j c d l = absurd (omega (arith, l))
get_or-default (x ∷ xs) zero c d l = refl
get_or-default (x ∷ xs) (suc j) c d l = get_or-default xs j c d (omega (arith, l))

slice-same :
    (f : Array ℕ) (i : ℕ) (xs : List ℕ)
    → ((j : ℕ) → j < length xs → f (i + j) ≡ get_or xs j 0)
    → slice f i (length xs) ≡ xs
unfolding slice
slice-same f i [] h = refl
slice-same f i (x ∷ xs) h =
    let first : f i ≡ x = ap f (omega arith) ∙ h 0 (omega arith) in
    let rest = slice-same f (i + 1) xs (λ j l. ap f (omega arith) ∙ h (suc j) (omega (arith, l))) in
    cc (first, rest)

-- All of what has been placed.
slice-placed : (xs : List ℕ) (rest : Array ℕ) → slice (placed xs rest) 0 (length xs) ≡ xs
slice-placed xs rest =
    slice-same (placed xs rest) 0 xs
      (λ j l. ap (placed xs rest) (omega arith) ∙ get_or-default xs j (rest j) 0 l)

at_or_before : (i p : ℕ) → i ≤ p → (i ≡ p) ⊎ (i + 1 ≤ p)
at_or_before i p l = ground arith

other_marker : (a b : ℕ) → a ≢ b → (a == b) ≡ false
other_marker a b n = ground (arith, n)

-- The table is seen if it comes before the start of the scan, and early enough.
is_huffman_from-found :
    (buf : Array ℕ) (p i n : ℕ)
    → i ≤ p
    → p < i + n
    → ((j : ℕ) → j < p → marker buf j ≢ 65498)
    → marker buf p ≡ 65476
    → is_huffman_from buf i n ≡ true
unfolding is_huffman_from
is_huffman_from-found buf p i zero l h none_before e = absurd (omega (arith, l, h))
is_huffman_from-found buf p i (suc n) l h none_before e = elim (at_or_before i p l) [
  | inl here ↦
      ap
        (λ m.
          if m == 65498 then false else if m == 65476 then true else is_huffman_from buf (i + 1) n)
        (ap (marker buf) here ∙ e)
  | inr before ↦
      let later = is_huffman_from-found buf p (i + 1) n before (omega (arith, h)) none_before e in
      elim (Bool-cases (marker buf i == 65476)) [
        | inl t ↦
            rw (other_marker (marker buf i) 65498 (none_before i (omega (arith, before))), t) refl
        | inr f ↦
            rw (other_marker (marker buf i) 65498 (none_before i (omega (arith, before))), f) later
      ]
]

-- The start of the frame is where it is found.
frame_start_from-some :
    (buf : Array ℕ) (i n p : ℕ)
    → frame_start_from buf i n ≡ some p
    → (marker buf p ≡ 65472) × (i ≤ p) × (p < i + n)
unfolding frame_start_from
frame_start_from-some buf i zero p e = absurd (cc e)
frame_start_from-some buf i (suc n) p e = elim (Bool-cases (marker buf i == 65472)) [
  | inl t ↦
      let same : i ≡ p =
        cc (sym (ap (λ b. if b then some i else frame_start_from buf (i + 1) n) t) ∙ e) in
      (
        ap (marker buf) (sym same) ∙ (==_iff (marker buf i) 65472).0 t,
        omega (arith, same),
        omega (arith, same),
      )
  | inr f ↦
      let (m, l, h) =
        frame_start_from-some buf (i + 1) n p
          (sym (ap (λ b. if b then some i else frame_start_from buf (i + 1) n) f) ∙ e) in
      (m, omega (arith, l), omega (arith, h))
]

first_byte : (a b : ℕ) → b < 256 → a * 256 + b ≡ 65472 → a ≡ 255
first_byte a b l e = omega (arith, l, e)

table_start :
    (d : ℕ) → (get_or dht_data 0 d ≡ 255) × (get_or dht_data 1 d ≡ 196) × (length dht_data ≡ 420)
unfolding dht_data
table_start d = (refl, refl, refl)

-- The new picture before its table is the old one.
module _ (buf rest : Array ℕ) (size p : ℕ) where
  abbrev out : List ℕ
  out = with_table buf size (some p)

  out-old : (j : ℕ) → j < p → placed out rest j ≡ buf j
  unfolding with_table
  out-old j l =
      get_or-first (slice buf 0 p) (dht_data ++ slice buf p (size - p)) j (rest j)
        (omega (arith, l, length-slice buf 0 p))
      ∙ get_or-slice buf 0 p j (rest j) l
      ∙ ap buf (omega arith)

  out-table : (j : ℕ) → j < 420 → placed out rest (p + j) ≡ get_or dht_data j (rest (p + j))
  unfolding with_table
  out-table j l =
      get_or-second (slice buf 0 p) (dht_data ++ slice buf p (size - p)) j (p + j) (rest (p + j))
        (omega (arith, length-slice buf 0 p))
      ∙ get_or-first dht_data (slice buf p (size - p)) j (rest (p + j))
          (let (a, b, c) = table_start 0 in omega (arith, l, c))

  out-at : (j k : ℕ) → k ≡ j + 1 → k < p → placed out rest (j + 1) ≡ buf (j + 1)
  out-at j k e l = out-old (j + 1) (omega (arith, e, l))

  -- Its markers before the table are those of the old one, since both the table and the start of the frame
  -- begin with 0xff.
  out-marker :
      (j : ℕ)
      → ((i : ℕ) → buf i < 256)
      → marker buf p ≡ 65472
      → j < p
      → marker (placed out rest) j ≡ marker buf j
  out-marker j bytes e l = elim (at_or_before (j + 1) p (omega (arith, l))) [
    | inl here ↦
        let new : placed out rest (j + 1) ≡ 255 =
          ap (placed out rest) (here ∙ sym_plus p)
          ∙ out-table 0 (omega arith)
          ∙ (table_start (rest (p + 0))).0 in
        let old : buf (j + 1) ≡ 255 =
          ap buf here ∙ first_byte (buf p) (buf (p + 1)) (bytes (p + 1)) e in
        omega (arith, out-old j l, new, old)
    | inr before ↦ omega (arith, out-old j l, out-old (j + 1) (omega (arith, before)))
  ]
    where
      sym_plus : (n : ℕ) → n ≡ n + 0
      sym_plus n = omega arith

  out-is_huffman :
      ((i : ℕ) → buf i < 256)
      → marker buf p ≡ 65472
      → ((j : ℕ) → j < p → marker buf j ≢ 65498)
      → p ≤ 2048
      → is_huffman (placed out rest) ≡ true
  unfolding is_huffman
  out-is_huffman bytes e none_before lp =
      let first : placed out rest p ≡ 255 =
        ap (placed out rest) (plus_none p)
        ∙ out-table 0 (omega arith)
        ∙ (table_start (rest (p + 0))).0 in
      let second : placed out rest (p + 1) ≡ 196 =
        out-table 1 (omega arith) ∙ (table_start (rest (p + 1))).1 in
      is_huffman_from-found (placed out rest) p 0 2049 (omega arith) (omega (arith, lp))
        (λ j l n. none_before j l (sym (out-marker j bytes e l) ∙ n)) (omega (arith, first, second))
    where
      plus_none : (n : ℕ) → n ≡ n + 0
      plus_none n = omega arith

without_table :
    (buf : Array ℕ) (size p : ℕ)
    → is_huffman buf ≡ false
    → frame_start_from buf 0 size ≡ some p
    → memcpy_picture buf size ≡ with_table buf size (some p)
unfolding memcpy_picture
without_table buf size p none_seen e = rw (none_seen, e) refl

with_its_table :
    (buf : Array ℕ) (size : ℕ) → is_huffman buf ≡ true → memcpy_picture buf size ≡ slice buf 0 size
unfolding memcpy_picture
with_its_table buf size seen = rw (seen) refl

-- A picture without a table, which starts its frame at most 2048 bytes in and no scan before that, is made
-- 420 bytes longer, and when the result is given to memcpy_picture again, whatever memory is behind
-- it, it is copied as it is.
pub memcpy_picture-idempotent :
    (buf rest : Array ℕ) (size p : ℕ)
    → ((i : ℕ) → buf i < 256)
    → is_huffman buf ≡ false
    → frame_start_from buf 0 size ≡ some p
    → ((j : ℕ) → j < p → marker buf j ≢ 65498)
    → p ≤ 2048
    → (length (memcpy_picture buf size) ≡ size + 420)
      × (memcpy_picture (placed (memcpy_picture buf size) rest) (length (memcpy_picture buf size))
          ≡ memcpy_picture buf size)
unfolding with_table
memcpy_picture-idempotent buf rest size p bytes none_seen e none_before lp =
    let (m, l, h) = frame_start_from-some buf 0 size p e in
    let same = without_table buf size p none_seen e in
    let new = with_table buf size (some p) in
    let (a, b, c) = table_start 0 in
    let long : length new ≡ size + 420 = omega (
      arith,
      h,
      c,
      length-append (slice buf 0 p) (dht_data ++ slice buf p (size - p)),
      length-append dht_data (slice buf p (size - p)),
      length-slice buf 0 p,
      length-slice buf p (size - p),
    ) in
    (
      ap length same ∙ long,
      ap (λ xs. memcpy_picture (placed xs rest) (length xs)) same
          ∙ with_its_table (placed new rest) (length new)
              (out-is_huffman buf rest size p bytes m none_before lp)
          ∙ slice-placed new rest
          ∙ sym same,
    )
