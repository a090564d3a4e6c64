-- ===== src/Proxy/Header.antt =====
-- The headers that extract_data skips: what it takes for their end, in terms of the bits of the last
-- four bytes.
use jpl_vision.Common.{
  ℕ, ◌+◌, ◌*◌, ◌/◌, ◌%◌, ◌^◌, ◌≤◌, ◌<◌, ◌≡◌, refl, ap, sym, ◌∙◌, inl, inr, Bool, true, false, ◌&&◌,
  some, List, [], ◌∷◌, length, ◌==◌, if◌then◌else◌, Bool-cases, arith,
}
use jpl_vision.Proxy.Search.{
  pattern_at, next, AllNonzero, search_pattern_compare-next, next-bound, search_pattern_matches_iff,
}
use jpl_vision.Proxy.{
  bit, is_crlf, is_crlfcrlf, push_byte, content_length_text, boundary_text, header, content,
  ExtractorState, Received, extract_header, extract_byte, extract_data,
}

-- The bytes as the loop reads them while nothing stops it.
abbrev pub read_all : List ℕ → List (Bool × ℕ)
read_all [] = []
read_all (c ∷ cs) = (false, c) ∷ read_all cs

extract_byte-header :
    (s s' : ExtractorState) (c : ℕ)
    → extract_header s c ≡ some s'
    → extract_byte header s c ≡ some (s', [])
unfolding extract_byte
extract_byte-header s s' c e = rw (e) refl

-- One step of the loop.
pub extract_data-header :
    (s s' t : ExtractorState) (c : ℕ) (cs : List ℕ) (images : List Received)
    → s.part ≡ header
    → extract_header s c ≡ some s'
    → extract_data s' (read_all cs) ≡ some (t, images)
    → extract_data s (read_all (c ∷ cs)) ≡ some (t, images)
unfolding extract_data
extract_data-header s s' t c cs images p e r =
    rw (ap (λ q. extract_byte q s c) p ∙ extract_byte-header s s' c e, r) refl

-- The bits of the mask in each of the two bytes.
abbrev pub looks_cr : ℕ → Bool
looks_cr c = c % 2 == 1 && c / 4 % 2 == 1 && c / 8 % 2 == 1

abbrev pub looks_lf : ℕ → Bool
looks_lf c = c / 2 % 2 == 1 && c / 8 % 2 == 1

abbrev pub word : ℕ → ℕ → ℕ → ℕ → ℕ
word a b c d = a * 2 ^ 24 + b * 2 ^ 16 + c * 2 ^ 8 + d

abbrev pub Byte : ℕ → Type 0
Byte c = c < 256

and_split : (p q r s t : Bool) → (p && q && r && s && t) ≡ ((p && q) && (r && s && t))
and_split true true true s t = refl
and_split true true false s t = refl
and_split true false r s t = refl
and_split false q r s t = refl

push_byte-word :
    (a b c d e : ℕ)
    → Byte a
    → Byte b
    → Byte c
    → Byte d
    → Byte e
    → push_byte (word a b c d) e ≡ word b c d e
unfolding push_byte
push_byte-word a b c d e la lb lc ld le = omega arith

is_crlf-word :
    (a b c d : ℕ)
    → Byte a
    → Byte b
    → Byte c
    → Byte d
    → is_crlf (word a b c d) ≡ (looks_lf d && looks_cr c)
unfolding is_crlf bit
is_crlf-word a b c d la lb lc ld =
    let e1 : word a b c d / 2 ^ 1 % 2 ≡ d / 2 % 2 = omega arith in
    let e3 : word a b c d / 2 ^ 3 % 2 ≡ d / 8 % 2 = omega arith in
    let e8 : word a b c d / 2 ^ 8 % 2 ≡ c % 2 = omega arith in
    let e10 : word a b c d / 2 ^ 10 % 2 ≡ c / 4 % 2 = omega arith in
    let e11 : word a b c d / 2 ^ 11 % 2 ≡ c / 8 % 2 = omega arith in
    rw (e1, e3, e8, e10, e11)
      (and_split (d / 2 % 2 == 1) (d / 8 % 2 == 1) (c % 2 == 1) (c / 4 % 2 == 1) (c / 8 % 2 == 1))

is_crlfcrlf-word :
    (a b c d : ℕ)
    → Byte a
    → Byte b
    → Byte c
    → Byte d
    → is_crlfcrlf (word a b c d) ≡ ((looks_lf d && looks_cr c) && (looks_lf b && looks_cr a))
unfolding is_crlfcrlf
is_crlfcrlf-word a b c d la lb lc ld =
    let high : word a b c d / 2 ^ 16 ≡ word 0 0 a b = omega arith in
    let zero_byte : Byte 0 = omega arith in
    rw (high, is_crlf-word a b c d la lb lc ld, is_crlf-word 0 0 a b zero_byte zero_byte la lb) refl

-- The states while a header is read, and behind it. The pattern of Content-Length is never past its NUL.
abbrev pub header_state : ℕ → ℕ → ExtractorState
header_state last m = record {
  buffer = [];
  part = header;
  last_four_bytes = last;
  contentlength = pattern_at content_length_text m;
  boundary = pattern_at boundary_text 0;
}

abbrev pub content_state : List ℕ → ℕ → ℕ → ℕ → ExtractorState
content_state buffer k last m = record {
  buffer = buffer;
  part = content;
  last_four_bytes = last;
  contentlength = pattern_at content_length_text m;
  boundary = pattern_at boundary_text k;
}

abbrev name_end : ℕ
name_end = length content_length_text

name-AllNonzero : AllNonzero content_length_text
name-AllNonzero = ground arith

-- A byte after which the header goes on.
header_byte :
    (last m c : ℕ)
    → 0 < c
    → m ≤ name_end
    → is_crlfcrlf (push_byte last c) ≡ false
    → (m' : ℕ) × (m' ≤ name_end)
      × (extract_header (header_state last m) c ≡ some (header_state (push_byte last c) m'))
unfolding extract_header
header_byte last m c pc h e = elim (Bool-cases (is_crlf (push_byte last c))) [
  | inl f ↦ (0, omega arith, rw (e, f) refl)
  | inr f ↦ (
    next content_length_text m c,
    next-bound content_length_text m c pc h,
    rw
        (
          e,
          f,
          search_pattern_compare-next content_length_text m c h,
          search_pattern_matches_iff content_length_text (next content_length_text m c)
              name-AllNonzero (next-bound content_length_text m c pc h),
        )
        refl,
  )
]

-- The byte that ends it.
header_end :
    (last m c : ℕ)
    → is_crlfcrlf (push_byte last c) ≡ true
    → extract_header (header_state last m) c ≡ some (content_state [] 0 (push_byte last c) m)
unfolding extract_header
header_end last m c e = rw (e) refl

abbrev pub AllText : List ℕ → Type 0
AllText [] = Unit {0}
AllText (c ∷ cs) = ((0 < c) × Byte c) × AllText cs

abbrev is_nil : List ℕ → Bool
is_nil [] = true
is_nil (c ∷ cs) = false

-- Whether the end of a header is seen at the last of the bytes and not before, where the arguments say
-- of the three bytes before them what they look like.
abbrev pub ends_header : Bool → Bool → Bool → Bool → Bool → List ℕ → Bool
ends_header cr2 lf3 cr3 lf4 cr4 [] = false
ends_header cr2 lf3 cr3 lf4 cr4 (c ∷ cs) =
    if (looks_lf c && cr4) && (lf3 && cr2)
    then is_nil cs
    else ends_header cr3 lf4 cr4 (looks_lf c) (looks_cr c) cs

nil_of : (cs : List ℕ) → is_nil cs ≡ true → cs ≡ []
nil_of [] h = refl
nil_of (c ∷ cs) h = absurd (cc h)

-- After the bytes, the content begins.
abbrev pub Ended : ℕ → ℕ → ℕ → ℕ → ℕ → List ℕ → Type 0
Ended w x y z m cs =
    (last : ℕ) × (m' : ℕ) × (extract_data (header_state (word w x y z) m) (read_all cs)
      ≡ some (content_state [] 0 last m', []))

pub header_run :
    (w x y z m : ℕ) (cs : List ℕ)
    → Byte w
    → Byte x
    → Byte y
    → Byte z
    → m ≤ name_end
    → AllText cs
    → ends_header (looks_cr x) (looks_lf y) (looks_cr y) (looks_lf z) (looks_cr z) cs ≡ true
    → Ended w x y z m cs
unfolding extract_data
header_run w x y z m [] lw lx ly lz h a e = absurd (cc e)
header_run w x y z m (c ∷ cs) lw lx ly lz h a e =
    let seen =
      ap is_crlfcrlf (push_byte-word w x y z c lw lx ly lz a.0.1)
      ∙ is_crlfcrlf-word x y z c lx ly lz a.0.1 in
    let decide : Bool → Bool = λ b.
      if b
      then is_nil cs
      else ends_header (looks_cr y) (looks_lf z) (looks_cr z) (looks_lf c) (looks_cr c) cs in
    elim (Bool-cases ((looks_lf c && looks_cr z) && (looks_lf y && looks_cr x)))
      as (λ v. Ended w x y z m (c ∷ cs)) [
        | inl t ↦ (
          push_byte (word w x y z) c,
          m,
          rw (nil_of cs (sym (ap decide t) ∙ e)) (
              extract_data-header (header_state (word w x y z) m)
                (content_state [] 0 (push_byte (word w x y z) c) m)
                (content_state [] 0 (push_byte (word w x y z) c) m) c [] [] refl
                (header_end (word w x y z) m c (seen ∙ t)) refl),
        )
        | inr f ↦
            let (m', h', s) = header_byte (word w x y z) m c a.0.0 h (seen ∙ f) in
            let (last, m'', r) =
              header_run x y z c m' cs lx ly lz a.0.1 h' a.1 (sym (ap decide f) ∙ e) in
            (
              last,
              m'',
              extract_data-header (header_state (word w x y z) m) (header_state (word x y z c) m')
                  (content_state [] 0 last m'') c cs [] refl
                  (s
                    ∙ ap (λ u. some (header_state u m'))
                        (push_byte-word w x y z c lw lx ly lz a.0.1))
                  r,
            )
      ]
