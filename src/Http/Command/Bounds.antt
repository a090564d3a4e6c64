-- ===== src/Http/Command/Bounds.antt =====
-- Which plugins a command reaches.
use jpl_vision.Common.{
  ℕ, zero, suc, ◌-◌, ◌^◌, ◌≤◌, ◌<◌, ◌≡◌, refl, ap, subst, sym, ◌∙◌, inl, inr, ◌⊎◌, Bool, true,
  false, ◌||◌, Option, none, some, List, [], ◌∷◌, ◌++◌, length, leb, ◌==◌, min, if◌then◌else◌,
  codes, Bool-cases, arith, ==_iff, if_both, if_cases,
}
use jpl_vision.Common.Int.{ℤ, pos, negsuc, sub_ℕ, ltb_ℤ}
use jpl_vision.Http.Line.{drop}
use jpl_vision.Http.Request.{strstr, starts_with, span, member, letters}
use jpl_vision.Http.Request.Answer.Safe.{AllOf}
use jpl_vision.Http.Command.{
  digits_value, strtol_int, number_characters, field_of, or_else, PluginCall, Action, send_error,
  plugin_cmd, respond, Plugins, call_below, call_for, number_behind_name, command_with, command,
}

-- Whether there is a `-` among the characters.
abbrev pub HasDash : List ℕ → Type 0
HasDash [] = ⊥
HasDash (c ∷ cs) = (c ≡ 45) ⊎ HasDash cs

HasDash-kept :
    (c : ℕ) (b : Bool) (rest cs : List ℕ)
    → (HasDash rest → HasDash cs)
    → HasDash (if b then c ∷ rest else [])
    → HasDash (c ∷ cs)
HasDash-kept c true rest cs f (inl e) = inl e
HasDash-kept c true rest cs f (inr d) = inr (f d)
HasDash-kept c false rest cs f d = absurd d

HasDash-span : (accept cs : List ℕ) → HasDash (span accept cs) → HasDash cs
unfolding span
HasDash-span accept [] h = h
HasDash-span accept (c ∷ cs) h =
    HasDash-kept c (member c accept) (span accept cs) cs (λ d. HasDash-span accept cs d) h

HasDash-drop : (n : ℕ) (cs : List ℕ) → HasDash (drop n cs) → HasDash cs
unfolding drop
HasDash-drop zero cs h = h
HasDash-drop (suc n) [] h = h
HasDash-drop (suc n) (c ∷ cs) h = inr (HasDash-drop n cs h)

-- What strstr finds is the end of the string.
HasDash-strstr : (text cs found : List ℕ) → strstr text cs ≡ some found → HasDash found → HasDash cs
unfolding strstr
HasDash-strstr text [] found e h = found_in_nil (starts_with text []) e h
  where
    found_in_nil : (b : Bool) → (if b then some [] else none) ≡ some found → HasDash found → ⊥
    found_in_nil true e h = let same : found ≡ [] = cc e in subst HasDash same h
    found_in_nil false e h = absurd (cc e)
HasDash-strstr text (c ∷ cs) found e h = elim (Bool-cases (starts_with text (c ∷ cs))) [
  | inl t ↦
      let same : found ≡ c ∷ cs =
        cc (sym e ∙ ap (λ b. if b then some (c ∷ cs) else strstr text cs) t) in
      subst HasDash same h
  | inr f ↦ inr (
      HasDash-strstr text cs found
        (sym (ap (λ b. if b then some (c ∷ cs) else strstr text cs) f) ∙ e) h)
]

-- An int of 32 bits that is not negative, or else there is a `-` in the characters.
abbrev pub FromDigits : List ℕ → ℤ → Type 0
FromDigits parameter (pos n) = n < 2 ^ 31
FromDigits parameter (negsuc n) = (n < 2 ^ 31) × HasDash parameter

sub_ℕ-FromDigits :
    (parameter : List ℕ) (m : ℕ) → m ≤ 2 ^ 31 → HasDash parameter → FromDigits parameter (sub_ℕ 0 m)
sub_ℕ-FromDigits parameter m l d =
    if_cases (FromDigits parameter) (leb m 0) (pos (0 - m)) (negsuc (m - 0 - 1)) (λ t. omega arith)
      (λ f. (ground arith, d))

strtol_int-FromDigits : (cs : List ℕ) → FromDigits cs (strtol_int cs)
unfolding strtol_int
strtol_int-FromDigits [] = omega arith
strtol_int-FromDigits (c ∷ cs) =
    if_cases (FromDigits (c ∷ cs)) (c == 45) _ _
      (λ t.
        sub_ℕ-FromDigits (c ∷ cs) (min (digits_value cs 0) (2 ^ 31)) (omega arith)
          (inl ((==_iff c 45).0 t)))
      (λ f. omega arith)

FromDigits-of :
    (cs parameter : List ℕ) (z : ℤ)
    → (HasDash cs → HasDash parameter)
    → FromDigits cs z
    → FromDigits parameter z
FromDigits-of cs parameter (pos n) h f = f
FromDigits-of cs parameter (negsuc n) h f = (f.0, h f.1)

field_of-FromDigits :
    (text parameter : List ℕ) (found : Option (List ℕ))
    → strstr text parameter ≡ found
    → FromDigits parameter (or_else (field_of text found) (pos 0))
unfolding field_of
field_of-FromDigits text parameter none e = omega arith
field_of-FromDigits text parameter (some found) e =
    FromDigits-of (span number_characters (drop (length text) found)) parameter _
      (λ d. HasDash-strstr text parameter found e (
        HasDash-drop (length text) found
          (HasDash-span number_characters (drop (length text) found) d)))
      (strtol_int-FromDigits (span number_characters (drop (length text) found)))

number_behind_name-FromDigits :
    (text parameter : List ℕ) → FromDigits parameter (number_behind_name text parameter)
unfolding number_behind_name
number_behind_name-FromDigits text parameter =
    field_of-FromDigits text parameter (strstr text parameter) refl

-- The number of a plugin that there is, unless it is negative.
abbrev pub Below : List ℕ → ℕ → ℤ → Type 0
Below parameter count (pos n) = n < count
Below parameter count (negsuc n) = HasDash parameter

-- The calls that a parameter may lead to.
abbrev pub InBounds : Plugins → List ℕ → Action → Type 0
InBounds p parameter (send_error which message) = Unit {0}
InBounds p parameter (plugin_cmd call) =
    Below parameter (if call.is_output then p.outcnt else p.incnt) call.plugin_no
    × FromDigits parameter call.command_id
    × FromDigits parameter call.group
    × FromDigits parameter call.ivalue
InBounds p parameter (respond name res) = Unit {0}

Below-count :
    (parameter : List ℕ) (count : ℕ) (z : ℤ)
    → FromDigits parameter z
    → ltb_ℤ z (pos count) ≡ true
    → Below parameter count z
Below-count parameter count (pos n) f h = ground arith
Below-count parameter count (negsuc n) f h = f.1

-- What there is to know of the numbers of a call.
abbrev Numbers : List ℕ → PluginCall → Type 0
Numbers parameter call =
    FromDigits parameter call.plugin_no
    × FromDigits parameter call.command_id
    × FromDigits parameter call.group
    × FromDigits parameter call.ivalue

call_below-InBounds :
    (p : Plugins) (parameter : List ℕ) (count : ℕ) (call : PluginCall) (name : List ℕ)
    → count ≡ (if call.is_output then p.outcnt else p.incnt)
    → Numbers parameter call
    → AllOf (InBounds p parameter) (call_below p count call name)
unfolding call_below
call_below-InBounds p parameter count call name e (f, i, g, v) =
    if_cases (AllOf (InBounds p parameter)) (ltb_ℤ call.plugin_no (pos count))
      (plugin_cmd call ∷ respond name (p.result call) ∷ []) (respond name (pos 0) ∷ [])
      (λ t. (
        (
          subst (λ n. Below parameter n call.plugin_no) e
              (Below-count parameter count call.plugin_no f t),
          i,
          g,
          v,
        ),
        (tt, tt),
      ))
      (λ u. (tt, tt))

call_for-InBounds :
    (p : Plugins) (parameter : List ℕ) (dest : ℤ) (call : PluginCall) (name : List ℕ)
    → Numbers parameter call
    → AllOf (InBounds p parameter) (call_for p dest call name)
unfolding call_for
call_for-InBounds p parameter (pos d) call name f =
    let P = AllOf (InBounds p parameter) in
    let output = record call { is_output = true } in
    let input = record call { is_output = false } in
    if_both P (d == 0) (call_below p p.incnt input name) _
      (call_below-InBounds p parameter p.incnt input name refl f)
      (if_both P (d == 1) (call_below p p.outcnt output name) (respond name (pos 0) ∷ [])
        (call_below-InBounds p parameter p.outcnt output name refl f) (tt, tt))
call_for-InBounds p parameter (negsuc d) call name f = (tt, tt)

command_with-InBounds :
    (p : Plugins) (parameter : List ℕ) (found : Option (List ℕ))
    → strstr (codes "id=") parameter ≡ found
    → AllOf (InBounds p parameter) (command_with p parameter found)
unfolding command_with
command_with-InBounds p parameter none e = (tt, tt)
command_with-InBounds p parameter (some found) e =
    let name = span (letters ++ codes "_1234567890") (drop 3 found) in
    let id_number =
      FromDigits-of (span number_characters name) parameter
        (strtol_int (span number_characters name))
        (λ d. HasDash-strstr (codes "id=") parameter found e (
          HasDash-drop 3 found (
            HasDash-span (letters ++ codes "_1234567890") (drop 3 found)
              (HasDash-span number_characters name d))))
        (strtol_int-FromDigits (span number_characters name)) in
    call_for-InBounds p parameter (number_behind_name (codes "dest=") parameter) _ name (
      number_behind_name-FromDigits (codes "plugin=") parameter,
      id_number,
      number_behind_name-FromDigits (codes "group=") parameter,
      number_behind_name-FromDigits (codes "value=") parameter,
    )

-- A command calls the cmd of an input or output plugin only with a number below the count of those
-- plugins, and it is not negative unless there is a `-` in the parameter; the id, the group and the value
-- that are passed on are ints of 32 bits, and not negative under the same condition.
pub command-InBounds :
    (p : Plugins) (parameter : List ℕ) → AllOf (InBounds p parameter) (command p parameter)
unfolding command
command-InBounds p parameter =
    if_both (AllOf (InBounds p parameter)) (leb 255 (length parameter) || leb (length parameter) 0)
      _ (command_with p parameter (strstr (codes "id=") parameter)) (tt, tt)
      (command_with-InBounds p parameter (strstr (codes "id=") parameter) refl)
