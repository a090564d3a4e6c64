-- ===== src/Http/Command.antt =====
-- command of plugins/output_http/httpd.c: the request that is passed on to a plugin. An allocation
-- succeeds. strtol is followed by the limits of an int, which are also those of a long of 32 bits.
pub mod Bounds
use jpl_vision.Common.{
  ℕ, ◌+◌, ◌-◌, ◌*◌, ◌^◌, Bool, true, false, ◌&&◌, ◌||◌, Option, none, some, List, [], ◌∷◌, ◌++◌,
  length, ltb, leb, ◌==◌, min, if◌then◌else◌, codes,
}
use jpl_vision.Common.Int.{ℤ, pos, negsuc, sub_ℕ, ltb_ℤ}
use jpl_vision.Http.Line.{drop}
use jpl_vision.Http.Request.{strstr, span, letters}
use jpl_vision.Http.Stream.{std_header}

-- The value of the digits at the start, after a value so far.
unfoldable pub digits_value : List ℕ → ℕ → ℕ
digits_value [] v = v
digits_value (c ∷ cs) v =
    let more = digits_value cs (v * 10 + (c - 48)) in if leb 48 c && leb c 57 then more else v

abbrev pub int_max : ℕ
int_max = 2 ^ 31 - 1

-- MAX(MIN(strtol(s, NULL, 10), INT_MAX), INT_MIN) for a string of digits and `-`.
unfoldable pub strtol_int : List ℕ → ℤ
unfolding digits_value
strtol_int [] = pos 0
strtol_int (c ∷ cs) =
    if c == 45
    then sub_ℕ 0 (min (digits_value cs 0) (2 ^ 31))
    else pos (min (digits_value (c ∷ cs) 0) int_max)

abbrev pub number_characters : List ℕ
number_characters = codes "-1234567890"

-- The number behind the text, if the text is there.
unfoldable pub field_of : List ℕ → Option (List ℕ) → Option ℤ
unfolding strtol_int span
field_of text none = none
field_of text (some found) = some (strtol_int (span number_characters (drop (length text) found)))

abbrev pub or_else {ℓ} : {A : Type ℓ} → Option A → A → A
or_else none d = d
or_else (some a) d = a

-- The text behind "plugin=", which is passed on as the value's string; without it, NULL.
value_string : Option (List ℕ) → Option (List ℕ)
value_string none = none
value_string (some found) = some (drop 7 found)

-- What command does: the call of the cmd of a plugin, and the answer.
pub record PluginCall : Type 0 where
  pub is_output : Bool
  pub plugin_no : ℤ
  pub command_id : ℤ
  pub group : ℤ
  pub ivalue : ℤ
  pub value : Option (List ℕ)

pub data Action : Type 0 where
  send_error : ℕ → List ℕ → Action
  plugin_cmd : PluginCall → Action
  respond : List ℕ → ℤ → Action

-- The counts of the plugins, and what the cmd of a plugin returns.
pub record Plugins : Type 0 where
  pub incnt : ℕ
  pub outcnt : ℕ
  pub result : PluginCall → ℤ

-- The plugin is called if its number is below the count, otherwise the result is 0.
unfoldable pub call_below : Plugins → ℕ → PluginCall → List ℕ → List Action
call_below p count call name =
    if ltb_ℤ call.plugin_no (pos count)
    then plugin_cmd call ∷ respond name (p.result call) ∷ []
    else respond name (pos 0) ∷ []

-- The switch on the destination: 0 is an input plugin, 1 an output plugin, others are answered only.
unfoldable pub call_for : Plugins → ℤ → PluginCall → List ℕ → List Action
unfolding call_below
call_for p (pos d) call name =
    if d == 0
    then call_below p p.incnt (record call { is_output = false }) name
    else if d == 1
    then call_below p p.outcnt (record call { is_output = true }) name
    else respond name (pos 0) ∷ []
call_for p (negsuc d) call name = respond name (pos 0) ∷ []

-- The numbers behind the names, with their defaults.
unfoldable pub number_behind_name : List ℕ → List ℕ → ℤ
unfolding field_of strstr
number_behind_name text parameter = or_else (field_of text (strstr text parameter)) (pos 0)

-- With the id found.
unfoldable pub command_with : Plugins → List ℕ → Option (List ℕ) → List Action
unfolding number_behind_name call_for value_string span strtol_int strstr
command_with p parameter none =
    send_error 400 (
      codes
        "no GET variable \"id=...\" found, it is required to specify which command id to execute")
    ∷ []
command_with p parameter (some found) =
    let name = span (letters ++ codes "_1234567890") (drop 3 found) in
    call_for p (number_behind_name (codes "dest=") parameter)
      (record {
        is_output = false;
        plugin_no = number_behind_name (codes "plugin=") parameter;
        command_id = strtol_int (span number_characters name);
        group = number_behind_name (codes "group=") parameter;
        ivalue = number_behind_name (codes "value=") parameter;
        value = value_string (strstr (codes "plugin=") parameter);
      })
      name

unfoldable pub command : Plugins → List ℕ → List Action
unfolding command_with strstr
command p parameter =
    if leb 255 (length parameter) || leb (length parameter) 0
    then send_error 400 (codes "Parameter-string of command does not look valid.") ∷ []
    else command_with p parameter (strstr (codes "id=") parameter)
