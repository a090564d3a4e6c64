-- ===== src/Http/RequestTests.antt =====
-- Requests: lines in pieces, an escaped parameter, the request of the client of input_http, and commands.
use jpl_vision.Common.{
  ℕ, ◌≡◌, refl, ◌⊎◌, true, false, none, some, List, [], ◌∷◌, ◌++◌, arith, codes,
}
use jpl_vision.Common.Int.{pos, negsuc}
use jpl_vision.Http.{decode_base64}
use jpl_vision.Http.Line.{Arrival, arrived, timed_out, readline, drop}
use jpl_vision.Http.Line.FirstLine.{coming, first_line, outcome, readline-first_line}
use jpl_vision.Http.Escape.{unescape, percent_encode, unescape-percent_encode}
use jpl_vision.Http.Request.Answer.{HttpServer, send_stream, client_thread}
use jpl_vision.Http.Request.Answer.Safe.{AllOf, Allowed, client_thread-Allowed}
use jpl_vision.Http.Request.Answer.Granted.{IsError, AnyOf, Presents, client_thread-Presents}
use jpl_vision.Http.Command.{Plugins, PluginCall, plugin_cmd, respond, command}
use jpl_vision.Http.Command.Bounds.{InBounds, command-InBounds}

abbrev pieces : List Arrival
pieces = arrived 71 (codes "ET /") ∷ arrived 13 [] ∷ arrived 10 (codes "Host") ∷ timed_out ∷ []

readline-first_line_example :
    outcome (readline 1023 pieces []) ≡ first_line 1023 ([] ++ coming pieces)
readline-first_line_example = readline-first_line 1023 pieces []

abbrev spaced : List ℕ
spaced = codes "a b%/" ++ 195 ∷ 164 ∷ []

unescape-percent_encode_example : unescape (percent_encode spaced) ≡ some spaced
unescape-percent_encode_example = unescape-percent_encode spaced (
  omega arith,
  (omega arith, (omega arith, (omega arith, (omega arith, (omega arith, (omega arith, tt)))))),
)

abbrev server : HttpServer
server = record {
  credentials = some (codes "user:pw");
  has_www_folder = true;
  nocommands = false;
  incnt = 1;
  output_names = some (codes "HTTP output plugin") ∷ none ∷ [];
  output_result = λ i filename. pos 0;
}

-- What the client of input_http sends, and the same with the credentials.
abbrev bare_request : List (List ℕ)
bare_request = codes "GET /?action=stream HTTP/1.0\r\n" ∷ codes "\r\n" ∷ []

abbrev full_request : List (List ℕ)
full_request =
    codes "GET /?action=stream HTTP/1.0\r\n"
    ∷ codes "Authorization: Basic dXNlcjpwdw==\r\n"
    ∷ codes "\r\n"
    ∷ []

stream_answer : client_thread server full_request ≡ send_stream 0 ∷ []
unfolding client_thread decode_base64 drop
stream_answer = refl

client_thread-Allowed_example : AllOf (Allowed server) (client_thread server full_request)
client_thread-Allowed_example = client_thread-Allowed server full_request

client_thread-Presents_example :
    AllOf IsError (client_thread server bare_request)
    ⊎ AnyOf (Presents (codes "user:pw")) bare_request
client_thread-Presents_example = client_thread-Presents server (codes "user:pw") bare_request refl

abbrev plugins : Plugins
plugins = record { incnt = 1; outcnt = 2; result = λ call. pos 0 }

command-InBounds_example :
    AllOf
      (InBounds plugins (codes "&dest=0&plugin=0&id=9963776&group=1&value=60"))
      (command plugins (codes "&dest=0&plugin=0&id=9963776&group=1&value=60"))
command-InBounds_example =
    command-InBounds plugins (codes "&dest=0&plugin=0&id=9963776&group=1&value=60")

abbrev minus_one : PluginCall
minus_one = record {
  is_output = false;
  plugin_no = negsuc 0;
  command_id = pos 7;
  group = pos 0;
  ivalue = pos 0;
  value = some (codes "-1&id=7");
}

-- The number -1 reaches the entry before the first input plugin.
negative_plugin :
    command plugins (codes "&plugin=-1&id=7")
    ≡ plugin_cmd minus_one ∷ respond (codes "7") (pos 0) ∷ []
unfolding command drop
negative_plugin = refl
