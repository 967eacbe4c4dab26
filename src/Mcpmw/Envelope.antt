-- ===== src/Mcpmw/Envelope.antt =====
-- mcpmw/envelope.go. What a handler does to a `http.ResponseWriter`, and what reaches the writer
-- under the middleware, are lists of calls; an assignment to the header is a call as well. The
-- writer can flush. A body is a text, and the JSON of the request and of the answer are parameters.
pub mod Writer
pub mod Laws
pub mod Errors
use Prim.Native.String
use mcp_kit.Prelude.{
  ℕ, String, Bool, true, false, not, ◌&&◌, ◌||◌, Option, none, some, List, [], ◌∷◌, ◌++◌, ltb,
  nat_eq, ◌==◌, if◌then◌else◌,
}
use mcp_kit.Prelude.Int.{ℤ, negsuc}
use mcp_kit.Text.{trim_space, has_prefix, has_part}

pub data Call : Type 0 where
  set_header : String → List String → Call
  del_header : String → Call
  write_header : ℕ → Call
  write : String → Call
  flush : Call

-- `http.Header`: keys with their values.
abbrev pub Header : Type 0
Header = List (String × List String)

unfoldable pub del : String → Header → Header
del key [] = []
del key ((k, vs) ∷ h) = let rest = del key h in if k == key then rest else (k, vs) ∷ rest

unfoldable pub put : String → List String → Header → Header
unfolding del
put key vs h = (key, vs) ∷ del key h

abbrev first : List String → String
first [] = ""
first (v ∷ vs) = v

-- `Header.Get`
unfoldable pub get : String → Header → String
get key [] = ""
get key ((k, vs) ∷ h) = let rest = get key h in if k == key then first vs else rest

-- `maps.Copy` into the header of the writer.
unfoldable pub copy : Header → List Call
copy [] = []
copy ((k, vs) ∷ h) = set_header k vs ∷ copy h

pub record BufferedResponseWriter : Type 0 where
  pub underlying : List Call
  pub header : Header
  pub status_code : ℕ
  pub body : String
  pub passthrough : Bool

abbrev pub new_writer : BufferedResponseWriter
new_writer = record {
  underlying = [];
  header = [];
  status_code = 0;
  body = "";
  passthrough = false;
}

abbrev pub pass : Call → BufferedResponseWriter → BufferedResponseWriter
pass call b = record b { underlying = b.underlying ++ call ∷ [] }

-- What the unexported `flush` sends.
abbrev pub flushed : BufferedResponseWriter → List Call
flushed b =
    copy b.header
    ++ (if nat_eq b.status_code 0 then [] else write_header b.status_code ∷ [])
    ++ (if b.body == "" then [] else write b.body ∷ [])

unfoldable pub flush_buffer : BufferedResponseWriter → BufferedResponseWriter
unfolding copy
flush_buffer b =
    if b.passthrough
    then b
    else (record b { underlying = b.underlying ++ flushed b; body = ""; passthrough = true })

-- The test of `WriteHeader` for a response that is not held back.
unfoldable pub streams : ℕ → Header → Bool
unfolding get has_prefix
streams status h = ltb status 400 || has_prefix (get "Content-Type" h) "text/event-stream"

unfoldable pub on_write_header : ℕ → BufferedResponseWriter → BufferedResponseWriter
unfolding flush_buffer streams
on_write_header n b =
    let b2 = record b { status_code = n } in
    if b.passthrough
    then pass (write_header n) b
    else if not (nat_eq b.status_code 0)
    then b
    else if streams n b.header
    then flush_buffer b2
    else b2

abbrev append_or_pass : String → BufferedResponseWriter → BufferedResponseWriter
append_or_pass p b =
    if b.passthrough then pass (write p) b else (record b { body = String.◌++◌ b.body p })

unfoldable pub on_write : String → BufferedResponseWriter → BufferedResponseWriter
unfolding on_write_header
on_write p b =
    if b.passthrough
    then pass (write p) b
    else append_or_pass p (if nat_eq b.status_code 0 then on_write_header 200 b else b)

-- A call of the handler. An assignment goes to the header that `Header` returns.
unfoldable pub on_call : Call → BufferedResponseWriter → BufferedResponseWriter
unfolding put del on_write_header on_write
on_call (set_header k vs) b =
    if b.passthrough then pass (set_header k vs) b else (record b { header = put k vs b.header })
on_call (del_header k) b =
    if b.passthrough then pass (del_header k) b else (record b { header = del k b.header })
on_call (write_header n) b = on_write_header n b
on_call (write p) b = on_write p b
on_call flush b = if b.passthrough then pass flush b else b

unfoldable pub on_calls : List Call → BufferedResponseWriter → BufferedResponseWriter
unfolding on_call
on_calls [] b = b
on_calls (call ∷ calls) b = on_calls calls (on_call call b)

unfoldable pub should_rewrite : BufferedResponseWriter → Bool
unfolding get has_prefix
should_rewrite b =
    not b.passthrough
    && nat_eq b.status_code 400
    && has_prefix (get "Content-Type" b.header) "text/plain"

pub record SdkError : Type 0 where
  pub code : ℤ
  pub message : String

abbrev pub code_parse_error : ℤ
code_parse_error = negsuc 32699

abbrev pub code_invalid_request : ℤ
code_invalid_request = negsuc 32599

abbrev pub code_method_not_found : ℤ
code_method_not_found = negsuc 32600

unfoldable pub map_sdk_error : String → Option SdkError
unfolding has_prefix has_part
map_sdk_error text =
    if has_prefix text "malformed payload:"
    then some (record { code = code_parse_error; message = "Parse error" })
    else if has_part text "JSON RPC not handled"
    then some (record { code = code_method_not_found; message = "Method not found" })
    else if has_part text "missing required"
        || has_part text "missing id"
        || has_part text "unexpected id"
    then some (record { code = code_invalid_request; message = "Invalid request" })
    else none

-- The JSON-RPC answer, before it is marshalled.
pub record Payload : Type 0 where
  pub id : String
  pub error : SdkError
  pub error_data : String

module _ (probe_id : String → Option String) (marshal : Payload → Option String) where
  abbrev or_null : Option String → String
  or_null none = "null"
  or_null (some id) = if id == "" then "null" else id

  unfoldable pub extract_id : String → String
  extract_id body = or_null (probe_id body)

  abbrev pub rewritten : String → List Call
  rewritten payload =
      del_header "Content-Type"
      ∷ del_header "Content-Length"
      ∷ del_header "X-Content-Type-Options"
      ∷ set_header "Content-Type" ("application/json" ∷ [])
      ∷ write_header 200
      ∷ write payload
      ∷ []

  abbrev marshalled : BufferedResponseWriter → Option String → List Call
  marshalled b none = (flush_buffer b).underlying
  marshalled b (some payload) = b.underlying ++ rewritten payload

  abbrev mapped : String → BufferedResponseWriter → Option SdkError → List Call
  mapped body b none = (flush_buffer b).underlying
  mapped body b (some e) =
      marshalled b
        (marshal (record { id = extract_id body; error = e; error_data = trim_space b.body }))

  unfoldable pub finish : String → BufferedResponseWriter → List Call
  unfolding should_rewrite map_sdk_error trim_space flush_buffer extract_id
  finish body b =
      if not (should_rewrite b)
      then (flush_buffer b).underlying
      else mapped body b (map_sdk_error (trim_space b.body))

  abbrev with_body : List Call → Option String → List Call
  with_body calls none = calls
  with_body calls (some body) = finish body (on_calls calls new_writer)

  -- `envelope`, with the calls that the next handler makes; `none` is a body that cannot be read.
  unfoldable pub envelope : String → Option String → List Call → List Call
  unfolding on_calls finish
  envelope method body calls = if not (method == "POST") then calls else with_body calls body
