-- ===== src/Mcpmw/Tests.antt =====
-- Runs of the middleware, and the theorems at concrete inputs.
use Prim.Native.String
use mcp_kit.Prelude.{
  String, Bool, true, false, ◌≡◌, ◌↔◌, ◌⊎◌, inr, List, refl, arith, Option, none, some, [], ◌∷◌,
  ◌++◌, contains, ◌==◌, if◌then◌else◌,
}
use mcp_kit.Text.{has_prefix}
use mcp_kit.Mcpmw.Origin.{OriginConfig, served, forbidden, enforce}
use mcp_kit.Mcpmw.Origin.Laws.{IsLoopback, enforce-eq-served_iff}
use mcp_kit.Mcpmw.Envelope.{write_header, write, flush, put, del, get, Payload, rewritten, envelope}
use mcp_kit.Mcpmw.Envelope.Writer.{
  Heading, sets, deletes, flushes, headings, assigned, adds, pieces,
}
use mcp_kit.Mcpmw.Envelope.Laws.{Passes, envelope-streams}
use mcp_kit.Mcpmw.Envelope.Errors.{Answers, envelope_error}

abbrev local : String
local = "http://[::1]:8080"

abbrev hostname : String → Option String
hostname origin = if origin == local then some "[::1]" else none

abbrev parse_ip : String → Option Bool
parse_ip host = if host == "::1" then some true else none

abbrev in_dev : OriginConfig
in_dev = record {
  allowed = "https://app.example.com" ∷ [];
  allow_loopback = true;
  has_on_deny = false;
}

local_served : enforce hostname parse_ip in_dev local ≡ served
unfolding enforce
local_served = refl

other_forbidden : enforce hostname parse_ip in_dev "https://evil.example.com" ≡ forbidden 403
unfolding enforce
other_forbidden = refl

enforce-eq-served_iff_example : (enforce hostname parse_ip in_dev local ≡ served) ↔ (
    (local ≡ "")
    ⊎ ((contains in_dev.allowed local ≡ true)
        ⊎ ((in_dev.allow_loopback ≡ true) × IsLoopback hostname parse_ip local)))
enforce-eq-served_iff_example = enforce-eq-served_iff hostname parse_ip in_dev local

abbrev probe_id : String → Option String
probe_id body = some "7"

-- A stand-in for the JSON of an answer: its identifier and message.
abbrev marshal : Payload → Option String
marshal p = some (String.◌++◌ p.id p.error.message)

abbrev event_stream : List Heading
event_stream = sets "Content-Type" ("text/event-stream" ∷ []) ∷ flushes ∷ []

envelope-streams_example :
    Passes probe_id marshal "{}"
      (envelope probe_id marshal "POST"
        (some "{}")
        (headings event_stream ++ write_header 500 ∷ write "data: 1" ∷ flush ∷ []))
      (assigned event_stream [])
      500
      (write "data: 1" ∷ flush ∷ [])
    × Passes probe_id marshal "{}"
        (envelope probe_id marshal "POST"
          (some "{}")
          (headings event_stream ++ write "data: 0" ∷ write "data: 1" ∷ flush ∷ []))
        (assigned event_stream [])
        200
        (write "data: 0" ∷ write "data: 1" ∷ flush ∷ [])
unfolding put del get has_prefix
envelope-streams_example =
    envelope-streams probe_id marshal "{}" event_stream 500 "data: 0" (write "data: 1" ∷ flush ∷ [])
      (ground arith) (inr refl)

-- The calls of `http.Error`.
abbrev plain : List Heading
plain =
    deletes "Content-Length"
    ∷ sets "Content-Type" ("text/plain; charset=utf-8" ∷ [])
    ∷ sets "X-Content-Type-Options" ("nosniff" ∷ [])
    ∷ []

-- The error of the SDK in two writes is answered as a JSON-RPC error.
rewritten_is :
    envelope probe_id marshal "POST"
      (some "{}")
      (headings plain ++ write_header 400 ∷ pieces (adds "malformed" ∷ adds " payload: x" ∷ []))
    ≡ rewritten probe_id marshal "7Parse error"
unfolding envelope put del
rewritten_is = refl

envelope_error_example :
    Answers probe_id marshal "{}" (assigned plain []) 400 "malformed payload: x" (
      envelope probe_id marshal "POST"
        (some "{}")
        (headings plain ++ write_header 400 ∷ pieces (adds "malformed" ∷ adds " payload: x" ∷ [])))
unfolding put del get has_prefix
envelope_error_example =
    envelope_error probe_id marshal "{}" plain 400 (adds "malformed" ∷ adds " payload: x" ∷ [])
      (omega arith) refl
