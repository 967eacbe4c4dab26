-- ===== src/Token/Tests.antt =====
-- Runs of the token and authorization endpoints, and the theorems at concrete inputs.
use Prim.Native.String
use mcp_kit.Prelude.{
  Option, none, List, length, ◌⊎◌, ◌≤◌, Bool, true, ℕ, ◌<◌, suc, String, ◌≡◌, ◌≢◌, inl, refl, arith,
  some, none, [], ◌∷◌, contains,
}
use mcp_kit.Token.Replay.{
  Joined, wait_for_refresh, ReplayedTokenResponse, new_refresh_replay_cache, TokenResponseRecorder,
  Clock, handle_replayable_refresh, set, store_refresh_replay, rotate, exchanged, replied, counted,
  replay, recorded, Shared, look, begin, finish,
}
use mcp_kit.Audit.{Event}
use mcp_kit.Storage.Json.{Form}
use mcp_kit.Token.Handler.{
  Executed, responded, parsed, TokenRequest, TokenMetadata, Reply, written, Provider,
  execute_token_request, executed_event, refresh_replay_key, token_handler,
}
use mcp_kit.Token.Handler.Laws.{Audited, token_handler-Audited}
use mcp_kit.Token.Authorize.{AuthorizeRequest, Requester, Grants, authorized, authorize}
use mcp_kit.Token.Authorize.Laws.{IsGranted, authorize-eq-authorized}
use mcp_kit.Text.{utf8}
use mcp_kit.Token.Replay.Window.{entry_of, handled, handle_replayable_refresh_twice}
use mcp_kit.Token.Replay.Flights.{
  looked, taken_off, Steps, done, and_then, count, Answers, finish-Steps,
}

-- The world counts the exchanges; each answers with its number.
abbrev exchange : ℕ → TokenResponseRecorder × ℕ
exchange n = (record { header = []; body = n ∷ []; status = 0 }, suc n)

abbrev failing : ℕ → TokenResponseRecorder × ℕ
failing n = (record { header = []; body = n ∷ []; status = 400 }, suc n)

abbrev key_of : String → String → String
key_of client_id refresh_token = String.◌++◌ client_id refresh_token

abbrev clock : ℕ → Clock
clock t = record { now = t; rechecked = t; rotation_at = t }

abbrev token : String
token = "token"

named : token ≢ ""
named = λ e. absurd (cc)

handle_replayable_refresh_twice_example :
    ((handled exchange 30 key_of "app" token (clock 100) (new_refresh_replay_cache, 7)).0
      ≡ exchanged (recorded (exchange 7).0))
    × ((handled exchange 30 key_of "app" token
          (clock 129)
          (handled exchange 30 key_of "app" token (clock 100) (new_refresh_replay_cache, 7)).1).0
        ≡ replied (counted 129 (entry_of 30 (exchange 7).0 100)))
    × ((handled exchange 30 key_of "app" token
          (clock 129)
          (handled exchange 30 key_of "app" token (clock 100) (new_refresh_replay_cache, 7)).1).1.1
        ≡ 8)
handle_replayable_refresh_twice_example =
    handle_replayable_refresh_twice exchange 30 key_of "app" token (clock 100) (clock 129)
      new_refresh_replay_cache 7 named refl (inl refl) (omega arith)

-- A flight for one key is under way.
abbrev flown : Shared
flown = record { cache = new_refresh_replay_cache; flying = "k" ∷ []; rotations = "k" ∷ [] }

abbrev answer : TokenResponseRecorder
answer = (exchange 7).0

-- It ends, another flight begins, and the key is looked for.
abbrev after : Shared
after = look "k" 110 (begin "other" 105 (finish 30 "k" 100 answer flown))

run : Steps 30 130 (finish 30 "k" 100 answer flown) after
unfolding finish contains
run =
    and_then (and_then done (taken_off "other" 105 (omega arith) refl))
      (looked "k" 110 (omega arith))

finish-Steps_example :
    (count "k" after.rotations ≡ 1)
    × ((now : ℕ)
        → now < 130
        → (e : ReplayedTokenResponse) × ((replay "k" now after.cache).0 ≡ some (counted now e))
          × Answers (entry_of 30 answer 100) e)
finish-Steps_example = finish-Steps flown "k" 100 answer (inl refl) run

abbrev decodes : String → Bool
decodes challenge = true

-- The subject is the list of its scopes.
abbrev scopes_of : List String → List String
scopes_of subject = subject

abbrev code_request : AuthorizeRequest
code_request = record {
  method = "GET";
  state = "12345678";
  code_challenge = "E9Melhoa2OwvFrEMTJguCHaoeK1t8URWbuGJSstw-cM";
  code_challenge_method = "S256";
}

abbrev requester : Requester
requester = record { requested_scopes = "mcp.read" ∷ "mcp.admin" ∷ []; requested_audience = [] }

abbrev subject : List String
subject = "mcp.read" ∷ []

abbrev respond : Grants → List String → Bool
respond grants s = true

abbrev grants : Grants
grants = record { granted_scopes = subject; granted_audience = "https://mcp.example.com" ∷ [] }

abbrev parameters : List (String × String)
parameters = ("iss", "https://auth.example.com") ∷ []

granted_is :
    authorize decodes scopes_of "https://auth.example.com" "https://mcp.example.com" code_request
      (some requester)
      (some subject)
      respond
    ≡ authorized grants parameters
unfolding authorize
granted_is = refl

authorize-eq-authorized_example :
    ((code_request.method ≡ "GET") ⊎ (code_request.method ≡ "POST"))
    × (8 ≤ length (utf8 code_request.state))
    × (code_request.code_challenge_method ≡ "S256")
    × (length (utf8 code_request.code_challenge) ≡ 43)
    × (decodes code_request.code_challenge ≡ true)
    × IsGranted decodes scopes_of "https://auth.example.com" "https://mcp.example.com"
        (some requester)
        (some subject)
        grants
        parameters
authorize-eq-authorized_example =
    authorize-eq-authorized decodes scopes_of "https://auth.example.com" "https://mcp.example.com"
      code_request (some requester) (some subject) respond grants parameters granted_is

-- An engine that answers every request, and counts them.
abbrev execute : Form → ℕ → Executed × ℕ
execute form n =
    (responded "app" ("mcp.read" ∷ []) (record { header = []; body = n ∷ []; status = 200 }), suc n)

abbrev refresh_form : Form
refresh_form =
    ("grant_type", "refresh_token" ∷ [])
    ∷ ("client_id", "app" ∷ [])
    ∷ ("refresh_token", "token" ∷ [])
    ∷ []

abbrev refresh_request : TokenRequest
refresh_request = record {
  method = "POST";
  body = parsed refresh_form;
  clock = clock 100;
  audited_at = 101;
}

-- The digest of every text.
abbrev hex_sha256 : String → String
hex_sha256 t = "0123456789abcdef0123456789abcdef0123456789abcdef0123456789abcdef"

abbrev provider : Provider ℕ
provider = record { cache = new_refresh_replay_cache; engine = 7; emitted = [] }

abbrev refreshed_once : Reply × Provider ℕ
refreshed_once = token_handler execute hex_sha256 30 none refresh_request provider

abbrev refreshed_twice : Reply × Provider ℕ
refreshed_twice = token_handler execute hex_sha256 30 none refresh_request refreshed_once.1

actions : List (Event TokenMetadata) → List String
actions [] = []
actions (e ∷ es) = e.action ∷ actions es

refreshed_twice_actions : actions refreshed_twice.1.emitted ≡ "replayed" ∷ "rotated" ∷ []
unfolding token_handler handle_replayable_refresh execute_token_request executed_event recorded
    replay set store_refresh_replay rotate actions refresh_replay_key
refreshed_twice_actions = refl

token_handler-Audited_example :
    Audited execute hex_sha256 30 none refresh_request refreshed_once.1 refreshed_twice
token_handler-Audited_example =
    token_handler-Audited execute hex_sha256 30 none refresh_request refreshed_once.1

-- A request that waits for a failed flight of another is answered with its response, and no event
-- tells of it.
abbrev failed_flight : Option (Joined (ℕ × List (Event TokenMetadata)))
failed_flight =
    some (record { response = recorded (failing 7).0; others = λ s. (s.0, (suc s.1.0, s.1.1)) })

shared_failure : token_handler execute hex_sha256 30 failed_flight refresh_request provider ≡ (
  written (recorded (failing 7).0),
  record { cache = new_refresh_replay_cache; engine = 8; emitted = [] },
)
unfolding token_handler wait_for_refresh replay recorded
shared_failure = refl
