-- ===== src/Token/Handler.antt =====
-- `TokenHandler` of oauth/handlers.go with the audit events of the token endpoint. A provider has an
-- audit emitter, since `New` gives it one where the configuration names none. What the engine does for a request is an input function on its state.
pub mod Laws
pub mod Events
pub mod Exchanges
use Prim.Native.String
use mcp_kit.Prelude.{
  ℕ, zero, suc, ◌/◌, String, Bool, true, false, not, ◌&&◌, Option, none, some, List, [], ◌∷◌, ◌++◌,
  take, ltb, ◌==◌, if◌then◌else◌,
}
use mcp_kit.Prelude.Int.{ℤ, pos, negsuc, sub_ℕ}
use mcp_kit.Audit.{Event}
use mcp_kit.Text.{join}
use mcp_kit.Storage.Json.{Form}
use mcp_kit.Consent.Params.{get}
use mcp_kit.Token.Replay.{
  ReplayedTokenResponse, RefreshReplayCache, TokenResponseRecorder, recorded, Clock, Answer,
  exchanged, replied, exchange_failed, handle_replayable_refresh, Joined, wait_for_refresh,
}

-- `d / time.Second`, which drops the fraction towards zero.
abbrev pub seconds : ℤ → ℤ
seconds (pos n) = pos (n / 1000000000)
seconds (negsuc n) = sub_ℕ 0 (suc n / 1000000000)

-- The key of a refresh token; the digest in hexadecimal is an input.
unfoldable pub refresh_replay_key : (String → String) → String → String → String
refresh_replay_key hex_sha256 client_id refresh_token =
    hex_sha256 (String.◌++◌ client_id (String.◌++◌ "\0" refresh_token))

unfoldable pub first : ℕ → String → String
first n String.[] = String.[]
first zero (String.◌∷◌ c s) = String.[]
first (suc n) (String.◌∷◌ c s) = String.◌∷◌ c (first n s)

-- The first 32 characters of a key.
abbrev fingerprint_of : String → String
fingerprint_of key = first 32 key

-- What the events of a refresh add: `refreshAuditMetadata`, with what the callers set.
pub record RefreshAudit : Type 0 where
  pub refresh_token_fingerprint : String
  pub replay_window_seconds : ℕ
  pub cache_response_returned : Bool
  pub rotation_at : ℕ
  -- The age of the response that is replayed, in seconds, and when and how often it was replayed.
  pub replay : Option (ℤ × (Option ℕ × ℕ))

pub record TokenMetadata : Type 0 where
  pub grant_type : String
  pub replayed : Bool
  pub error_code : Option String
  pub refresh : Option RefreshAudit

-- What the engine makes of a token request, with the default audience granted: an error in the
-- request or in the response, with its code, or a response; each with the client and the scopes of
-- the requester, and the recorder that the engine has written to.
pub data Executed : Type 0 where
  request_failed response_failed : String → String → List String → TokenResponseRecorder → Executed
  responded : String → List String → TokenResponseRecorder → Executed

-- The form of a request, or why there is none.
pub data Body : Type 0 where
  parsed : Form → Body
  too_large invalid_form : Body

pub record TokenRequest : Type 0 where
  pub method : String
  pub body : Body
  pub clock : Clock
  pub audited_at : ℕ

pub data Reply : Type 0 where
  http_error : ℕ → Reply
  written : ReplayedTokenResponse → Reply

-- The provider: the replay cache, and the state of the engine with the events that were emitted.
pub record Provider (W : Type 0) : Type 0 where
  pub cache : RefreshReplayCache
  pub engine : W
  pub emitted : List (Event TokenMetadata)

-- `clientID` where it is not empty, and else that of the requester.
abbrev or_client : String → String → String
or_client client_id known = if client_id == "" then known else client_id

-- The event of `emitTokenAudit`.
abbrev pub token_event :
    String → String → String → List String → ℕ → TokenMetadata → Event TokenMetadata
token_event entity_type action client_id scopes at metadata = record {
  entity_type = entity_type;
  entity_id = "";
  action = action;
  actor_user_id = none;
  client_id = client_id;
  scope = join " " scopes;
  metadata = metadata;
  timestamp = at;
}

abbrev metadata_of : String → Option String → Option RefreshAudit → TokenMetadata
metadata_of grant_type error_code refresh = record {
  grant_type = grant_type;
  replayed = false;
  error_code = error_code;
  refresh = refresh;
}

-- The event that a request of the engine ends with.
unfoldable pub executed_event :
    String → String → ℕ → Option RefreshAudit → Executed → Event TokenMetadata
executed_event grant_type client_id at refresh (request_failed code known scopes r) =
    token_event "oauth_token_exchange" "failed" (or_client client_id known) scopes at
      (metadata_of grant_type (some code) refresh)
executed_event grant_type client_id at refresh (response_failed code known scopes r) =
    token_event "oauth_token_exchange" "failed" known scopes at
      (metadata_of grant_type (some code) refresh)
executed_event grant_type client_id at refresh (responded known scopes r) =
    token_event (if grant_type == "refresh_token" then "oauth_refresh" else "oauth_token")
      (if grant_type == "refresh_token" then "rotated" else "issued") known scopes at
      (metadata_of grant_type none refresh)

abbrev pub recorder_of : Executed → TokenResponseRecorder
recorder_of (request_failed code known scopes r) = r
recorder_of (response_failed code known scopes r) = r
recorder_of (responded known scopes r) = r

module _ {W : Type 0} (execute : Form → W → Executed × W) (hex_sha256 : String → String)
    (replay_window : ℕ) where
  -- `executeTokenRequest`, on the engine and the events.
  unfoldable pub execute_token_request :
      Form
      → String
      → ℕ
      → Option RefreshAudit
      → W × List (Event TokenMetadata)
      → TokenResponseRecorder × (W × List (Event TokenMetadata))
  unfolding executed_event get
  execute_token_request form grant_type at refresh (w, events) =
      let (done, after) = execute form w in
      (
        recorder_of done,
        (after, executed_event grant_type (get "client_id" form) at refresh done ∷ events),
      )

  -- The metadata of a rotation, which an empty refresh token has none of.
  abbrev pub rotation_audit : Form → Clock → Option RefreshAudit
  rotation_audit form clock =
      if get "refresh_token" form == ""
      then none
      else some (record {
        refresh_token_fingerprint =
            fingerprint_of
              (refresh_replay_key hex_sha256 (get "client_id" form) (get "refresh_token" form));
        replay_window_seconds = replay_window / 1000000000;
        cache_response_returned = false;
        rotation_at = clock.rotation_at;
        replay = none;
      })

  -- The event of `emitRefreshReplayAudit`.
  abbrev pub replay_event : Form → ℕ → ℕ → ReplayedTokenResponse → Event TokenMetadata
  replay_event form now at r =
      token_event "oauth_refresh" "replayed" (get "client_id" form) [] at (record {
        grant_type = "refresh_token";
        replayed = true;
        error_code = none;
        refresh = some (record {
          refresh_token_fingerprint =
              fingerprint_of
                (refresh_replay_key hex_sha256 (get "client_id" form) (get "refresh_token" form));
          replay_window_seconds = replay_window / 1000000000;
          cache_response_returned = true;
          rotation_at = r.rotated_at;
          replay = some (seconds (sub_ℕ now r.rotated_at), (r.first_replay_at, r.replay_count));
        });
      })

  abbrev pub told :
      Form
      → TokenRequest
      → Answer × (RefreshReplayCache × (W × List (Event TokenMetadata)))
      → Reply × Provider W
  told form r (exchanged response, (c, (w, events))) =
      (written response, record { cache = c; engine = w; emitted = events })
  told form r (replied response, (c, (w, events))) = (
    written response,
    record {
      cache = c;
      engine = w;
      emitted = replay_event form r.clock.now r.audited_at response ∷ events;
    },
  )
  told form r (exchange_failed, (c, (w, events))) =
      (http_error 500, record { cache = c; engine = w; emitted = events })

  abbrev pub plain : Form → TokenRequest → Provider W → Reply × Provider W
  plain form r p =
      let (recorder, (w, events)) =
        execute_token_request form (get "grant_type" form) r.audited_at none
          (p.engine, p.emitted) in
      (written (recorded recorder), record { cache = p.cache; engine = w; emitted = events })

  abbrev pub refresh_alone :
      Form
      → TokenRequest
      → RefreshReplayCache × (W × List (Event TokenMetadata))
      → Answer × (RefreshReplayCache × (W × List (Event TokenMetadata)))
  refresh_alone form r s =
      handle_replayable_refresh
        (execute_token_request form "refresh_token" r.audited_at (rotation_audit form r.clock))
        replay_window (refresh_replay_key hex_sha256) (get "client_id" form)
        (get "refresh_token" form) r.clock s

  -- `handleReplayableRefresh`, of a request that may meet a flight of another.
  abbrev pub refreshed :
      Form
      → TokenRequest
      → Option (Joined (W × List (Event TokenMetadata)))
      → RefreshReplayCache × (W × List (Event TokenMetadata))
      → Answer × (RefreshReplayCache × (W × List (Event TokenMetadata)))
  refreshed form r none s = refresh_alone form r s
  refreshed form r (some j) s =
      if get "refresh_token" form == ""
      then refresh_alone form r s
      else wait_for_refresh
          (refresh_replay_key hex_sha256 (get "client_id" form) (get "refresh_token" form))
          r.clock.now j s

  abbrev pub handled :
      Option (Joined (W × List (Event TokenMetadata)))
      → TokenRequest
      → Body
      → Provider W
      → Reply × Provider W
  handled flight r too_large p = (http_error 413, p)
  handled flight r invalid_form p = (http_error 400, p)
  handled flight r (parsed form) p =
      if get "grant_type" form == "refresh_token" && ltb 0 replay_window
      then told form r (refreshed form r flight (p.cache, (p.engine, p.emitted)))
      else plain form r p

  -- `TokenHandler`, of a request that meets a flight of another for its refresh token, or none.
  unfoldable pub token_handler :
      Option (Joined (W × List (Event TokenMetadata)))
      → TokenRequest
      → Provider W
      → Reply × Provider W
  unfolding execute_token_request handle_replayable_refresh wait_for_refresh recorded get
  token_handler flight r p =
      if not (r.method == "POST") then (http_error 405, p) else handled flight r r.body p
