-- ===== src/Storage/Tests.antt =====
-- Runs of the session storage, and the theorems at concrete inputs.
use mcp_kit.Prelude.{String, ◌≡◌, refl, arith, true, Option, none, some, [], ◌∷◌, contains}
use mcp_kit.Storage.Json.{text, Fields, end, field}
use mcp_kit.Storage.Types.{
  Client, session_type_authorization_code, session_type_refresh_token, session_type_pkce,
}
use mcp_kit.Storage.Memory.{MemoryStore, new_memory_store, memory_store, save_client}
use mcp_kit.Storage.Memory
use mcp_kit.Storage.Memory.Laws.{memory_store-IsSessionMap}
use mcp_kit.Storage.Request.{
  SessionType, Request, sanitize_request_form, marshal_request_data, unmarshal_stored_request_data,
  only_session,
}
use mcp_kit.Storage.Request.RoundTrip.{unmarshal-marshal_without_session}
use mcp_kit.Storage.Adapter.{
  answer, found, invalidated, get_client, create_session, get_session,
  invalidate_authorize_code_session, rotate_refresh_token,
}
use mcp_kit.Storage.Adapter.Sessions.{
  IsStorable, restored, get_session-create_session, get_session-invalidate_authorize_code_session,
}
use mcp_kit.Storage.Adapter.Rotation.{rotated, get_session-rotate_refresh_token}

abbrev client : Client
client = record {
  id = "c1";
  name = [];
  redirect_uris = "https://app.example.com/cb" ∷ [];
  grant_types = "authorization_code" ∷ [];
  response_types = "code" ∷ [];
  scopes = "mcp.read" ∷ [];
  audience = [];
  is_public = true;
  client_secret_hash = "";
  token_auth_method = "none";
  logo_uri = "";
}

abbrev with_client : MemoryStore
with_client = save_client client new_memory_store

-- A session type whose sessions are their subjects.
abbrev json_of : String → Option Fields
json_of s = some (field "subject" (text s) end)

abbrev of_json : Fields → String → Option String
of_json (field k (text s) fs) old = some s
of_json _ old = none

abbrev subjects : SessionType String
subjects = record {
  to_json = json_of;
  from_json = of_json;
  expires_at = λ s t. 0;
  subject = λ s. s;
}

abbrev request : Request String
request = record {
  id = "r1";
  requested_at = 7;
  client = client;
  session = some "ann";
  granted_scopes = "mcp.read" ∷ [];
  requested_scopes = [];
  requested_audience = "https://mcp.example.com" ∷ [];
  granted_audience = [];
  form = ("state", "xyz" ∷ []) ∷ ("code_verifier", "v" ∷ []) ∷ [];
}

abbrev storable : IsStorable memory_store none subjects memory_store-IsSessionMap request "" "ann"
storable = record {
  session = "ann";
  key = "subject";
  value = text "ann";
  rest = end;
  has_session = refl;
  marshals = refl;
  unmarshals = refl;
}

unmarshal-marshal_without_session_example :
    (stored : Fields) × (marshal_request_data subjects 9 (record request { session = none })
      ≡ some stored)
    × (unmarshal_stored_request_data stored ≡ some (only_session (some stored)))
unmarshal-marshal_without_session_example =
    unmarshal-marshal_without_session subjects 9 (record request { session = none }) refl

sanitize_run : sanitize_request_form request.form ≡ ("state", "xyz" ∷ []) ∷ []
unfolding sanitize_request_form contains
sanitize_run = refl

get_session-create_session_example :
    ((create_session memory_store none subjects session_type_pkce "sig" 9 request with_client).0
      ≡ answer tt)
    × (get_session memory_store none subjects session_type_pkce "sig" 20
          (some "")
          (create_session memory_store none subjects session_type_pkce "sig" 9 request
            with_client).1
        ≡ found (restored 9 "ann" client request))
unfolding get_client Memory.get_client save_client
get_session-create_session_example =
    get_session-create_session memory_store none subjects memory_store-IsSessionMap
      session_type_pkce "sig" 9 20 request "" "ann" client with_client storable (omega arith) refl

get_session-invalidate_authorize_code_session_example :
    get_session memory_store none subjects session_type_authorization_code "code" 20
      (some "")
      (invalidate_authorize_code_session memory_store "code"
        (create_session memory_store none subjects session_type_authorization_code "code" 9 request
          with_client).1).1
    ≡ invalidated (restored 9 "ann" client request)
unfolding get_client Memory.get_client save_client
get_session-invalidate_authorize_code_session_example =
    get_session-invalidate_authorize_code_session memory_store none subjects
      memory_store-IsSessionMap "code" 9 20 request "" "ann" client with_client storable
      (omega arith) refl

abbrev with_refresh : MemoryStore
with_refresh =
    (create_session memory_store none subjects session_type_refresh_token "new" 9 request
      with_client).1

get_session-rotate_refresh_token_example :
    ((rotate_refresh_token memory_store "r1" "old" with_refresh).0 ≡ answer tt)
    × (memory_store.get_session session_type_refresh_token "new"
          (rotate_refresh_token memory_store "r1" "old" with_refresh).1
        ≡ rotated "r1" session_type_refresh_token
            (memory_store.get_session session_type_refresh_token "new" with_refresh))
get_session-rotate_refresh_token_example =
    get_session-rotate_refresh_token memory_store memory_store-IsSessionMap "r1" "old" with_refresh
      session_type_refresh_token "new"
