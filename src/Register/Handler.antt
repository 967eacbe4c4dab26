-- ===== src/Register/Handler.antt =====
-- The handler of oauth/register.go. What it reads from outside is given to it: the request after
-- its JSON is decoded, the random values in the order in which they are drawn, the time, the
-- hash of a secret (`none` when bcrypt fails) and the registrar's `SaveClient`.
pub mod Policy
pub mod Stored
use Prim.Native.String
use mcp_kit.Prelude.{
  ℕ, String, Bool, true, false, not, ◌&&◌, ◌||◌, Option, none, some, List, [], ◌∷◌, ◌++◌, contains,
  length, take, leb, ◌==◌, if◌then◌else◌,
}
use mcp_kit.Text.{trim_space, utf8}
use mcp_kit.Storage.Types.{Client}
use mcp_kit.Register.Uris.{
  Url, Description, method_not_allowed, not_valid_json, grant_type_unsupported,
  response_type_unsupported, auth_method_unsupported, secret_failed, persist_failed, Rejection,
  Checked, passed, rejected, ◌>>=◌, ◌>>◌, invalid, validate_redirect_uris, check_logo_uri,
}
use mcp_kit.Register.Scopes.{Granted, normalize_scopes_with_default}

abbrev pub auth_method_none : String
auth_method_none = "none"

abbrev pub supported_grant_types : List String
supported_grant_types = "authorization_code" ∷ "refresh_token" ∷ []

abbrev pub supported_response_types : List String
supported_response_types = "code" ∷ []

abbrev pub supported_auth_methods : List String
supported_auth_methods = auth_method_none ∷ "client_secret_basic" ∷ "client_secret_post" ∷ []

abbrev pub default_client_name : String
default_client_name = "Dynamic Client"

abbrev pub max_client_name_len : ℕ
max_client_name_len = 200

-- `RegistrationHandler`, less the store.
pub record RegistrationHandler : Type 0 where
  pub allowed_scopes : List String
  pub default_scopes : List String
  pub audience : String
  pub default_token_endpoint_auth_method : String
  pub default_grant_types : List String
  pub default_response_types : List String
  pub client_id_prefix : String

-- `NewRegistrationHandler`, on the fields of its configuration.
unfoldable pub new_registration_handler : RegistrationHandler → RegistrationHandler
unfolding trim_space
new_registration_handler cfg =
    let method = trim_space cfg.default_token_endpoint_auth_method in
    record cfg {
      default_token_endpoint_auth_method = if method == "" then "client_secret_basic" else method;
    }

pub record RegistrationRequest : Type 0 where
  pub redirect_uris : List String
  pub client_name : String
  pub grant_types : List String
  pub response_types : List String
  pub token_endpoint_auth_method : String
  pub scope : String
  pub logo_uri : String

-- An empty `client_secret` is left out of the JSON.
pub record RegistrationResponse : Type 0 where
  pub client_id : String
  pub client_secret : String
  pub client_id_issued_at : ℕ
  pub client_name : List ℕ
  pub redirect_uris : List String
  pub grant_types : List String
  pub response_types : List String
  pub token_endpoint_auth_method : String
  pub scope : String
  pub logo_uri : String

abbrev pub or_else : List String → List String → List String
or_else [] other = other
or_else (x ∷ xs) other = x ∷ xs

unfoldable pub check_supported :
    List String → (String → Description) → List String → Checked (Unit {0})
unfolding contains
check_supported supported message [] = passed tt
check_supported supported message (x ∷ xs) =
    let rest = check_supported supported message xs in
    if contains supported x then rest else rejected (invalid "invalid_client_metadata" (message x))

unfoldable pub normalize_grant_types : RegistrationHandler → List String → Checked (List String)
unfolding check_supported
normalize_grant_types h requested = do
  let types = or_else requested (or_else h.default_grant_types ("authorization_code" ∷ []))
  check_supported supported_grant_types grant_type_unsupported types
  passed types

unfoldable pub normalize_response_types : RegistrationHandler → List String → Checked (List String)
unfolding check_supported
normalize_response_types h requested = do
  let types = or_else requested (or_else h.default_response_types ("code" ∷ []))
  check_supported supported_response_types response_type_unsupported types
  passed types

unfoldable pub normalize_auth_method : RegistrationHandler → String → Checked String
unfolding contains
normalize_auth_method h requested =
    let method = if requested == "" then h.default_token_endpoint_auth_method else requested in
    if contains supported_auth_methods method
    then passed method
    else rejected (invalid "invalid_client_metadata" (auth_method_unsupported method))

unfoldable pub normalize_client_name : String → List ℕ
unfolding trim_space utf8
normalize_client_name name =
    let bytes = utf8 (if trim_space name == "" then default_client_name else trim_space name) in
    if leb (length bytes) max_client_name_len then bytes else take max_client_name_len bytes

abbrev server_error : Description → Rejection
server_error d = record { status = 500; code = "server_error"; description = d }

-- What the checks of a request establish, before a client is made of it.
pub record Metadata : Type 0 where
  pub grant_types : List String
  pub response_types : List String
  pub auth_method : String
  pub granted : Granted

module _ (parse : String → Option Url) (h : RegistrationHandler) where
  -- The first part of `process`: all that rejects a request for what it asks.
  unfoldable pub check : RegistrationRequest → Checked Metadata
  check req = do
    validate_redirect_uris parse req.redirect_uris
    grant_types ← normalize_grant_types h req.grant_types
    response_types ← normalize_response_types h req.response_types
    auth_method ← normalize_auth_method h req.token_endpoint_auth_method
    granted ← normalize_scopes_with_default req.scope h.default_scopes h.allowed_scopes
    check_logo_uri parse (trim_space req.logo_uri)
    passed (record {
      grant_types = grant_types;
      response_types = response_types;
      auth_method = auth_method;
      granted = granted;
    })

-- The random values of one registration, and the time at its end.
pub record Drawn : Type 0 where
  pub client_id : String
  pub secret : String
  pub issued_at : ℕ

abbrev is_public : Metadata → Bool
is_public m = m.auth_method == auth_method_none

-- The secret and its hash; both are empty for a public client.
unfoldable pub draw_secret : (String → Option String) → Metadata → Drawn → Checked (String × String)
draw_secret hash_secret m d = if is_public m then passed ("", "") else elim (hash_secret d.secret) [
  | none ↦ rejected (server_error secret_failed)
  | some hashed ↦ passed (d.secret, hashed)
]

unfoldable pub new_client :
    RegistrationHandler → RegistrationRequest → Metadata → Drawn → String → Client
new_client h req m d hashed = record {
  id = String.◌++◌ h.client_id_prefix d.client_id;
  name = normalize_client_name req.client_name;
  redirect_uris = req.redirect_uris;
  grant_types = m.grant_types;
  response_types = m.response_types;
  scopes = m.granted.scopes;
  audience = h.audience ∷ [];
  is_public = is_public m;
  client_secret_hash = hashed;
  token_auth_method = m.auth_method;
  logo_uri = trim_space req.logo_uri;
}

unfoldable pub new_response : Client → Metadata → Drawn → String → RegistrationResponse
new_response c m d raw = record {
  client_id = c.id;
  client_secret = raw;
  client_id_issued_at = d.issued_at;
  client_name = c.name;
  redirect_uris = c.redirect_uris;
  grant_types = m.grant_types;
  response_types = m.response_types;
  token_endpoint_auth_method = m.auth_method;
  scope = m.granted.scope_string;
  logo_uri = c.logo_uri;
}

module _ (parse : String → Option Url) (hash_secret : String → Option String) {S : Type 0}
    (save_client : Client → S → Bool × S) where
  abbrev saved : RegistrationResponse → Bool × S → Checked RegistrationResponse × S
  saved r (true, s) = (passed r, s)
  saved r (false, s) = (rejected (server_error persist_failed), s)

  abbrev persist :
      RegistrationHandler
      → RegistrationRequest
      → Metadata
      → Drawn
      → Checked (String × String)
      → S
      → Checked RegistrationResponse × S
  persist h req m d (rejected e) s = (rejected e, s)
  persist h req m d (passed (raw, hashed)) s =
      let c = new_client h req m d hashed in saved (new_response c m d raw) (save_client c s)

  abbrev processed :
      RegistrationHandler
      → RegistrationRequest
      → Drawn
      → Checked Metadata
      → S
      → Checked RegistrationResponse × S
  processed h req d (rejected e) s = (rejected e, s)
  processed h req d (passed m) s = persist h req m d (draw_secret hash_secret m d) s

  -- The store that `SaveClient` leaves is returned also when it fails.
  unfoldable pub process :
      RegistrationHandler → RegistrationRequest → Drawn → S → Checked RegistrationResponse × S
  process h req d s = processed h req d (check parse h req) s

  abbrev of_body :
      RegistrationHandler
      → Option RegistrationRequest
      → Drawn
      → S
      → Checked RegistrationResponse × S
  of_body h none d s = (rejected (invalid "invalid_client_metadata" not_valid_json), s)
  of_body h (some req) d s = process h req d s

  -- `ServeHTTP`; the body is `none` where it is not JSON of this shape, or is too long.
  unfoldable pub serve_http :
      RegistrationHandler
      → String
      → Option RegistrationRequest
      → Drawn
      → S
      → Checked RegistrationResponse × S
  unfolding process
  serve_http h method body d s =
      if not (method == "POST")
      then (
        rejected
            (record { status = 405; code = "invalid_request"; description = method_not_allowed }),
        s,
      )
      else of_body h body d s
