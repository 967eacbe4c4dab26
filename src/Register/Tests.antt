-- ===== src/Register/Tests.antt =====
-- Runs of the registration, and the theorems at concrete inputs.
use Prim.Native.String
use mcp_kit.Prelude.{
  String, Bool, true, false, ◌≡◌, refl, Option, none, some, List, [], ◌∷◌, ◌==◌, if◌then◌else◌,
}
use mcp_kit.Storage.Types.{Client}
use mcp_kit.Register.Uris.{
  is_loopback_host, validate_redirect_uris, check_logo_uri, Url, Checked, passed, rejected, invalid,
  not_valid_json, validate_redirect_uri, redirect_uri_http,
}
use mcp_kit.Register.Scopes.{granted, normalize_scopes_with_default}
use mcp_kit.Register.Handler.{
  check, normalize_grant_types, normalize_response_types, normalize_auth_method, draw_secret,
  RegistrationHandler, RegistrationRequest, RegistrationResponse, Drawn, Metadata, process,
  serve_http, new_client, new_response,
}
use mcp_kit.Register.Handler.Stored.{IsRegistered, process-eq-passed}

abbrev blank : String
blank = ""

abbrev elsewhere : String
elsewhere = "http://example.com/cb"

abbrev of_scheme : String → String → Url
of_scheme scheme host = record { scheme = scheme; hostname = host; fragment = ""; has_user = false }

-- The parser on the texts of these tests.
abbrev parse : String → Option Url
parse raw =
    if raw == "https://app.example.com/cb"
    then some (of_scheme "https" "app.example.com")
    else if raw == "http://example.com/cb"
    then some (of_scheme "http" "example.com")
    else none

abbrev hash_secret : String → Option String
hash_secret secret = some (String.◌++◌ "hash of " secret)

abbrev save_client : Client → List Client → Bool × List Client
save_client c s = (true, c ∷ s)

abbrev handler : RegistrationHandler
handler = record {
  allowed_scopes = "mcp.read" ∷ "mcp.write" ∷ [];
  default_scopes = "mcp.read" ∷ "mcp.read" ∷ [];
  audience = "https://mcp.example.com";
  default_token_endpoint_auth_method = "client_secret_basic";
  default_grant_types = [];
  default_response_types = [];
  client_id_prefix = "dyn-";
}

abbrev request : RegistrationRequest
request = record {
  redirect_uris = "https://app.example.com/cb" ∷ [];
  client_name = " App ";
  grant_types = "authorization_code" ∷ "refresh_token" ∷ [];
  response_types = [];
  token_endpoint_auth_method = "";
  scope = "";
  logo_uri = "";
}

abbrev drawn : Drawn
drawn = record { client_id = "abc"; secret = "s3cret"; issued_at = 100 }

abbrev metadata : Metadata
metadata = record {
  grant_types = "authorization_code" ∷ "refresh_token" ∷ [];
  response_types = "code" ∷ [];
  auth_method = "client_secret_basic";
  granted = granted ("mcp.read" ∷ []);
}

abbrev client : Client
client = new_client handler request metadata drawn "hash of s3cret"

abbrev response : RegistrationResponse
response = new_response client metadata drawn "s3cret"

abbrev run : Checked RegistrationResponse × List Client
run = process parse hash_secret save_client handler request drawn []

run_is : run ≡ (passed response, client ∷ [])
unfolding process check validate_redirect_uris validate_redirect_uri normalize_grant_types
    normalize_response_types normalize_auth_method normalize_scopes_with_default check_logo_uri
    draw_secret
run_is = refl

http_elsewhere :
    validate_redirect_uri parse "http://example.com/cb"
    ≡ some (redirect_uri_http "http://example.com/cb")
unfolding validate_redirect_uri is_loopback_host
http_elsewhere = refl

by_default :
    normalize_scopes_with_default "" ("mcp.read" ∷ "mcp.read" ∷ []) ("mcp.read" ∷ "mcp.write" ∷ [])
    ≡ passed (granted ("mcp.read" ∷ []))
unfolding normalize_scopes_with_default
by_default = refl

process-eq-passed_example :
    IsRegistered parse hash_secret save_client handler [] (client ∷ []) response
process-eq-passed_example =
    process-eq-passed parse hash_secret save_client handler request drawn [] (client ∷ []) response
      run_is

not_json :
    serve_http parse hash_secret save_client handler "POST" none drawn []
    ≡ (rejected (invalid "invalid_client_metadata" not_valid_json), [])
unfolding serve_http
not_json = refl
