-- ===== src/Cliauth/Tests.antt =====
-- Runs of the login, and the theorems at concrete inputs.
use mcp_kit.Prelude.{String, true, ◌≡◌, ◌≢◌, ◌⊎◌, refl, arith, none, some, [], ◌==◌}
use mcp_kit.Prelude.Int.{pos}
use mcp_kit.Text.{trim_space, trim_right_char, is_space}
use mcp_kit.Cliauth.Credstore.{
  Credentials, File, absent, holding, ok, err, not_logged_in, load_host, load_current, save_host,
  delete_host,
}
use mcp_kit.Cliauth.Credstore
use mcp_kit.Cliauth.Credstore.Current.{start, saved, deleted, Reach-load_current}
use mcp_kit.Cliauth.Discovery.{Url, Library, Endpoints, AllTrusted, endpoints, endpoints-AllTrusted}
use mcp_kit.Cliauth.Discovery
use mcp_kit.Cliauth.Login.{Login, Inputs, TokenResponse, answered, post_token, host_from_issuer}
use mcp_kit.Cliauth.Login.Exchange.{ExchangeParams, exchange_and_save}
use mcp_kit.Cliauth.Login.Session.{get_access_token, ensure_registered, logout}
use mcp_kit.Cliauth.Login
use mcp_kit.Cliauth.Login.Laws.{
  PostsCode, StoresToken, exchange_and_save_sound, get_access_token-exchange_and_save,
}
use mcp_kit.Cliauth.Login.Tokens.{
  Returns, get_access_token-Returns, get_access_token-ensure_registered,
}
use mcp_kit.Cliauth.Login.Logout.{LoggedOut, logout-LoggedOut}

abbrev issuer : String
issuer = "https://auth.example.com"

abbrev url : Url
url = record {
  scheme = "https";
  host = "auth.example.com";
  hostname = "auth.example.com";
  fragment = "";
  is_abs = true;
}

-- Every text is an address of one host.
abbrev library : Library
library = record { parse = λ s. some url; equal_fold = λ a b. a == b; to_lower = λ s. s }

abbrev credentials : Credentials
credentials = record {
  issuer = issuer;
  client_id = "app";
  redirect_uris = [];
  access_token = "old";
  refresh_token = "refresh";
  expires_at = some 1_000_000_000_000;
  scope = "mcp.read";
}

abbrev host : String
host = "auth.example.com"

abbrev file : File
file = (save_host true host credentials absent).1

Reach-load_current_example :
    (((delete_host true host file).1 ≡ absent)
      × (load_current (delete_host true host file).1 ≡ err not_logged_in))
    ⊎ ((h : String) × (creds : Credentials) × (h ≢ "")
        × (load_current (delete_host true host file).1 ≡ ok (h, creds))
        × (load_host h (delete_host true host file).1 ≡ ok creds))
Reach-load_current_example =
    Reach-load_current (delete_host true host file).1
      (deleted true host (saved true host credentials start))

abbrev found : Endpoints
found = record {
  authorization = "https://auth.example.com/authorize";
  token = "https://auth.example.com/token";
  revocation = "";
  registration = "https://auth.example.com/register";
}

endpoints_found : (endpoints library issuer found none).0 ≡ ok found
unfolding endpoints Discovery.complete Discovery.validate Discovery.shares_origin trim_right_char
endpoints_found = refl

abbrev login : Login
login = record { issuer = issuer; endpoints = found; file = absent; posted = [] }

abbrev token : TokenResponse
token = record { access_token = "token"; refresh_token = ""; expires_in = pos 3600 }

abbrev inputs : Inputs
inputs = record {
  discovered = none;
  registered = answered 201 (some (record { client_id = "new"; redirect_uris = [] }));
  token = answered 200 (some token);
  now = 0;
  writes = true;
}

abbrev exchange : ExchangeParams library
exchange = record {
  client_id = "app";
  redirect_uri = "http://127.0.0.1:8765/callback";
  code = "code";
  verifier = "verifier";
  scope = "mcp.read";
  issuer = "https://auth.example.com/";
}

exchange_and_save_sound_example :
    PostsCode library inputs exchange login (exchange_and_save library inputs exchange login)
    × StoresToken library inputs exchange login (exchange_and_save library inputs exchange login)
exchange_and_save_sound_example = exchange_and_save_sound library inputs exchange login

exchanged : (exchange_and_save library inputs exchange login).0 ≡ ok tt
unfolding exchange_and_save endpoints Discovery.complete Discovery.validate Discovery.shares_origin
    trim_right_char trim_space is_space host_from_issuer post_token save_host load_host
exchanged = refl

get_access_token-exchange_and_save_example :
    get_access_token library inputs (exchange_and_save library inputs exchange login).1
    ≡ (ok "token", (exchange_and_save library inputs exchange login).1)
unfolding post_token
get_access_token-exchange_and_save_example =
    get_access_token-exchange_and_save library inputs exchange login inputs token 3599 exchanged
      refl refl (omega arith) (omega arith)

get_access_token-Returns_example :
    Returns library inputs
      (record login { file = file })
      (get_access_token library inputs (record login { file = file }))
get_access_token-Returns_example =
    get_access_token-Returns library inputs (record login { file = file })

logout-LoggedOut_example :
    LoggedOut library inputs
      (record login { file = file })
      (logout library inputs (record login { file = file }))
logout-LoggedOut_example = logout-LoggedOut library inputs (record login { file = file })

-- The credentials of another issuer on the same host.
abbrev other : Credentials
other = record credentials { issuer = "https://auth.example.com/other" }

abbrev shared : Login
shared = record login { file = (save_host true host other absent).1 }

registered : (ensure_registered library inputs "http://127.0.0.1/cb" shared).0 ≡ ok "new"
unfolding ensure_registered host_from_issuer trim_space is_space load_host save_host
    Login.post_registration
registered = refl

get_access_token-ensure_registered_example :
    (get_access_token library inputs
      (ensure_registered library inputs "http://127.0.0.1/cb" shared).1).0
    ≡ ok "old"
unfolding host_from_issuer trim_space is_space load_host save_host Credstore.needs_refresh
get_access_token-ensure_registered_example =
    get_access_token-ensure_registered library inputs shared inputs "http://127.0.0.1/cb" "new" host
      other refl refl refl registered refl
