-- ===== src/Cliauth/Login.antt =====
-- `Login` of cliauth/login.go, with `postToken` of login_http.go. The answers
-- of the network, the clock and whether the file is written are inputs; what is posted is kept, in
-- order. Random values, the browser and the listener are left to the caller.
pub mod Exchange
pub mod Session
pub mod Laws
pub mod Tokens
pub mod Logout
use mcp_kit.Prelude.{
  ℕ, zero, suc, ◌+◌, ◌*◌, ◌/◌, String, Bool, true, false, not, ◌&&◌, Option, none, some, List, [],
  ◌∷◌, ◌++◌, contains, nat_eq, ◌==◌, if◌then◌else◌,
}
use mcp_kit.Prelude.Int.{ℤ, pos, negsuc, add_duration, int64}
use mcp_kit.Text.{trim_space, trim_right_char}
use mcp_kit.Cliauth.Credstore.{
  Credentials, no_credentials, File, Error, not_logged_in, issuer_is_invalid, registration_failed,
  token_failed, issuer_mismatch, refresh_impossible, Result, ok, err, needs_refresh, load_host,
  save_host, delete_host,
}
use mcp_kit.Cliauth.Discovery.{Url, Library, Endpoints, endpoints}

-- A form that is posted to an address.
pub record Post : Type 0 where
  pub address : String
  pub form : List (String × String)

-- `Login`: its issuer never changes, its endpoints are filled in. The file is that of `Store`.
pub record Login : Type 0 where
  pub issuer : String
  pub endpoints : Endpoints
  pub file : File
  pub posted : List Post

pub record DcrResponse : Type 0 where
  pub client_id : String
  pub redirect_uris : List String

pub record TokenResponse : Type 0 where
  pub access_token : String
  pub refresh_token : String
  pub expires_in : ℤ

-- The answer to a request; its body is `none` where it is not decoded.
pub data HttpAnswer (A : Type 0) : Type 0 where
  no_answer : HttpAnswer A
  answered : ℕ → Option A → HttpAnswer A

-- What an operation meets outside.
pub record Inputs : Type 0 where
  pub discovered : Option Endpoints
  pub registered : HttpAnswer DcrResponse
  pub token : HttpAnswer TokenResponse
  pub now : ℕ
  pub writes : Bool

abbrev is_success : ℕ → Bool
is_success status = nat_eq (status / 100) 2

abbrev named_token : Option TokenResponse → Result TokenResponse
named_token none = err token_failed
named_token (some t) = if t.access_token == "" then err token_failed else ok t

-- The outcome of `postToken`.
unfoldable pub post_token : HttpAnswer TokenResponse → Result TokenResponse
post_token no_answer = err token_failed
post_token (answered status body) = if is_success status then named_token body else err token_failed

abbrev named_client : Option DcrResponse → Result DcrResponse
named_client none = err registration_failed
named_client (some d) = if d.client_id == "" then err registration_failed else ok d

-- The outcome of the registration request.
unfoldable pub post_registration : HttpAnswer DcrResponse → Result DcrResponse
post_registration no_answer = err registration_failed
post_registration (answered status body) =
    if is_success status then named_client body else err registration_failed

-- The expiry of a token, where its lifetime is told in seconds: `time.Duration` is a signed number
-- of nanoseconds with 64 bits, so that the product wraps. Instants count from the zero time.
abbrev pub expiry : ℕ → ℤ → Option ℕ → Option ℕ
expiry now (pos zero) old = old
expiry now (pos (suc n)) old = some (add_duration now (int64 (suc n * 1_000_000_000)))
expiry now (negsuc n) old = old

abbrev pub or_kept : String → String → String
or_kept old new = if new == "" then old else new

-- Credentials that are loaded without regard to an error.
abbrev pub or_empty : Result Credentials → Credentials
or_empty (ok c) = c
or_empty (err e) = no_credentials

abbrev pub saved_in : Login → Result (Unit {0}) × File → Result (Unit {0}) × Login
saved_in l (r, f) = (r, record l { file = f })

module _ (lib : Library) where
  abbrev host_checked : Option Url → Result String
  host_checked none = err issuer_is_invalid
  host_checked (some u) =
      if not (u.scheme == "http") && not (u.scheme == "https")
      then err issuer_is_invalid
      else if u.host == ""
      then err issuer_is_invalid
      else ok (lib.to_lower u.host)

  -- `HostFromIssuer`
  unfoldable pub host_from_issuer : String → Result String
  unfolding trim_space
  host_from_issuer issuer =
      if trim_space issuer == "" then err issuer_is_invalid else host_checked (lib.parse issuer)

  -- `validateAuthorizeIssuer`
  unfoldable pub validate_authorize_issuer : String → String → Bool
  unfolding trim_space trim_right_char
  validate_authorize_issuer issuer iss =
      if iss == "" then true else trim_right_char b'/' (trim_space iss) == issuer
