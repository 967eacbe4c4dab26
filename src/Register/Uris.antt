-- ===== src/Register/Uris.antt =====
-- The validation of URIs in oauth/register.go. What Go's `net/url` parses a text to is a parameter:
-- the theorems hold whatever it is.
pub mod Laws
use mcp_kit.Prelude.{
  ℕ, String, Bool, true, false, not, ◌&&◌, ◌||◌, Option, none, some, List, [], ◌∷◌, ltb, length,
  ◌==◌, if◌then◌else◌,
}
use mcp_kit.Text.{trim_space, utf8}

-- `url.URL`, as far as the checks read it.
pub record Url : Type 0 where
  pub scheme : String
  pub hostname : String
  pub fragment : String
  pub has_user : Bool

-- The messages of a rejection, by what they say, with the values that they quote.
pub data Description : Type 0 where
  method_not_allowed not_valid_json redirect_uris_required redirect_uri_empty : Description
  redirect_uri_unparsable redirect_uri_not_absolute redirect_uri_fragment redirect_uri_http :
      String → Description
  redirect_uri_scheme : String → String → Description
  logo_uri_too_long logo_uri_not_https logo_uri_user_or_fragment : Description
  logo_uri_unparsable : String → Description
  grant_type_unsupported response_type_unsupported auth_method_unsupported : String → Description
  scope_not_allowed default_scope_not_allowed : String → Description
  secret_failed persist_failed : Description

pub record Rejection : Type 0 where
  pub status : ℕ
  pub code : String
  pub description : Description

pub data Checked {ℓ} (A : Type ℓ) : Type ℓ where
  passed : A → Checked A
  rejected : Rejection → Checked A

infixl 5 ◌>>=◌ ◌>>◌
abbrev pub ◌>>=◌ {ℓ κ} : {A : Type ℓ} {B : Type κ} → Checked A → (A → Checked B) → Checked B
passed a >>= f = f a
rejected e >>= f = rejected e

abbrev pub ◌>>◌ {ℓ} : {B : Type ℓ} → Checked (Unit {0}) → Checked B → Checked B
m >> k = m >>= λ _. k

abbrev pub invalid : String → Description → Rejection
invalid code d = record { status = 400; code = code; description = d }

unfoldable pub is_loopback_host : String → Bool
is_loopback_host host = host == "localhost" || host == "127.0.0.1" || host == "::1"

abbrev checked_redirect : String → Option Url → Option Description
checked_redirect raw none = some (redirect_uri_unparsable raw)
checked_redirect raw (some u) =
    if u.scheme == ""
    then some (redirect_uri_not_absolute raw)
    else if not (u.fragment == "")
    then some (redirect_uri_fragment raw)
    else if u.scheme == "https"
    then none
    else if u.scheme == "http" && is_loopback_host u.hostname
    then none
    else if not (u.scheme == "http") && not (u.scheme == "https")
    then some (redirect_uri_scheme raw u.scheme)
    else some (redirect_uri_http raw)

abbrev checked_logo : String → Option Url → Option Description
checked_logo raw none = some (logo_uri_unparsable raw)
checked_logo raw (some u) =
    if not (u.scheme == "https") || u.hostname == ""
    then some logo_uri_not_https
    else if u.has_user || not (u.fragment == "")
    then some logo_uri_user_or_fragment
    else none

module _ (parse : String → Option Url) where
  -- The error of `validateRedirectURI`, `none` for nil.
  unfoldable pub validate_redirect_uri : String → Option Description
  validate_redirect_uri raw =
      if raw == "" then some redirect_uri_empty else checked_redirect raw (parse raw)

  abbrev or_rejected : String → Option Description → Checked (Unit {0})
  or_rejected code none = passed tt
  or_rejected code (some d) = rejected (invalid code d)

  -- The loop of `process` over the redirect URIs.
  unfoldable pub validate_each : List String → Checked (Unit {0})
  validate_each [] = passed tt
  validate_each (uri ∷ uris) = do
    or_rejected "invalid_redirect_uri" (validate_redirect_uri uri)
    validate_each uris

  unfoldable pub validate_redirect_uris : List String → Checked (Unit {0})
  unfolding validate_each
  validate_redirect_uris [] = rejected (invalid "invalid_redirect_uri" redirect_uris_required)
  validate_redirect_uris (uri ∷ uris) = validate_each (uri ∷ uris)

  unfoldable pub validate_logo_uri : String → Option Description
  validate_logo_uri text =
      let raw = trim_space text in
      if raw == ""
      then none
      else if ltb 2048 (length (utf8 raw))
      then some logo_uri_too_long
      else checked_logo raw (parse raw)

  unfoldable pub check_logo_uri : String → Checked (Unit {0})
  unfolding validate_logo_uri
  check_logo_uri logo = or_rejected "invalid_client_metadata" (validate_logo_uri logo)
