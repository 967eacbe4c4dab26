-- ===== src/Bearer/Challenge.antt =====
-- The challenges of oauth/middleware.go: `writeBearerChallenge`, `challengeScopeHint` and
-- `quoteAuthParam`, with `writeOAuthErrorBody` of oauth/error.go.
pub mod Quoting
use Prim.Native.Char.{Char, code}
use Prim.Native.String
use mcp_kit.Prelude.{ℕ, String, Bool, List, [], ◌∷◌, nat_eq, ◌==◌, ◌||◌, if◌then◌else◌}
use mcp_kit.Text.{trim_space, join}

-- What a challenge writes: the status, the headers that it sets and the fields of the body.
pub record Response : Type 0 where
  pub status : ℕ
  pub www_authenticate : String
  pub content_type : String
  pub error : String
  pub error_description : String

infixr 65 ◌++◌
abbrev pub ◌++◌ : String → String → String
s ++ t = String.◌++◌ s t

-- `quoteAuthParam`: a backslash before each backslash and each double quote.
unfoldable pub quote_auth_param : String → String
quote_auth_param String.[] = String.[]
quote_auth_param (String.◌∷◌ c s) =
    let rest = quote_auth_param s in
    if nat_eq (code c) b'\\' || nat_eq (code c) b'"'
    then String.◌∷◌ "\\" (String.◌∷◌ c rest)
    else String.◌∷◌ c rest

unfoldable pub clean_scopes : List String → List String
unfolding trim_space
clean_scopes [] = []
clean_scopes (s ∷ ss) =
    let rest = clean_scopes ss in if trim_space s == "" then rest else trim_space s ∷ rest

unfoldable pub challenge_scope_hint : List String → String
unfolding clean_scopes join
challenge_scope_hint scopes = join " " (clean_scopes scopes)

abbrev pub challenge_head : String → String
challenge_head resource_metadata_url =
    if resource_metadata_url == ""
    then "Bearer realm=\"OAuth\""
    else "Bearer realm=\"OAuth\", resource_metadata=\""
      ++ quote_auth_param resource_metadata_url
      ++ "\""

unfoldable pub write_bearer_challenge : String → String → ℕ → Response
unfolding quote_auth_param
write_bearer_challenge resource_metadata_url required_scope status =
    let challenge = challenge_head resource_metadata_url in
    if nat_eq status 403
    then (record {
      status = status;
      www_authenticate =
          if required_scope == ""
          then challenge
          else challenge
            ++ ", error=\"insufficient_scope\", error_description=\"Requires scope: "
            ++ quote_auth_param required_scope
            ++ "\", scope=\""
            ++ quote_auth_param required_scope
            ++ "\"";
      content_type = "application/json";
      error = "insufficient_scope";
      error_description = "requires scope: " ++ required_scope;
    })
    else (record {
      status = status;
      www_authenticate =
          challenge
          ++ ", error=\"invalid_token\", error_description=\"Missing or invalid access token\"";
      content_type = "application/json";
      error = "invalid_token";
      error_description = "Missing or invalid access token";
    })
