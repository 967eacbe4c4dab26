-- ===== src/Token/Authorize.antt =====
-- `AuthorizeHandler` of oauth/handlers.go, and what it grants. The engine's part is given as what its
-- calls yield for the request, `none` for an error; of the calls that grant a scope or an audience
-- the arguments are kept, in their order.
pub mod Laws
use mcp_kit.Prelude.{
  ℕ, String, Bool, true, false, not, ◌&&◌, ◌||◌, Option, none, some, List, [], ◌∷◌, ◌++◌, contains,
  length, ltb, nat_eq, ◌==◌, if◌then◌else◌,
}
use mcp_kit.Text.{utf8}

-- What the handler reads of a request.
pub record AuthorizeRequest : Type 0 where
  pub method : String
  pub state : String
  pub code_challenge : String
  pub code_challenge_method : String

-- What the engine's requester asks for.
pub record Requester : Type 0 where
  pub requested_scopes : List String
  pub requested_audience : List String

-- What a requester is granted.
pub record Grants : Type 0 where
  pub granted_scopes : List String
  pub granted_audience : List String

pub data Reply : Type 0 where
  http_error : ℕ → String → Reply
  authorize_error : Reply
  -- A response of the engine, with the parameters added to it.
  authorized : Grants → List (String × String) → Reply

-- `grantDefaultAudience`
unfoldable pub grant_default_audience : String → List String → List String
grant_default_audience audience [] = if audience == "" then [] else audience ∷ []
grant_default_audience audience (a ∷ requested) = a ∷ requested

-- `grantSubjectScopes`
unfoldable pub grant_subject_scopes : List String → List String → List String
unfolding contains
grant_subject_scopes granted [] = []
grant_subject_scopes granted (s ∷ requested) =
    let rest = grant_subject_scopes granted requested in
    if contains granted s then s ∷ rest else rest

-- `AddIssuerParameter`
unfoldable pub add_issuer_parameter : String → List (String × String)
add_issuer_parameter issuer = if issuer == "" then [] else ("iss", issuer) ∷ []

module _ (decodes : String → Bool) where
  -- `validCodeChallenge`; `decodes` is the test of base64.
  unfoldable pub valid_code_challenge : String → String → Bool
  unfolding utf8
  valid_code_challenge challenge method =
      if not (method == "S256")
      then false
      else if not (nat_eq (length (utf8 challenge)) 43)
      then false
      else decodes challenge

  module _ {U : Type 0} (scopes_of : U → List String) (issuer audience : String) where
    -- The part behind the checks of the handler itself, with the subject resolved.
    abbrev responded : (Grants → U → Bool) → Requester → Option U → Reply
    responded respond requester none = authorize_error
    responded respond requester (some subject) =
        let grants : Grants = record {
          granted_scopes = grant_subject_scopes (scopes_of subject) requester.requested_scopes;
          granted_audience = grant_default_audience audience requester.requested_audience;
        } in
        if respond grants subject
        then authorized grants (add_issuer_parameter issuer)
        else authorize_error

    abbrev requested : (Grants → U → Bool) → Option Requester → Option U → Reply
    requested respond none resolved = authorize_error
    requested respond (some requester) resolved = responded respond requester resolved

    -- `respond` says whether the engine makes a response with these grants.
    unfoldable pub authorize :
        AuthorizeRequest → Option Requester → Option U → (Grants → U → Bool) → Reply
    unfolding valid_code_challenge grant_subject_scopes grant_default_audience add_issuer_parameter
    authorize r requester resolved respond =
        if not (r.method == "GET") && not (r.method == "POST")
        then http_error 405 "method not allowed"
        else if ltb (length (utf8 r.state)) 8
        then http_error 400 "invalid_state"
        else if not (valid_code_challenge r.code_challenge r.code_challenge_method)
        then http_error 400 "invalid_code_challenge"
        else requested respond requester resolved
