-- ===== src/Register/Scopes.antt =====
-- The scopes of a registration: `normalizeScopes` and `normalizeScopesWithDefault` of
-- oauth/register.go. The set of allowed scopes is the list that it is made of.
pub mod Laws
use mcp_kit.Prelude.{
  ℕ, String, Bool, true, false, not, ◌&&◌, ◌||◌, Option, none, some, List, [], ◌∷◌, ◌++◌, contains,
  ◌==◌, if◌then◌else◌,
}
use mcp_kit.Text.{trim_space, fields, join}
use mcp_kit.Register.Uris.{
  Description, scope_not_allowed, default_scope_not_allowed, Checked, passed, rejected, ◌>>=◌, ◌>>◌,
  invalid,
}

-- The scopes, and the text of them that is returned to the client.
pub record Granted : Type 0 where
  pub scopes : List String
  pub scope_string : String

abbrev pub granted : List String → Granted
granted scopes = record { scopes = scopes; scope_string = join " " scopes }

-- The loop of `normalizeScopes`: the first scope that is not allowed.
unfoldable pub first_refused : List String → List String → Option String
unfolding contains
first_refused allowed [] = none
first_refused allowed (s ∷ ss) =
    let rest = first_refused allowed ss in if contains allowed s then rest else some s

abbrev granted_unless : List String → Option String → Checked Granted
granted_unless scopes none = passed (granted scopes)
granted_unless scopes (some s) = rejected (invalid "invalid_client_metadata" (scope_not_allowed s))

unfoldable pub normalize_scopes : String → List String → Checked Granted
unfolding first_refused fields join
normalize_scopes scope allowed =
    granted_unless (fields scope) (first_refused allowed (fields scope))

-- The loop over the default scopes, with the scopes that it has taken, in their order.
unfoldable pub take_defaults : List String → List String → List String → Checked (List String)
unfolding contains trim_space
take_defaults allowed taken [] = passed taken
take_defaults allowed taken (d ∷ ds) =
    let s = trim_space d in
    let skip = take_defaults allowed taken ds in
    let more = take_defaults allowed (taken ++ s ∷ []) ds in
    if s == ""
    then skip
    else if not (contains allowed s)
    then rejected (invalid "invalid_client_metadata" (default_scope_not_allowed s))
    else if contains taken s
    then skip
    else more

abbrev or_allowed : List String → List String → List String
or_allowed [] allowed = allowed
or_allowed (d ∷ ds) allowed = d ∷ ds

unfoldable pub normalize_scopes_with_default : String → List String → List String → Checked Granted
unfolding normalize_scopes take_defaults trim_space
normalize_scopes_with_default scope default_scopes allowed =
    if not (trim_space scope == "") then normalize_scopes scope allowed else (do
      scopes ← take_defaults allowed [] (or_allowed default_scopes allowed)
      passed (granted scopes))
