-- ===== src/Bearer/Context.antt =====
-- The values that oauth/middleware.go keeps in a request's context.
use mcp_kit.Prelude.{
  ℕ, String, Bool, true, false, ◌&&◌, Option, none, some, List, [], ◌==◌, if◌then◌else◌,
}

pub record Context : Type 0 where
  pub user_id : Option String
  pub scopes : Option (List String)
  pub scope_type : Option String
  pub scope_target : Option String
  pub auth_source : Option String
  pub auth_disabled : Option Bool

abbrev pub empty_context : Context
empty_context = record {
  user_id = none;
  scopes = none;
  scope_type = none;
  scope_target = none;
  auth_source = none;
  auth_disabled = none;
}

abbrev pub auth_source_oauth2 : String
auth_source_oauth2 = "oauth2"

abbrev pub auth_source_pat : String
auth_source_pat = "pat"

abbrev or_zero {ℓ} : {A : Type ℓ} → A → Option A → A
or_zero z none = z
or_zero z (some a) = a

unfoldable pub with_auth_disabled : Context → Context
with_auth_disabled c = record c { auth_disabled = some true }

unfoldable pub is_auth_disabled : Context → Bool
is_auth_disabled c = or_zero false c.auth_disabled

unfoldable pub with_scopes : List String → Context → Context
with_scopes scopes c = record c { scopes = some scopes }

unfoldable pub get_user_id : Context → String
get_user_id c = or_zero "" c.user_id

unfoldable pub get_scopes : Context → List String
get_scopes c = or_zero [] c.scopes

unfoldable pub get_scope_type : Context → String
get_scope_type c = or_zero "" c.scope_type

unfoldable pub get_scope_target : Context → String
get_scope_target c = or_zero "" c.scope_target

unfoldable pub get_auth_source : Context → String
get_auth_source c = or_zero "" c.auth_source

-- `PATAuthResult`
pub record PatAuthResult : Type 0 where
  pub user_id : String
  pub token_id : String
  pub scope_type : String
  pub scope_target : String
  pub scopes : List String

-- What the middleware reads of a request that an access token introspects to. A zero instant is 0.
pub record AccessRequest : Type 0 where
  pub subject : String
  pub granted_scopes : List String
  pub granted_audience : List String
  pub expires_at : ℕ

-- `contextWithPAT`
unfoldable pub context_with_pat : PatAuthResult → Context → Context
unfolding with_scopes
context_with_pat r c = with_scopes r.scopes (record c {
  user_id = some r.user_id;
  scope_type = some r.scope_type;
  scope_target = some r.scope_target;
  auth_source = some auth_source_pat;
})

-- `contextWithOAuth`
unfoldable pub context_with_oauth : AccessRequest → Context → Context
unfolding with_scopes
context_with_oauth r c =
    with_scopes r.granted_scopes
      (record c { user_id = some r.subject; auth_source = some auth_source_oauth2 })

pub record Target : Type 0 where
  pub scope_type : String
  pub target : String

-- `patCoversTarget`
unfoldable pub pat_covers_target : Context → Target → Bool
unfolding get_scope_type get_scope_target
pat_covers_target c t =
    let scope_type = get_scope_type c in
    let scope_target = get_scope_target c in
    if scope_type == "" && scope_target == ""
    then true
    else scope_type == t.scope_type && scope_target == t.target
