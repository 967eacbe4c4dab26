-- ===== src/Bearer/Middleware.antt =====
-- The middleware of oauth/middleware.go and the validator of oauth/pat.go. A handler is the
-- continuation that receives the request's new context: the model returns that context, or the
-- response written in its place. The engine's introspection and its test of a granted audience or
-- scope (`fosite.Arguments.Has`) are parameters, as is the service behind the token validator.
pub mod Admission
pub mod Scopes
pub mod Limiter
use mcp_kit.Prelude.{
  ℕ, suc, ◌-◌, String, Bool, true, false, not, ◌&&◌, ◌||◌, Option, none, some, List, [], ◌∷◌, ltb,
  nat_eq, ◌==◌, is_some, if◌then◌else◌,
}
use mcp_kit.Text.{cut, Pieces, equal_fold, trim_space}
use mcp_kit.Bearer.Context.{
  Context, PatAuthResult, AccessRequest, Target, with_auth_disabled, is_auth_disabled, get_scopes,
  get_auth_source, auth_source_pat, context_with_pat, context_with_oauth, pat_covers_target,
}
use mcp_kit.Bearer.Challenge.{Response, challenge_scope_hint, write_bearer_challenge}

-- `PATEntity`
pub record PatEntity : Type 0 where
  pub id : String
  pub user_id : String
  pub scopes : List String

-- `Servicer`, its calls failing with `none`.
pub record Servicer : Type 0 where
  pub validate_token : String → Option PatEntity
  pub get_token_scope : String → Option (String × String)

abbrev with_scope : PatEntity → Option (String × String) → Option PatAuthResult
with_scope pat none = none
with_scope pat (some (scope_type, scope_target)) = some (record {
  user_id = pat.user_id;
  token_id = pat.id;
  scope_type = scope_type;
  scope_target = scope_target;
  scopes = pat.scopes;
})

abbrev with_pat : Servicer → Option PatEntity → Option PatAuthResult
with_pat service none = none
with_pat service (some pat) = with_scope pat (service.get_token_scope pat.id)

-- `PATValidator.ValidateAndResolve`
unfoldable pub validate_and_resolve : Servicer → String → Option PatAuthResult
validate_and_resolve service raw = with_pat service (service.validate_token raw)

-- `TokenValidator.ValidateAndResolve`: `none` for an error and for a nil result.
abbrev pub TokenValidator : Type 0
TokenValidator = String → Option PatAuthResult

abbrev pub TokenIntrospector : Type 0
TokenIntrospector = String → Option AccessRequest

-- `BearerConfig`, less the session factory and the timeout of a usage recording.
pub record BearerConfig : Type 0 where
  pub introspector : Option TokenIntrospector
  pub resource_metadata_url : String
  pub required_scopes : List String
  pub token_validator : Option TokenValidator
  pub max_usage_recorders : ℕ
  pub allow_unauthenticated : Bool
  pub expected_audience : String

pub record HttpRequest : Type 0 where
  pub authorization : String
  pub context : Context

pub data Outcome : Type 0 where
  next : Context → Outcome
  respond : Response → Outcome

abbrev token_of : Pieces → String
token_of p = if not p.cut || not (equal_fold p.before "Bearer") then "" else trim_space p.behind

-- `extractBearerToken`
unfoldable pub extract_bearer_token : String → String
unfolding cut equal_fold trim_space
extract_bearer_token authorization = token_of (cut b' ' authorization)

-- `validatePAT`, where there is a validator.
abbrev pub validate_pat : Option TokenValidator → String → Option PatAuthResult
validate_pat none token = none
validate_pat (some validator) token = validator token

-- The usage limiter is a channel: the number of its slots in use. What is recorded is the
-- identifier of the token.
pub record Recorders : Type 0 where
  pub in_use : ℕ
  pub recorded : List String

abbrev or_default : ℕ → ℕ
or_default n = if nat_eq n 0 then 32 else n

-- `recordPATUsage` begins: a slot is taken, or nothing is recorded.
unfoldable pub record_pat_usage : ℕ → String → Recorders → Recorders
record_pat_usage max_usage_recorders token_id l =
    if ltb l.in_use (or_default max_usage_recorders)
    then (record { in_use = suc l.in_use; recorded = token_id ∷ l.recorded })
    else l

-- Its goroutine ends, and gives the slot back.
unfoldable pub release : Recorders → Recorders
release l = record l { in_use = l.in_use - 1 }

abbrev pub is_open : BearerConfig → Bool
is_open cfg =
    not (is_some cfg.introspector) && not (is_some cfg.token_validator) && cfg.allow_unauthenticated

module _ (has : List String → String → Bool) where
  abbrev rejected : BearerConfig → Outcome
  rejected cfg = respond (
      write_bearer_challenge cfg.resource_metadata_url (challenge_scope_hint cfg.required_scopes)
        401)

  -- The tests on an access request that was introspected.
  abbrev accepted : BearerConfig → ℕ → Context → AccessRequest → Outcome
  accepted cfg now c r =
      if not (cfg.expected_audience == "") && not (has r.granted_audience cfg.expected_audience)
      then rejected cfg
      else if not (nat_eq r.expires_at 0) && ltb r.expires_at now
      then rejected cfg
      else next (context_with_oauth r c)

  abbrev introspected : BearerConfig → ℕ → Context → Option AccessRequest → Outcome
  introspected cfg now c none = rejected cfg
  introspected cfg now c (some r) = accepted cfg now c r

  abbrev by_introspection : BearerConfig → ℕ → Context → String → Option TokenIntrospector → Outcome
  by_introspection cfg now c token none = rejected cfg
  by_introspection cfg now c token (some introspect) = introspected cfg now c (introspect token)

  abbrev by_token :
      BearerConfig → ℕ → Context → String → Recorders → Option PatAuthResult → Outcome × Recorders
  by_token cfg now c token l (some result) =
      (next (context_with_pat result c), record_pat_usage cfg.max_usage_recorders result.token_id l)
  by_token cfg now c token l none = (by_introspection cfg now c token cfg.introspector, l)

  unfoldable pub bearer : BearerConfig → ℕ → HttpRequest → Recorders → Outcome × Recorders
  bearer cfg now r l =
      let token = extract_bearer_token r.authorization in
      if is_open cfg
      then (next (with_auth_disabled r.context), l)
      else if token == ""
      then (rejected cfg, l)
      else by_token cfg now r.context token l (validate_pat cfg.token_validator token)

  abbrev is_nil : List String → Bool
  is_nil [] = true
  is_nil (s ∷ ss) = false

  unfoldable pub require_scope : String → Context → Outcome
  require_scope scope c =
      if is_auth_disabled c
      then next c
      else if not (has (get_scopes c) scope)
      then respond (write_bearer_challenge "" scope (if is_nil (get_scopes c) then 401 else 403))
      else next c

  abbrev covered : Context → Option Target → Bool
  covered c none = false
  covered c (some t) = pat_covers_target c t

  abbrev for_target : String → Option Target → Outcome → Outcome
  for_target scope target (respond w) = respond w
  for_target scope target (next c) =
      if not (get_auth_source c == auth_source_pat)
      then next c
      else if covered c target
      then next c
      else respond (write_bearer_challenge "" scope 403)

  -- `resolve` is given as the target that it yields for the request, `none` for an error.
  unfoldable pub require_scope_for_target : String → Option Target → Context → Outcome
  require_scope_for_target scope target c = for_target scope target (require_scope scope c)
