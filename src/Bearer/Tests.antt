-- ===== src/Bearer/Tests.antt =====
-- Runs of the bearer middleware, and the theorems at concrete inputs.
use mcp_kit.Prelude.{
  String, ◌≡◌, ◌↔◌, ◌⊎◌, refl, true, false, Option, none, some, [], ◌∷◌, contains, if◌then◌else◌,
  ◌==◌,
}
use mcp_kit.Bearer.Context.{
  empty_context, PatAuthResult, AccessRequest, Target, context_with_pat, context_with_oauth,
  is_auth_disabled, with_auth_disabled,
}
use mcp_kit.Bearer.Challenge.{◌++◌, Response, quote_auth_param, write_bearer_challenge}
use mcp_kit.Bearer.Challenge.Quoting.{unquote, unquote-quote_auth_param}
use mcp_kit.Bearer.Middleware.{
  BearerConfig, HttpRequest, Recorders, next, bearer, extract_bearer_token,
  require_scope_for_target,
}
use mcp_kit.Bearer.Middleware.Admission.{
  IsOpen, IsByPat, IsByOauth, bearer-eq-next_iff, bearer-required_scopes,
}
use mcp_kit.Bearer.Middleware.Scopes.{Covers, require_scope_for_target-context_with_pat}

token_run :
    (extract_bearer_token "bearer  abc " ≡ "abc")
    × (extract_bearer_token "Basic abc" ≡ "")
    × (extract_bearer_token "Bearer" ≡ "")
unfolding extract_bearer_token
token_run = (refl, refl, refl)

quote_run : quote_auth_param "a\"b" ≡ "a\\\"b"
unfolding quote_auth_param
quote_run = refl

unquote-quote_auth_param_example :
    unquote (quote_auth_param "a\"b" ++ "\"" ++ ", scope") ≡ some ("a\"b", ", scope")
unquote-quote_auth_param_example = unquote-quote_auth_param "a\"b" ", scope"

abbrev access : AccessRequest
access = record {
  subject = "ann";
  granted_scopes = "mcp.read" ∷ [];
  granted_audience = "mcp" ∷ [];
  expires_at = 100;
}

abbrev introspect : String → Option AccessRequest
introspect token = if token == "good" then some access else none

abbrev cfg : BearerConfig
cfg = record {
  introspector = some introspect;
  resource_metadata_url = "https://mcp.example.com/.well-known/oauth-protected-resource";
  required_scopes = "mcp.write" ∷ [];
  token_validator = none;
  max_usage_recorders = 0;
  allow_unauthenticated = false;
  expected_audience = "mcp";
}

abbrev idle : Recorders
idle = record { in_use = 0; recorded = [] }

abbrev good : HttpRequest
good = record { authorization = "Bearer good"; context = empty_context }

abbrev bad : HttpRequest
bad = record { authorization = "Bearer bad"; context = empty_context }

-- The token lacks the scope `mcp.write` of the configuration, and is let through.
bearer_run : (bearer contains cfg 50 good idle).0 ≡ next (context_with_oauth access empty_context)
unfolding bearer extract_bearer_token contains
bearer_run = refl

bearer-eq-next_iff_example :
    ((bearer contains cfg 50 good idle).0 ≡ next (context_with_oauth access empty_context)) ↔ (
      (IsOpen contains cfg 50
        × (context_with_oauth access empty_context ≡ with_auth_disabled empty_context))
      ⊎ (IsByPat contains cfg 50 good (context_with_oauth access empty_context)
          ⊎ IsByOauth contains cfg 50 good (context_with_oauth access empty_context)))
bearer-eq-next_iff_example =
    bearer-eq-next_iff contains cfg 50 good idle (context_with_oauth access empty_context)

abbrev denial : Response
denial = write_bearer_challenge cfg.resource_metadata_url "" 401

bearer-required_scopes_example :
    bearer contains (record cfg { required_scopes = [] }) 50 good idle
    ≡ bearer contains cfg 50 good idle
bearer-required_scopes_example = bearer-required_scopes contains cfg 50 [] good idle

abbrev pat : PatAuthResult
pat = record {
  user_id = "ann";
  token_id = "t";
  scope_type = "repo";
  scope_target = "kit";
  scopes = "mcp.read" ∷ [];
}

abbrev kit : Target
kit = record { scope_type = "repo"; target = "kit" }

require_scope_for_target-context_with_pat_example :
    (require_scope_for_target contains "mcp.read" (some kit) (context_with_pat pat empty_context)
      ≡ next (context_with_pat pat empty_context))
    ↔ ((context_with_pat pat empty_context ≡ context_with_pat pat empty_context)
        × (contains pat.scopes "mcp.read" ≡ true)
        × ((t : Target) × (some kit ≡ some t) × Covers pat t))
unfolding is_auth_disabled
require_scope_for_target-context_with_pat_example =
    require_scope_for_target-context_with_pat contains "mcp.read" empty_context
      (context_with_pat pat empty_context) pat (some kit) refl
