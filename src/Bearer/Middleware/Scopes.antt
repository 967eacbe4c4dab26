-- ===== src/Bearer/Middleware/Scopes.antt =====
-- Which contexts the scope tests let through.
use mcp_kit.Prelude.{
  String, Bool, true, false, ◌≡◌, ◌≢◌, ◌↔◌, ◌⊎◌, refl, arith, Option, none, some, List, [], eq_iff,
  eq_refl,
}
use mcp_kit.Bearer.Context.{
  Context, PatAuthResult, Target, AccessRequest, is_auth_disabled, get_scopes, get_auth_source,
  context_with_pat, context_with_oauth, pat_covers_target,
}
use mcp_kit.Bearer.Challenge.{Response, write_bearer_challenge}
use mcp_kit.Bearer.Middleware.{next, respond, require_scope, require_scope_for_target}

-- A personal access token with no boundary is good for every target; any other one, for the target
-- that it names.
abbrev pub Covers : PatAuthResult → Target → Type 0
Covers r t =
    ((r.scope_type ≡ "") × (r.scope_target ≡ ""))
    ⊎ ((r.scope_type ≡ t.scope_type) × (r.scope_target ≡ t.target))

module _ (has : List String → String → Bool) (scope : String) where
  -- A request passes the scope test, with its context as it is, exactly when authentication is
  -- switched off for it or it has the scope.
  pub require_scope-eq-next_iff :
      (c c' : Context)
      → (require_scope has scope c ≡ next c')
        ↔ ((c' ≡ c) × ((is_auth_disabled c ≡ true) ⊎ (has (get_scopes c) scope ≡ true)))
  unfolding require_scope
  require_scope-eq-next_iff c c' = (λ h. ground arith, λ h. ground arith)

  -- A request that does not pass is answered with 401 if it has no scopes at all, and otherwise
  -- with 403, which asks for the scope.
  pub require_scope-eq-respond :
      (c : Context) (w : Response)
      → require_scope has scope c ≡ respond w
      → ((get_scopes c ≡ []) × (w ≡ write_bearer_challenge "" scope 401))
        ⊎ ((get_scopes c ≢ []) × (w ≡ write_bearer_challenge "" scope 403))
  unfolding require_scope
  require_scope-eq-respond c w h = ground arith

  -- Where authentication is not switched off, a personal access token reaches a handler behind
  -- the test for a target exactly when it has the scope, the target is resolved, and the
  -- token's boundary covers it.
  pub require_scope_for_target-context_with_pat :
      (c c' : Context) (r : PatAuthResult) (target : Option Target)
      → is_auth_disabled c ≡ false
      → (require_scope_for_target has scope target (context_with_pat r c) ≡ next c') ↔ (
          (c' ≡ context_with_pat r c)
          × (has r.scopes scope ≡ true)
          × ((t : Target) × (target ≡ some t) × Covers r t))
  unfolding require_scope_for_target require_scope is_auth_disabled get_scopes get_auth_source
      context_with_pat pat_covers_target
  require_scope_for_target-context_with_pat c c' r none d =
      (λ h. ground (arith, eq_refl "pat"), λ h. ground arith)
  require_scope_for_target-context_with_pat c c' r (some t) d = (
    λ h. (
      ground (arith, eq_refl "pat"),
      ground (arith, eq_refl "pat"),
      (
        t,
        refl,
        ground (
          arith,
          eq_refl "pat",
          eq_iff r.scope_type "",
          eq_iff r.scope_target "",
          eq_iff r.scope_type t.scope_type,
          eq_iff r.scope_target t.target,
        ),
      ),
    ),
    λ h. ground (
      arith,
      eq_refl "pat",
      eq_iff r.scope_type "",
      eq_iff r.scope_target "",
      eq_iff r.scope_type t.scope_type,
      eq_iff r.scope_target t.target,
    ),
  )

  -- Where authentication is not switched off, an access token of the OAuth engine reaches a
  -- handler behind the test for a target exactly when it has the scope, whatever the target.
  pub require_scope_for_target-context_with_oauth :
      (c c' : Context) (r : AccessRequest) (target : Option Target)
      → is_auth_disabled c ≡ false
      → (require_scope_for_target has scope target (context_with_oauth r c) ≡ next c')
        ↔ ((c' ≡ context_with_oauth r c) × (has r.granted_scopes scope ≡ true))
  unfolding require_scope_for_target require_scope is_auth_disabled get_scopes get_auth_source
      context_with_oauth
  require_scope_for_target-context_with_oauth c c' r target d =
      (λ h. ground arith, λ h. ground arith)
