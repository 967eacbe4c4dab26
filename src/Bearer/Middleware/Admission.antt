-- ===== src/Bearer/Middleware/Admission.antt =====
-- Whom the bearer middleware lets through, and what it answers to the others.
use mcp_kit.Prelude.{
  ℕ, ◌≤◌, String, Bool, true, false, ◌≡◌, ◌≢◌, ◌↔◌, ◌⊎◌, inl, inr, refl, sym, arith, Option, none,
  some, List, eq_iff, ◌==◌, Option-cases, Bool-cases,
}
use mcp_kit.Bearer.Context.{
  Context, PatAuthResult, AccessRequest, with_auth_disabled, context_with_pat, context_with_oauth,
}
use mcp_kit.Bearer.Challenge.{Response, ◌++◌, write_bearer_challenge, challenge_head}
use mcp_kit.Bearer.Middleware.{
  BearerConfig, is_open, TokenIntrospector, HttpRequest, next, respond, Recorders,
  extract_bearer_token, validate_pat, bearer, accepted, by_introspection, by_token, rejected,
}

module _ (has : List String → String → Bool) (cfg : BearerConfig) (now : ℕ) where
  -- An access request that is good for this server now.
  abbrev pub IsGood : AccessRequest → Type 0
  IsGood a =
      ((cfg.expected_audience ≡ "") ⊎ (has a.granted_audience cfg.expected_audience ≡ true))
      × ((a.expires_at ≡ 0) ⊎ (now ≤ a.expires_at))

  -- Authentication is switched off by the configuration.
  abbrev pub IsOpen : Type 0
  IsOpen =
      (cfg.introspector ≡ none) × (cfg.token_validator ≡ none) × (cfg.allow_unauthenticated ≡ true)

  -- The token is a personal access token of the validator.
  abbrev pub IsByPat : HttpRequest → Context → Type 0
  IsByPat r c =
      (result : PatAuthResult) × (extract_bearer_token r.authorization ≢ "")
      × (validate_pat cfg.token_validator (extract_bearer_token r.authorization) ≡ some result)
      × (c ≡ context_with_pat result r.context)

  -- The token is no personal access token, and introspects to a good access request.
  abbrev pub IsByOauth : HttpRequest → Context → Type 0
  IsByOauth r c =
      (introspect : TokenIntrospector) × ((a : AccessRequest) × (extract_bearer_token
            r.authorization
          ≢ "")
        × (validate_pat cfg.token_validator (extract_bearer_token r.authorization) ≡ none)
        × (cfg.introspector ≡ some introspect)
        × (introspect (extract_bearer_token r.authorization) ≡ some a)
        × IsGood a
        × (c ≡ context_with_oauth a r.context))

  accepted-eq-next :
      (c c' : Context) (a : AccessRequest)
      → (accepted has cfg now c a ≡ next c') ↔ (IsGood a × (c' ≡ context_with_oauth a c))
  accepted-eq-next c c' a = (
    λ h. ground (arith, eq_iff cfg.expected_audience ""),
    λ h. ground (arith, eq_iff cfg.expected_audience ""),
  )

  by_introspection-eq-next :
      (c c' : Context) (token : String) (o : Option TokenIntrospector)
      → by_introspection has cfg now c token o ≡ next c'
      → (introspect : TokenIntrospector) × ((a : AccessRequest) × (o ≡ some introspect)
          × (introspect token ≡ some a)
          × IsGood a
          × (c' ≡ context_with_oauth a c))
  by_introspection-eq-next c c' token none h = cc
  by_introspection-eq-next c c' token (some f) h = elim (Option-cases (f token)) [
    | inl e ↦ absurd (ground arith)
    | inr (a, e) ↦
        let (good, same) = (accepted-eq-next c c' a).0 (rw e at h) in (f, (a, refl, e, good, same))
  ]

  IsOpen-of_is_open : is_open cfg ≡ true → IsOpen
  IsOpen-of_is_open h = ground arith

  bearer_of_open :
      (r : HttpRequest) (l : Recorders)
      → is_open cfg ≡ true
      → bearer has cfg now r l ≡ (next (with_auth_disabled r.context), l)
  unfolding bearer
  bearer_of_open r l h = rw h

  bearer_of_no_token :
      (r : HttpRequest) (l : Recorders)
      → is_open cfg ≡ false
      → (extract_bearer_token r.authorization == "") ≡ true
      → bearer has cfg now r l ≡ (rejected has cfg, l)
  unfolding bearer
  bearer_of_no_token r l h e = rw (h, e)

  bearer_of_token :
      (r : HttpRequest) (l : Recorders)
      → is_open cfg ≡ false
      → (extract_bearer_token r.authorization == "") ≡ false
      → bearer has cfg now r l
        ≡ by_token has cfg now r.context
            (extract_bearer_token r.authorization)
            l
            (validate_pat cfg.token_validator (extract_bearer_token r.authorization))
  unfolding bearer
  bearer_of_token r l h e = rw (h, e)

  is_open_of_pat :
      (token : String) (result : PatAuthResult)
      → validate_pat cfg.token_validator token ≡ some result
      → is_open cfg ≡ false
  is_open_of_pat token result h = ground arith

  is_open_of_introspector :
      (f : TokenIntrospector) → cfg.introspector ≡ some f → is_open cfg ≡ false
  is_open_of_introspector f h = rw h

  bearer_sound :
      (r : HttpRequest) (l : Recorders) (c : Context)
      → (bearer has cfg now r l).0 ≡ next c
      → (IsOpen × (c ≡ with_auth_disabled r.context)) ⊎ (IsByPat r c ⊎ IsByOauth r c)
  bearer_sound r l c h = elim (Bool-cases (is_open cfg)) [
    | inl o ↦ inl (IsOpen-of_is_open o, cc (bearer_of_open r l o, h))
    | inr o ↦ elim (Bool-cases (extract_bearer_token r.authorization == "")) [
      | inl e ↦ absurd (cc (bearer_of_no_token r l o e, h))
      | inr e ↦
          let token = extract_bearer_token r.authorization in
          let present : token ≢ "" = ground (arith, eq_iff token "") in
          let same = bearer_of_token r l o e in
          elim (Option-cases (validate_pat cfg.token_validator token)) [
            | inl v ↦
                let (f, (a, i, g, good, is)) =
                  by_introspection-eq-next r.context c token cfg.introspector
                    (ground (arith, same)) in
                inr (inr (f, (a, present, v, i, g, good, is)))
            | inr (result, v) ↦ inr (inl (result, present, v, ground (arith, same)))
          ]
    ]
  ]

  bearer_complete :
      (r : HttpRequest) (l : Recorders) (c : Context)
      → (IsOpen × (c ≡ with_auth_disabled r.context)) ⊎ (IsByPat r c ⊎ IsByOauth r c)
      → (bearer has cfg now r l).0 ≡ next c
  bearer_complete r l c (inl ((a, b, d), e)) = ground (arith, bearer_of_open r l)
  bearer_complete r l c (inr (inl (result, n, v, e))) =
      let token = extract_bearer_token r.authorization in
      let present : (token == "") ≡ false = ground (arith, eq_iff token "") in
      rw (bearer_of_token r l (is_open_of_pat token result v) present, v, e)
  bearer_complete r l c (inr (inr (f, (a, n, v, i, g, good, e)))) =
      let token = extract_bearer_token r.authorization in
      let present : (token == "") ≡ false = ground (arith, eq_iff token "") in
      rw (bearer_of_token r l (is_open_of_introspector f i) present, v, i, g)
        ((accepted-eq-next r.context c a).1 (good, e))

  -- The middleware calls the handler in exactly three cases: the configuration has neither kind
  -- of token and allows that; the request has a personal access token; or the request's token
  -- is none of these, and introspects to an access request that has not expired and was granted
  -- for the expected audience, if there is one. The context then has the identity and the
  -- scopes of that token.
  pub bearer-eq-next_iff :
      (r : HttpRequest) (l : Recorders) (c : Context)
      → ((bearer has cfg now r l).0 ≡ next c)
        ↔ ((IsOpen × (c ≡ with_auth_disabled r.context)) ⊎ (IsByPat r c ⊎ IsByOauth r c))
  bearer-eq-next_iff r l c = (bearer_sound r l c, bearer_complete r l c)

  by_introspection-eq-respond :
      (c : Context) (token : String) (o : Option TokenIntrospector) (w : Response)
      → by_introspection has cfg now c token o ≡ respond w
      → respond w ≡ rejected has cfg
  by_introspection-eq-respond c token none w h = sym h
  by_introspection-eq-respond c token (some f) w h = ground arith

  bearer-eq-rejected :
      (r : HttpRequest) (l : Recorders) (w : Response)
      → (bearer has cfg now r l).0 ≡ respond w
      → (respond w ≡ rejected has cfg) × ((bearer has cfg now r l).1 ≡ l)
  bearer-eq-rejected r l w h = elim (Bool-cases (is_open cfg)) [
    | inl o ↦ absurd (cc (bearer_of_open r l o, h))
    | inr o ↦ elim (Bool-cases (extract_bearer_token r.authorization == "")) [
      | inl e ↦ ground (arith, bearer_of_no_token r l o e)
      | inr e ↦
          let token = extract_bearer_token r.authorization in
          let same = bearer_of_token r l o e in
          elim (Option-cases (validate_pat cfg.token_validator token)) [
            | inl v ↦ (
              by_introspection-eq-respond r.context token cfg.introspector w (ground (arith, same)),
              ground (arith, same),
            )
            | inr (result, v) ↦ absurd (ground (arith, same))
          ]
    ]
  ]

  respond-injective : (w w' : Response) → respond w ≡ respond w' → w ≡ w'
  respond-injective w w' h = cc

  -- Whatever the reason, a request that is turned away gets one response, with status 401, the
  -- location of the resource metadata and no scope, and no usage is recorded.
  pub bearer-eq-respond :
      (r : HttpRequest) (l : Recorders) (w : Response)
      → (bearer has cfg now r l).0 ≡ respond w
      → (w.status ≡ 401)
        × (w.error ≡ "invalid_token")
        × (w.www_authenticate
            ≡ challenge_head cfg.resource_metadata_url
              ++ ", error=\"invalid_token\", error_description=\"Missing or invalid access token\"")
        × ((bearer has cfg now r l).1 ≡ l)
  unfolding write_bearer_challenge
  bearer-eq-respond r l w h =
      let (same, kept) = bearer-eq-rejected r l w h in
      let e = respond-injective w _ same in (rw e, rw e, rw e, kept)

  -- The scopes that the configuration requires change nothing: neither who is let through nor what
  -- is answered depends on them.
  pub bearer-required_scopes :
      (scopes : List String) (r : HttpRequest) (l : Recorders)
      → bearer has (record cfg { required_scopes = scopes }) now r l ≡ bearer has cfg now r l
  unfolding bearer write_bearer_challenge
  bearer-required_scopes scopes r l = ground arith
