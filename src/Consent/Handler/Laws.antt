-- ===== src/Consent/Handler/Laws.antt =====
-- When the consent handler approves, and what it then grants and reports.
use mcp_kit.Prelude.{
  String, true, ◌||◌, ◌≡◌, ◌⊎◌, inl, inr, refl, ◌∙◌, Option, none, some, List, [], ◌∷◌, ◌==◌,
  eq_iff, Bool-cases,
}
use mcp_kit.Storage.Json.{Form}
use mcp_kit.Consent.Params.{get, oauth_authorize_values, resources_from_values}
use mcp_kit.Consent.Page.{Requester}
use mcp_kit.Consent.Store.{Subject, Consumed, approved, token_invalid, store_failed}
use mcp_kit.Consent.Config.{
  Begun, begun, challenge_required, begin_failed, Denial, Outcome, HttpRequest, Config,
  validate_resource_indicators, check_resources, check_indicators, nobody,
}
use mcp_kit.Consent.Handler.{
  build_authorize_request, consent_event, complete_approve, handle_login, authenticated, challenged,
  issued, handle_approve, consumed, handle_deny, act, checked, built, handle_post, serve_http,
}
use mcp_kit.Consent.Handler.Completion.{Completed, Nothing, complete_approve-Completed}

module _ {S : Type 0} (cfg : Config S) (r : HttpRequest) where
  -- What makes an approval: a token that the store approves, or a login whose consent the policy
  -- skips.
  abbrev pub Decided : Form → Requester → Form → S → Subject → S → Type 0
  Decided form requester params s subject at =
      ((get "action" form ≡ "approve")
        × (cfg.approval_store.consume r.consume_inputs (get "approval_token" form) params s
            ≡ (approved subject, at)))
      ⊎ ((get "action" form ≡ "login")
          × (cfg.authenticate (get "username" form) (get "password" form) ≡ some subject)
          × (cfg.allows_skip requester subject requester.requested_scopes ≡ true)
          × (at ≡ s))

  abbrev pub Approves : Form → Requester → Form → S → Outcome S → Type 0
  Approves form requester params s o =
      (subject : Subject) × (at : S) × Decided form requester params s subject at
      × Completed cfg r requester params subject at o

  abbrev pub Denies : Form → Requester → Form → Outcome S → Type 0
  Denies form requester params o =
      (get "action" form ≡ "deny")
      × (o.minted ≡ [])
      × (o.emitted
          ≡ consent_event cfg r "oauth.consent.denied" requester nobody "denied" params ∷ [])

  abbrev Result : Form → Requester → Form → S → Outcome S → Type 0
  Result form requester params s o =
      Nothing cfg r o ⊎ (Denies form requester params o ⊎ Approves form requester params s o)

  completes :
      (form : Form) (requester : Requester) (params : Form) (s at : S) (subject : Subject)
      → Decided form requester params s subject at
      → Result form requester params s (complete_approve cfg r requester params subject at)
  completes form requester params s at subject d =
      elim (complete_approve-Completed cfg r requester params subject at) [
        | inl n ↦ inl n
        | inr c ↦ inr (inr (subject, at, d, c))
      ]

  issue-Nothing :
      (requester : Requester) (params : Form) (subject : Subject) (o : Option String × S)
      → Nothing cfg r (issued cfg r requester params subject o)
  issue-Nothing requester params subject (none, s) = (refl, refl)
  issue-Nothing requester params subject (some token, s) = (refl, refl)

  challenge-Nothing :
      (requester : Requester) (params : Form) (subject : Subject) (s : S) (o : Begun)
      → Nothing cfg r (challenged cfg r requester params subject s o)
  challenge-Nothing requester params subject s begun = issue-Nothing requester params subject _
  challenge-Nothing requester params subject s (challenge_required id) = (refl, refl)
  challenge-Nothing requester params subject s begin_failed = (refl, refl)

  authenticate-Result :
      (form : Form) (requester : Requester) (params : Form) (s : S) (o : Option Subject)
      → get "action" form ≡ "login"
      → cfg.authenticate (get "username" form) (get "password" form) ≡ o
      → Result form requester params s (authenticated cfg r requester params s o)
  authenticate-Result form requester params s none action is = inl (refl, refl)
  authenticate-Result form requester params s (some subject) action is =
      elim (Bool-cases (cfg.validate_scopes subject requester.requested_scopes)) [
        | inr v ↦ rw v (inl (refl, refl))
        | inl v ↦ elim (Bool-cases (cfg.allows_skip requester subject requester.requested_scopes)) [
          | inl skip ↦
              rw (v, skip)
                (completes form requester params s s subject (inr (action, is, skip, refl)))
          | inr ask ↦ rw (v, ask) (inl (challenge-Nothing requester params subject s _))
        ]
      ]

  consume-Result :
      (form : Form) (requester : Requester) (params : Form) (s : S) (o : Consumed × S)
      → get "action" form ≡ "approve"
      → cfg.approval_store.consume r.consume_inputs (get "approval_token" form) params s ≡ o
      → Result form requester params s (consumed cfg r requester params o)
  consume-Result form requester params s (approved subject, at) action is =
      completes form requester params s at subject (inl (action, is))
  consume-Result form requester params s (token_invalid, at) action is = inl (refl, refl)
  consume-Result form requester params s (store_failed, at) action is = inl (refl, refl)

  handle_login-Result :
      (form : Form) (requester : Requester) (params : Form) (s : S)
      → get "action" form ≡ "login"
      → Result form requester params s (handle_login cfg r form requester params s)
  unfolding handle_login
  handle_login-Result form requester params s action =
      elim (Bool-cases (get "username" form == "" || get "password" form == "")) [
        | inl e ↦ rw e (inl (refl, refl))
        | inr e ↦ rw e (authenticate-Result form requester params s _ action refl)
      ]

  act-Result :
      (form : Form) (requester : Requester) (params : Form) (s : S)
      → Result form requester params s (act cfg r form requester params s)
  unfolding handle_approve handle_deny
  act-Result form requester params s =
      let action = get "action" form in
      elim (Bool-cases (action == "login")) [
        | inl e ↦ rw e (handle_login-Result form requester params s ((eq_iff action "login").0 e))
        | inr e ↦ elim (Bool-cases (action == "approve")) [
          | inl f ↦
              rw (e, f)
                (consume-Result form requester params s _ ((eq_iff action "approve").0 f) refl)
          | inr f ↦ elim (Bool-cases (action == "deny")) [
            | inl g ↦ rw (e, f, g) (inr (inl ((eq_iff action "deny").0 g, refl, refl)))
            | inr g ↦ rw (e, f, g) (inl (refl, refl))
          ]
        ]
      ]

  -- The request is for no resource, or for the one that is served.
  abbrev pub IsTargeted : Form → Type 0
  IsTargeted params =
      (resources_from_values params ≡ [])
      ⊎ ((expected : String) × (r.resource_url ≡ some expected)
          × (resources_from_values params ≡ expected ∷ []))

  check-IsTargeted :
      (o : Option String) (rs : List String)
      → check_resources o rs ≡ none
      → (expected : String) × (o ≡ some expected) × (rs ≡ expected ∷ [])
  check-IsTargeted none rs h = absurd (cc)
  check-IsTargeted (some expected) [] h = absurd (cc)
  check-IsTargeted (some expected) (a ∷ b ∷ rs) h = absurd (cc)
  check-IsTargeted (some expected) (a ∷ []) h = elim (Bool-cases (a == expected)) [
    | inl e ↦ (expected, refl, rw ((eq_iff a expected).0 e) refl)
    | inr e ↦ absurd (cc (rw e at h))
  ]

  targeted :
      (params : Form) (rs : List String)
      → resources_from_values params ≡ rs
      → validate_resource_indicators r.resource_url params ≡ none
      → IsTargeted params
  unfolding validate_resource_indicators
  targeted params [] is h = inl is
  targeted params (a ∷ rs) is h =
      let found : check_indicators r.resource_url (a ∷ rs) ≡ none = rw is at h in
      let (expected, served, e) = check-IsTargeted r.resource_url (a ∷ rs) found in
      inr (expected, served, is ∙ e)

  -- What the handler has done for a request.
  abbrev pub Served : S → Outcome S → Type 0
  Served s o =
      Nothing cfg r o
      ⊎ ((form : Form) × (requester : Requester) × (r.method ≡ "POST")
          × (r.post_form ≡ some form)
          × (build_authorize_request cfg r (oauth_authorize_values form) ≡ some requester)
          × IsTargeted (oauth_authorize_values form)
          × (Denies form requester (oauth_authorize_values form) o
              ⊎ Approves form requester (oauth_authorize_values form) s o))

  built-Served :
      (s : S) (form : Form) (o : Option Requester)
      → r.method ≡ "POST"
      → r.post_form ≡ some form
      → build_authorize_request cfg r (oauth_authorize_values form) ≡ o
      → Served s (built cfg r form (oauth_authorize_values form) s o)
  built-Served s form none post is b = inl (refl, refl)
  built-Served s form (some requester) post is b =
      let params = oauth_authorize_values form in
      checked-Served (validate_resource_indicators r.resource_url params) refl
    where
      checked-Served :
          (o : Option Denial)
          → validate_resource_indicators r.resource_url (oauth_authorize_values form) ≡ o
          → Served s (checked cfg r form requester (oauth_authorize_values form) s o)
      checked-Served (some d) v = inl (refl, refl)
      checked-Served none v = elim (act-Result form requester (oauth_authorize_values form) s) [
        | inl n ↦ inl n
        | inr done ↦
            inr
              (form, requester, post, is, b, targeted (oauth_authorize_values form) _ refl v, done)
      ]

  handle_post-Served :
      (s : S) (o : Option Form)
      → r.method ≡ "POST"
      → r.post_form ≡ o
      → Served s (handle_post cfg r s o)
  unfolding handle_post
  handle_post-Served s none post is = inl (refl, refl)
  handle_post-Served s (some form) post is = built-Served s form _ post is refl

  -- A request either makes the engine issue no response and emits no event; or it is a POST whose
  -- form the engine takes for an authorization request for no resource or for the one that is
  -- served, and then it is a denial, which emits one event and makes no response; or an approval,
  -- of a token that the store approves, or by a login whose consent the policy skips. An approval
  -- makes one response, for the subject so found, whose policy accepts the scopes that are
  -- requested, grants exactly those scopes and the served resource, and emits one event.
  pub serve_http-Served : (s : S) → Served s (serve_http cfg r s)
  unfolding serve_http
  serve_http-Served s = elim (Bool-cases (r.method == "GET")) [
    | inl e ↦ rw e (inl (refl, refl))
    | inr e ↦ elim (Bool-cases (r.method == "POST")) [
      | inl f ↦ rw (e, f) (handle_post-Served s r.post_form ((eq_iff r.method "POST").0 f) refl)
      | inr f ↦ rw (e, f) (inl (refl, refl))
    ]
  ]
