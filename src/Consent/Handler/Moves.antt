-- ===== src/Consent/Handler/Moves.antt =====
-- What a request does to the approval tokens.
use mcp_kit.Prelude.{
  String, ◌||◌, ◌≡◌, ◌⊎◌, inl, inr, refl, Option, none, some, ◌==◌, eq_iff, Bool-cases,
}
use mcp_kit.Storage.Json.{Form}
use mcp_kit.Consent.Params.{get, oauth_authorize_values}
use mcp_kit.Consent.Page.{Requester}
use mcp_kit.Consent.Store.{Subject, Consumed, approved, token_invalid, store_failed}
use mcp_kit.Consent.Config.{
  Grants, Begun, begun, challenge_required, begin_failed, Denial, HttpRequest, Config,
}
use mcp_kit.Consent.Handler.{
  complete_approve, granted, responded, handle_login, authenticated, challenged, issued, begin,
  handle_approve, consumed, handle_deny, act, checked, built, handle_post, serve_http,
}

module _ {S : Type 0} (cfg : Config S) (r : HttpRequest) where
  -- A login with the right password, whose subject need not be challenged.
  abbrev pub LoggedIn : Form → Subject → Type 0
  LoggedIn form subject =
      (r.post_form ≡ some form)
      × (get "action" form ≡ "login")
      × (cfg.authenticate (get "username" form) (get "password" form) ≡ some subject)
      × (begin cfg r cfg.challenge subject ≡ begun)

  -- The tokens are left alone, or one call consumes a token, or a login issues one.
  abbrev pub Moves : S → S → Type 0
  Moves s after =
      (after ≡ s)
      ⊎ (((t : String) × (q : Form) × (after
              ≡ (cfg.approval_store.consume r.consume_inputs t q s).1))
          ⊎ ((form : Form) × (subject : Subject) × (q : Form) × LoggedIn form subject
              × (after ≡ (cfg.approval_store.issue r.issue_inputs subject q s).1)))

  respond-store :
      (requester : Requester) (params : Form) (subject : Subject) (grants : Grants) (s : S)
      (o : Option Form)
      → (responded cfg r requester params subject grants s o).store ≡ s
  respond-store requester params subject grants s none = refl
  respond-store requester params subject grants s (some ps) = refl

  grant-store :
      (requester : Requester) (params : Form) (subject : Subject) (s : S) (o : Option String)
      → (granted cfg r requester params subject s o).store ≡ s
  grant-store requester params subject s none = refl
  grant-store requester params subject s (some resource) =
      respond-store requester params subject _ s _

  pub complete_approve-store :
      (requester : Requester) (params : Form) (subject : Subject) (s : S)
      → (complete_approve cfg r requester params subject s).store ≡ s
  unfolding complete_approve
  complete_approve-store requester params subject s =
      elim (Bool-cases (cfg.validate_scopes subject requester.requested_scopes)) [
        | inl v ↦ rw v (grant-store requester params subject s r.resource_url)
        | inr v ↦ rw v refl
      ]

  pub issued-store :
      (requester : Requester) (params : Form) (subject : Subject) (o : Option String × S)
      → (issued cfg r requester params subject o).store ≡ o.1
  issued-store requester params subject (none, s) = refl
  issued-store requester params subject (some token, s) = refl

  consumed-store :
      (requester : Requester) (params : Form) (o : Consumed × S)
      → (consumed cfg r requester params o).store ≡ o.1
  consumed-store requester params (approved subject, s) =
      complete_approve-store requester params subject s
  consumed-store requester params (token_invalid, s) = refl
  consumed-store requester params (store_failed, s) = refl

  challenged-Moves :
      (form : Form) (requester : Requester) (params : Form) (subject : Subject) (s : S) (o : Begun)
      → r.post_form ≡ some form
      → get "action" form ≡ "login"
      → cfg.authenticate (get "username" form) (get "password" form) ≡ some subject
      → begin cfg r cfg.challenge subject ≡ o
      → Moves s (challenged cfg r requester params subject s o).store
  challenged-Moves form requester params subject s begun posted login known b = inr (
      inr
        (form, subject, params, (posted, login, known, b), issued-store requester params subject _))
  challenged-Moves form requester params subject s (challenge_required id) posted login known b =
      inl refl
  challenged-Moves form requester params subject s begin_failed posted login known b = inl refl

  authenticated-Moves :
      (form : Form) (requester : Requester) (params : Form) (s : S) (o : Option Subject)
      → r.post_form ≡ some form
      → get "action" form ≡ "login"
      → cfg.authenticate (get "username" form) (get "password" form) ≡ o
      → Moves s (authenticated cfg r requester params s o).store
  authenticated-Moves form requester params s none posted login known = inl refl
  authenticated-Moves form requester params s (some subject) posted login known =
      elim (Bool-cases (cfg.validate_scopes subject requester.requested_scopes)) [
        | inr v ↦ rw v (inl refl)
        | inl v ↦ elim (Bool-cases (cfg.allows_skip requester subject requester.requested_scopes)) [
          | inl skip ↦ rw (v, skip) (inl (complete_approve-store requester params subject s))
          | inr ask ↦
              rw (v, ask)
                (challenged-Moves form requester params subject s _ posted login known refl)
        ]
      ]

  act-Moves :
      (form : Form) (requester : Requester) (params : Form) (s : S)
      → r.post_form ≡ some form
      → Moves s (act cfg r form requester params s).store
  unfolding handle_login handle_approve handle_deny
  act-Moves form requester params s posted =
      let action = get "action" form in
      elim (Bool-cases (action == "login")) [
        | inl e ↦ elim (Bool-cases (get "username" form == "" || get "password" form == "")) [
          | inl f ↦ rw (e, f) (inl refl)
          | inr f ↦
              rw (e, f)
                (authenticated-Moves form requester params s _ posted ((eq_iff action "login").0 e)
                  refl)
        ]
        | inr e ↦ elim (Bool-cases (action == "approve")) [
          | inl f ↦ rw (e, f) (inr (inl (_, _, consumed-store requester params _)))
          | inr f ↦ elim (Bool-cases (action == "deny")) [
            | inl g ↦ rw (e, f, g) (inr (inl (_, _, refl)))
            | inr g ↦ rw (e, f, g) (inl refl)
          ]
        ]
      ]

  checked-Moves :
      (form : Form) (requester : Requester) (params : Form) (s : S) (o : Option Denial)
      → r.post_form ≡ some form
      → Moves s (checked cfg r form requester params s o).store
  checked-Moves form requester params s none posted = act-Moves form requester params s posted
  checked-Moves form requester params s (some d) posted = inl refl

  built-Moves :
      (form params : Form) (s : S) (o : Option Requester)
      → r.post_form ≡ some form
      → Moves s (built cfg r form params s o).store
  built-Moves form params s none posted = inl refl
  built-Moves form params s (some requester) posted = checked-Moves form requester params s _ posted

  handle_post-Moves :
      (s : S) (o : Option Form) → r.post_form ≡ o → Moves s (handle_post cfg r s o).store
  unfolding handle_post
  handle_post-Moves s none posted = inl refl
  handle_post-Moves s (some form) posted = built-Moves form (oauth_authorize_values form) s _ posted

  pub serve_http-Moves : (s : S) → Moves s (serve_http cfg r s).store
  unfolding serve_http
  serve_http-Moves s = elim (Bool-cases (r.method == "GET")) [
    | inl e ↦ rw e (inl refl)
    | inr e ↦ elim (Bool-cases (r.method == "POST")) [
      | inl f ↦ rw (e, f) (handle_post-Moves s r.post_form refl)
      | inr f ↦ rw (e, f) (inl refl)
    ]
  ]
