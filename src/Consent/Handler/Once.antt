-- ===== src/Consent/Handler/Once.antt =====
-- One approval for one token, across the requests of the handler.
use mcp_kit.Prelude.{
  String, Bool, true, false, ◌≡◌, ◌≢◌, ◌⊎◌, inl, inr, refl, sym, ◌∙◌, some, List, [], ◌∷◌, eq_iff,
}
use mcp_kit.Storage.Json.{Form}
use mcp_kit.Consent.Params.{get, oauth_authorize_values}
use mcp_kit.Consent.Store.{Subject, approved, IsSingleUse}
use mcp_kit.Consent.Store.Once.{Steps, done, consume_once}
use mcp_kit.Consent.Store.Once
use mcp_kit.Consent.Config.{Minted, HttpRequest, Config}
use mcp_kit.Consent.Handler.{serve_http}
use mcp_kit.Consent.Handler.Moves.{serve_http-Moves}
use mcp_kit.Consent.Handler.Laws.{serve_http-Served}

List-cases : {A : Type 0} (xs : List A) → (xs ≡ []) ⊎ ((x : A) × (ys : List A) × (xs ≡ x ∷ ys))
List-cases [] = inl refl
List-cases (x ∷ ys) = inr (x, ys, refl)

module _ {S : Type 0} (cfg : Config S) where
  -- Requests, in none of which the store can issue the token `t`.
  pub data Requests (t : String) (s : S) : S → Type 0 where
    start : Requests t s s
    served :
        {at : S} (r : HttpRequest)
        → Requests t s at
        → ((subject : Subject) (q : Form)
            → (cfg.approval_store.issue r.issue_inputs subject q at).0 ≢ some t)
        → Requests t s (serve_http cfg r at).store

  Requests-Steps :
      (t : String) {s after : S} → Requests t s after → Steps cfg.approval_store t s after
  Requests-Steps t start = done
  Requests-Steps t (served {at = at} r rs fresh) = elim (serve_http-Moves cfg r at) [
    | inl e ↦ rw e (Requests-Steps t rs)
    | inr (inl (u, q, e)) ↦ rw e (Once.consumed r.consume_inputs u q (Requests-Steps t rs))
    | inr (inr (_, subject, q, _, e)) ↦
        rw e (Once.issued r.issue_inputs subject q (Requests-Steps t rs) (fresh subject q))
  ]

  -- A request to approve with a token.
  abbrev pub ApprovesWith : HttpRequest → Form → String → Type 0
  ApprovesWith r form t =
      (r.post_form ≡ some form) × (get "action" form ≡ "approve") × (get "approval_token" form ≡ t)

  approval-consume :
      (r : HttpRequest) (form : Form) (t : String) (s : S) (m : Minted) (ms : List Minted)
      → ApprovesWith r form t
      → (serve_http cfg r s).minted ≡ m ∷ ms
      → (q : Form) × (subject : Subject) × (at : S) × (cfg.approval_store.consume r.consume_inputs t
            q s
          ≡ (approved subject, at))
        × ((serve_http cfg r s).store ≡ at)
  approval-consume r form t s m ms (posted, action, token) h = elim (serve_http-Served cfg r s) [
    | inl (none_made, _) ↦ absurd (cc)
    | inr (f, requester, _, is, _, _, inl (_, none_made, _)) ↦ absurd (cc)
    | inr (f, requester, _, is, _, _, inr (subject, at, inl (_, consumed), made)) ↦
        let same : f ≡ form = cc in
        let (_, _, _, _, _, store) = made in
        (oauth_authorize_values f, subject, at, rw (← token, ← same) consumed, store)
    | inr (f, requester, _, is, _, _, inr (subject, at, inr (login, _, _, _), made)) ↦
        let same : f ≡ form = cc in
        let both : get "action" form ≡ "login" = rw (← same) login in
        let equal : false ≡ true = (eq_iff "login" "approve").1 (sym both ∙ action) in
        absurd (cc equal)
  ]

  module _ (outstanding : S → String → Bool)
      (once : IsSingleUse cfg.approval_store outstanding) where
    -- Over a store that keeps its contract: after a request to approve with a token has made the
    -- engine issue a response, another such request makes none, whatever requests come in between,
    -- unless the store issues the same token again.
    pub serve_http_once :
        (q r : HttpRequest) (f g : Form) (t : String) (s after : S) (m : Minted) (ms : List Minted)
        → ApprovesWith q f t
        → (serve_http cfg q s).minted ≡ m ∷ ms
        → Requests t (serve_http cfg q s).store after
        → ApprovesWith r g t
        → (serve_http cfg r after).minted ≡ []
    serve_http_once q r f g t s after m ms approves made between again =
        elim (List-cases (serve_http cfg r after).minted) [
          | inl e ↦ e
          | inr (n, ns, e) ↦
              let (p, one, at, consumed, store) = approval-consume q f t s m ms approves made in
              let (p', two, at', consumed', store') = approval-consume r g t after n ns again e in
              let first : (cfg.approval_store.consume q.consume_inputs t p s).0 ≡ approved one =
                rw consumed refl in
              let from : Steps cfg.approval_store t
                  (cfg.approval_store.consume q.consume_inputs t p s).1 after =
                rw consumed (rw store at (Requests-Steps t between)) in
              absurd (
                consume_once cfg.approval_store outstanding once q.consume_inputs r.consume_inputs t
                  p p' s after one two first from (rw consumed' refl))
        ]
