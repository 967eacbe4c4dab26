-- ===== src/Consent/Handler/Completion.antt =====
-- What completes an approval in the consent handler.
use mcp_kit.Prelude.{
  String, true, ◌≡◌, ◌⊎◌, inl, inr, refl, Option, none, some, [], ◌∷◌, Bool-cases,
}
use mcp_kit.Storage.Json.{Form}
use mcp_kit.Consent.Page.{Requester}
use mcp_kit.Consent.Store.{Subject}
use mcp_kit.Consent.Config.{Grants, Outcome, HttpRequest, Config}
use mcp_kit.Consent.Handler.{consent_event, complete_approve, granted, responded}

module _ {S : Type 0} (cfg : Config S) (r : HttpRequest) where
  -- A completion for a subject: with the scopes and the resource that are granted, and one event.
  abbrev pub Completed : Requester → Form → Subject → S → Outcome S → Type 0
  Completed requester params subject s o =
      (resource : String) × (r.resource_url ≡ some resource)
      × (cfg.validate_scopes subject requester.requested_scopes ≡ true)
      × (o.minted
          ≡ record {
            requester = requester;
            grants = record { scopes = requester.requested_scopes; audience = resource ∷ [] };
            subject = subject;
          }
            ∷ [])
      × (o.emitted
          ≡ consent_event cfg r "oauth.consent.approved" requester subject "approved" params ∷ [])
      × (o.store ≡ s)

  abbrev pub Nothing : Outcome S → Type 0
  Nothing o = (o.minted ≡ []) × (o.emitted ≡ [])

  respond-Completed :
      (requester : Requester) (params : Form) (subject : Subject) (s : S) (resource : String)
      (o : Option Form)
      → r.resource_url ≡ some resource
      → cfg.validate_scopes subject requester.requested_scopes ≡ true
      → let grants : Grants = record {
        scopes = requester.requested_scopes;
        audience = resource ∷ [];
      } in
        Nothing (responded cfg r requester params subject grants s o)
        ⊎ Completed requester params subject s (responded cfg r requester params subject grants s o)
  respond-Completed requester params subject s resource none is v = inl (refl, refl)
  respond-Completed requester params subject s resource (some ps) is v =
      inr (resource, is, v, refl, refl, refl)

  grant-Completed :
      (requester : Requester) (params : Form) (subject : Subject) (s : S) (o : Option String)
      → r.resource_url ≡ o
      → cfg.validate_scopes subject requester.requested_scopes ≡ true
      → Nothing (granted cfg r requester params subject s o)
        ⊎ Completed requester params subject s (granted cfg r requester params subject s o)
  grant-Completed requester params subject s none is v = inl (refl, refl)
  grant-Completed requester params subject s (some resource) is v =
      respond-Completed requester params subject s resource _ is v

  pub complete_approve-Completed :
      (requester : Requester) (params : Form) (subject : Subject) (s : S)
      → Nothing (complete_approve cfg r requester params subject s)
        ⊎ Completed requester params subject s (complete_approve cfg r requester params subject s)
  unfolding complete_approve
  complete_approve-Completed requester params subject s =
      elim (Bool-cases (cfg.validate_scopes subject requester.requested_scopes)) [
        | inl v ↦
            let is : complete_approve cfg r requester params subject s
                ≡ granted cfg r requester params subject s r.resource_url =
              rw v refl in
            rw is (grant-Completed requester params subject s r.resource_url refl v)
        | inr v ↦ rw v (inl (refl, refl))
      ]
