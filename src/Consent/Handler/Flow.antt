-- ===== src/Consent/Handler/Flow.antt =====
-- The whole flow of a consent: the login and the approval with the token that it issues.
use mcp_kit.Prelude.{◌+◌, ◌*◌, ◌≤◌, ◌<◌, String, true, false, ◌≡◌, refl, some, [], ◌∷◌, ◌==◌}
use mcp_kit.Text.{has_char}
use mcp_kit.Storage.Json.{Form}
use mcp_kit.Consent.Params.{get, params_digest}
use mcp_kit.Consent.Page.{Requester}
use mcp_kit.Consent.Store.{Subject, approval_token_ttl}
use mcp_kit.Consent.HmacStore.{HmacStore, Codec, unix, second, subject_of, token_of, issue}
use mcp_kit.Consent.HmacStore.Tokens.{IsCodec}
use mcp_kit.Consent.HmacStore.Genuine.{consume-issue}
use mcp_kit.Consent.Config.{begun, HttpRequest, Config}
use mcp_kit.Consent.Handler.{handle_login, handle_approve, complete_approve, begin}
use mcp_kit.Consent.Handler.Moves.{issued-store}
use mcp_kit.Consent.Handler.Genuine.{with_store}

module _ (codec : Codec) (base : Config HmacStore) where
  abbrev cfg : Config HmacStore
  cfg = with_store codec base

  -- The tokens after a login that issues one.
  handle_login-store :
      (r : HttpRequest) (f : Form) (requester : Requester) (params : Form) (subject : Subject)
      (s : HmacStore)
      → (get "username" f == "") ≡ false
      → (get "password" f == "") ≡ false
      → cfg.authenticate (get "username" f) (get "password" f) ≡ some subject
      → cfg.validate_scopes subject requester.requested_scopes ≡ true
      → cfg.allows_skip requester subject requester.requested_scopes ≡ false
      → begin cfg r cfg.challenge subject ≡ begun
      → (handle_login cfg r f requester params s).store
        ≡ (issue codec r.issue_inputs subject params s).1
  unfolding handle_login
  handle_login-store r f requester params subject s u p known v ask b =
      rw (u, p, known, v, ask, b) (issued-store cfg r requester params subject _)

  -- A completion to which the policy and the engine agree.
  complete_approve-minted :
      (r : HttpRequest) (requester : Requester) (params ps : Form) (subject : Subject)
      (s : HmacStore) (resource : String)
      → cfg.validate_scopes subject requester.requested_scopes ≡ true
      → r.resource_url ≡ some resource
      → cfg.respond requester
          (record { scopes = requester.requested_scopes; audience = resource ∷ [] })
          subject
        ≡ some ps
      → (complete_approve cfg r requester params subject s).minted
        ≡ record {
          requester = requester;
          grants = record { scopes = requester.requested_scopes; audience = resource ∷ [] };
          subject = subject;
        }
          ∷ []
  unfolding complete_approve
  complete_approve-minted r requester params ps subject s resource v url ok = rw (v, url, ok) refl

  module _ (is_codec : IsCodec codec) where
    -- A login by the right name and password, to whose scopes the policy agrees and which need not
    -- be challenged, and then an approval that carries the token so issued and parameters of the
    -- same digest, before the token expires. The token names a subject with the identifier of the
    -- one that logged in and no other of its fields: where policy and engine agree to the subject
    -- so named, a response is made for it, with the scopes requested and the served resource.
    pub handle_approve-handle_login :
        (r q : HttpRequest) (f g : Form) (requester : Requester) (p p' ps : Form)
        (subject : Subject) (nonce resource : String) (s : HmacStore)
        → (get "username" f == "") ≡ false
        → (get "password" f == "") ≡ false
        → cfg.authenticate (get "username" f) (get "password" f) ≡ some subject
        → cfg.validate_scopes subject requester.requested_scopes ≡ true
        → cfg.allows_skip requester subject requester.requested_scopes ≡ false
        → begin cfg r cfg.challenge subject ≡ begun
        → r.issue_inputs.random ≡ some nonce
        → has_char b'|' nonce ≡ false
        → has_char b'|' subject.id ≡ false
        → get "approval_token" g
          ≡ token_of codec subject p (unix (r.issue_inputs.now + approval_token_ttl)) nonce
        → params_digest codec.hash p' ≡ params_digest codec.hash p
        → q.consume_inputs.first ≤ q.consume_inputs.second
        → q.consume_inputs.second < unix (r.issue_inputs.now + approval_token_ttl) * second
        → cfg.validate_scopes (subject_of codec subject.id) requester.requested_scopes ≡ true
        → q.resource_url ≡ some resource
        → cfg.respond requester
            (record { scopes = requester.requested_scopes; audience = resource ∷ [] })
            (subject_of codec subject.id)
          ≡ some ps
        → (handle_approve cfg q g requester p' (handle_login cfg r f requester p s).store).minted
          ≡ record {
            requester = requester;
            grants = record { scopes = requester.requested_scopes; audience = resource ∷ [] };
            subject = subject_of codec subject.id;
          }
            ∷ []
    unfolding handle_approve
    handle_approve-handle_login r q f g requester p p' ps subject nonce resource s u pw known v ask
          b drawn bar plain token same order early v' url ok =
        let after = handle_login-store r f requester p subject s u pw known v ask b in
        let spent =
          (consume-issue codec is_codec r.issue_inputs q.consume_inputs subject p p' nonce s drawn
            bar plain same order early).1 in
        rw (after, token, spent)
          (complete_approve-minted q requester p' ps (subject_of codec subject.id) _ resource v' url
            ok)
