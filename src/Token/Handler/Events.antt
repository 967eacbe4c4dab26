-- ===== src/Token/Handler/Events.antt =====
-- What the audit events of the token endpoint tell.
use Prim.Native.String
use mcp_kit.Prelude.{
  ℕ, ◌/◌, String, true, false, ◌&&◌, ◌≡◌, ◌⊎◌, inl, inr, refl, Option, none, some, List, [], ltb,
  ◌==◌, Bool-cases, if◌then◌else◌,
}
use mcp_kit.Prelude.Int.{sub_ℕ}
use mcp_kit.Audit.{Event}
use mcp_kit.Text.{join}
use mcp_kit.Storage.Json.{Form}
use mcp_kit.Consent.Params.{get}
use mcp_kit.Token.Replay.{ReplayedTokenResponse}
use mcp_kit.Token.Handler.{
  RefreshAudit, TokenMetadata, Executed, request_failed, response_failed, responded, TokenRequest,
  first, seconds, refresh_replay_key, executed_event, rotation_audit, replay_event,
}

module _ (hex_sha256 : String → String) (replay_window : ℕ) (r : TokenRequest) (form : Form) where
  abbrev pub Tells : String → String → String → List String → Event TokenMetadata → Type 0
  Tells entity_type action client_id scopes e =
      (e.entity_type ≡ entity_type)
      × (e.entity_id ≡ "")
      × (e.action ≡ action)
      × (e.actor_user_id ≡ none)
      × (e.client_id ≡ client_id)
      × (e.scope ≡ join " " scopes)
      × (e.timestamp ≡ r.audited_at)

  -- Who is told of, and what the engine made of the request.
  abbrev pub TellsOutcome : Executed → Event TokenMetadata → Type 0
  TellsOutcome (request_failed code known scopes recorder) e =
      Tells "oauth_token_exchange" "failed"
        (if get "client_id" form == "" then known else get "client_id" form) scopes e
      × (e.metadata.error_code ≡ some code)
  TellsOutcome (response_failed code known scopes recorder) e =
      Tells "oauth_token_exchange" "failed" known scopes e × (e.metadata.error_code ≡ some code)
  TellsOutcome (responded known scopes recorder) e =
      ((((get "grant_type" form == "refresh_token") ≡ true)
          × Tells "oauth_refresh" "rotated" known scopes e)
        ⊎ (((get "grant_type" form == "refresh_token") ≡ false)
            × Tells "oauth_token" "issued" known scopes e))
      × (e.metadata.error_code ≡ none)

  -- The key of the refresh token, cut to 32 characters, and the window.
  abbrev pub TellsToken : RefreshAudit → Type 0
  TellsToken a =
      (a.refresh_token_fingerprint
        ≡ first 32 (
            hex_sha256
              (String.◌++◌ (get "client_id" form) (String.◌++◌ "\0" (get "refresh_token" form)))))
      × (a.replay_window_seconds ≡ replay_window / 1000000000)

  -- The rotation is told of exactly where a refresh token is rotated that has a window.
  abbrev pub TellsRotation : Option RefreshAudit → Type 0
  TellsRotation o =
      (((get "grant_type" form == "refresh_token" && ltb 0 replay_window) ≡ false) × (o ≡ none))
      ⊎ (((get "refresh_token" form == "") ≡ true) × (o ≡ none))
      ⊎ ((a : RefreshAudit) × ((get "grant_type" form == "refresh_token" && ltb 0 replay_window)
            ≡ true)
          × ((get "refresh_token" form == "") ≡ false)
          × (o ≡ some a)
          × TellsToken a
          × (a.cache_response_returned ≡ false)
          × (a.rotation_at ≡ r.clock.rotation_at)
          × (a.replay ≡ none))

  abbrev pub IsExecuted : Executed → Event TokenMetadata → Type 0
  IsExecuted done e =
      TellsOutcome done e
      × (e.metadata.grant_type ≡ get "grant_type" form)
      × (e.metadata.replayed ≡ false)
      × TellsRotation e.metadata.refresh

  abbrev pub IsReplay : ReplayedTokenResponse → Event TokenMetadata → Type 0
  IsReplay response e =
      (a : RefreshAudit) × Tells "oauth_refresh" "replayed" (get "client_id" form) [] e
      × (e.metadata.grant_type ≡ "refresh_token")
      × (e.metadata.replayed ≡ true)
      × (e.metadata.error_code ≡ none)
      × (e.metadata.refresh ≡ some a)
      × TellsToken a
      × (a.cache_response_returned ≡ true)
      × (a.rotation_at ≡ response.rotated_at)
      × (a.replay
          ≡ some (
            seconds (sub_ℕ r.clock.now response.rotated_at),
            (response.first_replay_at, response.replay_count),
          ))

  module _ {W : Type 0} (execute : Form → W → Executed × W) where
    pub replay_event-IsReplay :
        (response : ReplayedTokenResponse)
        → IsReplay response
            (replay_event execute hex_sha256 replay_window form r.clock.now r.audited_at response)
    unfolding refresh_replay_key
    replay_event-IsReplay response = (
      _,
      (refl, refl, refl, refl, refl, refl, refl),
      refl,
      refl,
      refl,
      refl,
      (refl, refl),
      refl,
      refl,
      refl,
    )

    pub rotation_audit-TellsRotation :
        (get "grant_type" form == "refresh_token" && ltb 0 replay_window) ≡ true
        → TellsRotation (rotation_audit execute hex_sha256 replay_window form r.clock)
    unfolding refresh_replay_key
    rotation_audit-TellsRotation on = elim (Bool-cases (get "refresh_token" form == "")) [
      | inl e ↦
          let nothing : rotation_audit execute hex_sha256 replay_window form r.clock ≡ none =
            rw e refl in
          inr (inl (e, nothing))
      | inr e ↦ inr (inr (_, on, e, rw e refl, (refl, refl), refl, refl, refl))
    ]

  tells_outcome :
      (refresh : Option RefreshAudit) (done : Executed)
      → TellsOutcome done
          (executed_event (get "grant_type" form) (get "client_id" form) r.audited_at refresh done)
  unfolding executed_event
  tells_outcome refresh (request_failed code known scopes recorder) =
      ((refl, refl, refl, refl, refl, refl, refl), refl)
  tells_outcome refresh (response_failed code known scopes recorder) =
      ((refl, refl, refl, refl, refl, refl, refl), refl)
  tells_outcome refresh (responded known scopes recorder) =
      elim (Bool-cases (get "grant_type" form == "refresh_token")) [
        | inl e ↦ (inl (e, (rw e refl, refl, rw e refl, refl, refl, refl, refl)), refl)
        | inr e ↦ (inr (e, (rw e refl, refl, rw e refl, refl, refl, refl, refl)), refl)
      ]

  grant_type_of :
      (refresh : Option RefreshAudit) (done : Executed)
      → (e : Event TokenMetadata)
      → executed_event (get "grant_type" form) (get "client_id" form) r.audited_at refresh done ≡ e
      → (e.metadata.grant_type ≡ get "grant_type" form)
        × (e.metadata.replayed ≡ false)
        × (e.metadata.refresh ≡ refresh)
  unfolding executed_event
  grant_type_of refresh (request_failed code known scopes recorder) e h =
      rw (← h) (refl, refl, refl)
  grant_type_of refresh (response_failed code known scopes recorder) e h =
      rw (← h) (refl, refl, refl)
  grant_type_of refresh (responded known scopes recorder) e h = rw (← h) (refl, refl, refl)

  pub executed_event-IsExecuted :
      (refresh : Option RefreshAudit) (done : Executed)
      → TellsRotation refresh
      → IsExecuted done
          (executed_event (get "grant_type" form) (get "client_id" form) r.audited_at refresh done)
  executed_event-IsExecuted refresh done told =
      let (grant, replayed, same) = grant_type_of refresh done _ refl in
      (tells_outcome refresh done, grant, replayed, rw same told)
