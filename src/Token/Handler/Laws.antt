-- ===== src/Token/Handler/Laws.antt =====
-- Which event each answer of the token endpoint is audited by.
use mcp_kit.Prelude.{
  ℕ, String, Bool, true, false, ◌&&◌, ◌≡◌, ◌⊎◌, inl, inr, refl, ap, sym, Option, none, some, List,
  ◌∷◌, ltb, ◌==◌, eq_iff, Bool-cases, if◌then◌else◌,
}
use mcp_kit.Audit.{Event}
use mcp_kit.Storage.Json.{Form}
use mcp_kit.Consent.Params.{get}
use mcp_kit.Token.Replay.{
  ReplayedTokenResponse, RefreshReplayCache, TokenResponseRecorder, recorded, Answer, exchanged,
  replied, exchange_failed, Joined,
}
use mcp_kit.Token.Handler.{
  TokenMetadata, Executed, Body, parsed, too_large, invalid_form, TokenRequest, Reply, http_error,
  written, Provider, recorder_of, execute_token_request, refresh_replay_key, rotation_audit, told,
  plain, refreshed, handled, token_handler, executed_event,
}
use mcp_kit.Token.Handler.Events.{
  IsExecuted, IsReplay, rotation_audit-TellsRotation, replay_event-IsReplay,
  executed_event-IsExecuted,
}
use mcp_kit.Token.Handler.Exchanges.{
  IsIdle, Exchanges, handle_replayable_refresh-Exchanges, wait_for_refresh-Exchanges,
}

left_of : (a b : Bool) → (a && b) ≡ true → a ≡ true
left_of true b h = refl
left_of false b h = h

either_holds :
    {A : Type 0} (P : A → Type 0) (b : Bool) (x y : A) → P x → P y → P (if b then x else y)
either_holds P true x y px py = px
either_holds P false x y px py = py

module _ {W : Type 0} (execute : Form → W → Executed × W) (hex_sha256 : String → String)
    (replay_window : ℕ) (flight : Option (Joined (W × List (Event TokenMetadata))))
    (r : TokenRequest) (p : Provider W) where
  -- Whether the request is one that a stored response may answer.
  abbrev pub refreshes : Form → Bool
  refreshes form = get "grant_type" form == "refresh_token" && ltb 0 replay_window

  -- The engine is asked for the form, and one event tells of what it made.
  abbrev pub Asked : Form → ReplayedTokenResponse → Provider W → Type 0
  Asked form response q =
      (e : Event TokenMetadata) × (response ≡ recorded (recorder_of (execute form p.engine).0))
      × (q.engine ≡ (execute form p.engine).1)
      × (q.emitted ≡ e ∷ p.emitted)
      × IsExecuted hex_sha256 replay_window r form (execute form p.engine).0 e

  -- The request is a refresh, the engine is not asked, and one event tells of a replay.
  abbrev pub Replayed : Form → ReplayedTokenResponse → Provider W → Type 0
  Replayed form response q =
      (e : Event TokenMetadata) × (before : W × List (Event TokenMetadata)) × (refreshes form
        ≡ true)
      × IsIdle flight (p.engine, p.emitted) before
      × (q.engine ≡ before.0)
      × (q.emitted ≡ e ∷ before.1)
      × IsReplay hex_sha256 replay_window r form response e

  -- The request is a refresh, and the response is that of the flight of another request: the engine
  -- is not asked, and no event tells of it.
  abbrev pub Shared : Form → ReplayedTokenResponse → Provider W → Type 0
  Shared form response q =
      (j : Joined (W × List (Event TokenMetadata))) × (c : RefreshReplayCache) × (refreshes form
        ≡ true)
      × (flight ≡ some j)
      × (response ≡ j.response)
      × ((q.engine, q.emitted) ≡ (j.others (c, (p.engine, p.emitted))).1)

  abbrev pub Audited : Reply × Provider W → Type 0
  Audited a =
      ((status : ℕ) × (a.0 ≡ http_error status)
        × IsIdle flight (p.engine, p.emitted) (a.1.engine, a.1.emitted))
      ⊎ ((form : Form) × (response : ReplayedTokenResponse) × (r.method ≡ "POST")
          × (r.body ≡ parsed form)
          × (a.0 ≡ written response)
          × (Asked form response a.1 ⊎ (Replayed form response a.1 ⊎ Shared form response a.1)))

  abbrev exchange_of :
      Form
      → W × List (Event TokenMetadata)
      → TokenResponseRecorder × (W × List (Event TokenMetadata))
  exchange_of form =
      execute_token_request execute hex_sha256 replay_window form "refresh_token" r.audited_at
        (rotation_audit execute hex_sha256 replay_window form r.clock)

  refreshed-Exchanges :
      (form : Form) (o : Option (Joined (W × List (Event TokenMetadata))))
      → flight ≡ o
      → Exchanges flight
          (exchange_of form)
          (p.engine, p.emitted)
          (refreshed execute hex_sha256 replay_window form r o (p.cache, (p.engine, p.emitted)))
  refreshed-Exchanges form none is =
      handle_replayable_refresh-Exchanges flight (exchange_of form) replay_window
        (refresh_replay_key hex_sha256) (get "client_id" form) (get "refresh_token" form) r.clock
        p.cache (p.engine, p.emitted)
  refreshed-Exchanges form (some j) is =
      either_holds (Exchanges flight (exchange_of form) (p.engine, p.emitted))
        (get "refresh_token" form == "") _ _
        (handle_replayable_refresh-Exchanges flight (exchange_of form) replay_window
          (refresh_replay_key hex_sha256) (get "client_id" form) (get "refresh_token" form) r.clock
          p.cache (p.engine, p.emitted))
        (wait_for_refresh-Exchanges flight (exchange_of form) j is
          (refresh_replay_key hex_sha256 (get "client_id" form) (get "refresh_token" form))
          r.clock.now p.cache (p.engine, p.emitted))

  asked :
      (form : Form)
      → refreshes form ≡ true
      → get "grant_type" form ≡ "refresh_token"
      → IsExecuted hex_sha256 replay_window r form (execute form p.engine).0 (
          executed_event "refresh_token"
            (get "client_id" form)
            r.audited_at
            (rotation_audit execute hex_sha256 replay_window form r.clock)
            (execute form p.engine).0)
  asked form on refresh =
      let told = rotation_audit-TellsRotation hex_sha256 replay_window r form execute on in
      let known =
        executed_event-IsExecuted hex_sha256 replay_window r form
          (rotation_audit execute hex_sha256 replay_window form r.clock) (execute form p.engine).0
          told in
      let same =
        ap
          (λ g.
            executed_event g (get "client_id" form) r.audited_at
              (rotation_audit execute hex_sha256 replay_window form r.clock)
              (execute form p.engine).0)
          (sym refresh) in
      rw same known

  told-Audited :
      (form : Form) (a : Answer × (RefreshReplayCache × (W × List (Event TokenMetadata))))
      → r.method ≡ "POST"
      → r.body ≡ parsed form
      → refreshes form ≡ true
      → get "grant_type" form ≡ "refresh_token"
      → Exchanges flight (exchange_of form) (p.engine, p.emitted) a
      → Audited (told execute hex_sha256 replay_window form r a)
  unfolding execute_token_request
  told-Audited form (exchange_failed, (c, s)) post is on refresh (inl (_, idle)) =
      inl (500, refl, idle)
  told-Audited form (replied x, (c, s)) post is on refresh (inl (e, _)) = absurd (cc)
  told-Audited form (exchanged x, (c, s)) post is on refresh (inl (e, _)) = absurd (cc)
  told-Audited form (replied x, (c, s)) post is on refresh (inr (inl (y, e, idle))) = inr (
    form,
    x,
    post,
    is,
    refl,
    inr (
        inl (
          _,
          s,
          on,
          idle,
          refl,
          refl,
          replay_event-IsReplay hex_sha256 replay_window r form execute x,
        )),
  )
  told-Audited form (exchange_failed, (c, s)) post is on refresh (inr (inl (y, e, _))) = absurd (cc)
  told-Audited form (exchanged x, (c, s)) post is on refresh (inr (inl (y, e, _))) = absurd (cc)
  told-Audited form (exchanged x, (c, s)) post is on refresh
        (inr (inr (inl (j, d, joins, e, same)))) =
      inr (form, x, post, is, refl, inr (inr (j, d, on, joins, cc, same)))
  told-Audited form (replied x, (c, s)) post is on refresh
        (inr (inr (inl (j, d, joins, e, same)))) =
      absurd (cc)
  told-Audited form (exchange_failed, (c, s)) post is on refresh
        (inr (inr (inl (j, d, joins, e, same)))) =
      absurd (cc)
  told-Audited form (exchanged x, (c, s)) post is on refresh (inr (inr (inr (e, same)))) = inr (
    form,
    x,
    post,
    is,
    refl,
    inl (_, cc, ap (λ z. z.0) same, ap (λ z. z.1) same, asked form on refresh),
  )
  told-Audited form (replied x, (c, s)) post is on refresh (inr (inr (inr (e, same)))) = absurd (cc)
  told-Audited form (exchange_failed, (c, s)) post is on refresh (inr (inr (inr (e, same)))) =
      absurd (cc)

  plain-Audited :
      (form : Form)
      → r.method ≡ "POST"
      → r.body ≡ parsed form
      → refreshes form ≡ false
      → Audited (plain execute hex_sha256 replay_window form r p)
  unfolding execute_token_request
  plain-Audited form post is off = inr (
    form,
    _,
    post,
    is,
    refl,
    inl (
      _,
      refl,
      refl,
      refl,
      executed_event-IsExecuted hex_sha256 replay_window r form none (execute form p.engine).0
          (inl (off, refl)),
    ),
  )

  handled-Audited :
      (b : Body)
      → r.method ≡ "POST"
      → r.body ≡ b
      → Audited (handled execute hex_sha256 replay_window flight r b p)
  handled-Audited too_large post is = inl (413, refl, inl refl)
  handled-Audited invalid_form post is = inl (400, refl, inl refl)
  handled-Audited (parsed form) post is = elim (Bool-cases (refreshes form)) [
    | inl e ↦
        let refresh =
          (eq_iff (get "grant_type" form) "refresh_token").0
            (left_of (get "grant_type" form == "refresh_token") (ltb 0 replay_window) e) in
        let a =
          refreshed execute hex_sha256 replay_window form r flight
            (p.cache, (p.engine, p.emitted)) in
        let tells : handled execute hex_sha256 replay_window flight r (parsed form) p
            ≡ told execute hex_sha256 replay_window form r a =
          rw e refl in
        rw tells (told-Audited form a post is e refresh (refreshed-Exchanges form flight refl))
    | inr e ↦
        let tells : handled execute hex_sha256 replay_window flight r (parsed form) p
            ≡ plain execute hex_sha256 replay_window form r p =
          rw e refl in
        rw tells (plain-Audited form post is e)
  ]

  -- Every answer of the token endpoint is one of these. An error status: the engine is not asked,
  -- and no event is emitted. A response to a POST with a form that the engine made: one event tells
  -- of it, whose outcome, client, scopes, error code and rotation are those of the response. A
  -- replay to a refresh within a window: the engine is not asked, and one event tells of the replay,
  -- its age and count. Or the response of a flight that another request made and this one waited
  -- for: the engine is not asked, and no event tells of it. Without such a flight, the engine and
  -- the events are left as they were where the engine is not asked; with one, as the other requests
  -- left them.
  pub token_handler-Audited : Audited (token_handler execute hex_sha256 replay_window flight r p)
  unfolding token_handler
  token_handler-Audited = elim (Bool-cases (r.method == "POST")) [
    | inl e ↦ rw e (handled-Audited r.body ((eq_iff r.method "POST").0 e) refl)
    | inr e ↦ rw e (inl (405, refl, inl refl))
  ]
