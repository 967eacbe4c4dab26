-- ===== src/Token/Handler/Exchanges.antt =====
-- What a refresh does with the exchange of its token, alone or in the flight of another.
use mcp_kit.Prelude.{
  ℕ, String, ◌≡◌, ◌⊎◌, inl, inr, refl, Option, none, some, nat_eq, ◌==◌, Bool-cases,
}
use mcp_kit.Token.Replay.{
  ReplayedTokenResponse, RefreshReplayCache, TokenResponseRecorder, recorded, Clock, Answer,
  exchanged, replied, exchange_failed, handle_replayable_refresh, replay, rotate, answered,
  or_rotated, or_flown, Joined, or_shared, landed, or_landed, wait_for_refresh,
}

module _ {W : Type 0} (flight : Option (Joined W)) where
  -- The state without a call of the engine for this request: as it was, or as the other requests
  -- left it when the flight was over that the request waited for.
  abbrev pub IsIdle : W → W → Type 0
  IsIdle w after =
      (after ≡ w)
      ⊎ ((j : Joined W) × (c : RefreshReplayCache) × (flight ≡ some j)
          × (after ≡ (j.others (c, w)).1))

  -- The token is not exchanged, and then there is no answer, or a stored response is replied, or the
  -- response of the flight is shared; or it is, and then its response is the answer.
  abbrev pub Exchanges :
      (W → TokenResponseRecorder × W) → W → Answer × (RefreshReplayCache × W) → Type 0
  Exchanges exchange w a =
      ((a.0 ≡ exchange_failed) × IsIdle w a.1.1)
      ⊎ (((response : ReplayedTokenResponse) × (a.0 ≡ replied response) × IsIdle w a.1.1)
          ⊎ (((j : Joined W) × (c : RefreshReplayCache) × (flight ≡ some j)
                × (a.0 ≡ exchanged j.response)
                × (a.1.1 ≡ (j.others (c, w)).1))
              ⊎ ((a.0 ≡ exchanged (recorded (exchange w).0)) × (a.1.1 ≡ (exchange w).1))))

  module _ (exchange : W → TokenResponseRecorder × W) (replay_window : ℕ) where
    answered-recorded :
        (r : TokenResponseRecorder)
        → answered exchange replay_window (recorded r) ≡ exchanged (recorded r)
    unfolding recorded
    answered-recorded r = elim (Bool-cases (nat_eq r.status 0)) [
      | inl e ↦ rw e refl
      | inr e ↦ rw (e, e) refl
    ]

    rotate-Exchanges :
        (key : String) (at : ℕ) (c : RefreshReplayCache) (w : W)
        → Exchanges exchange w (rotate exchange replay_window key at (c, w))
    unfolding rotate
    rotate-Exchanges key at c w = inr (inr (inr (answered-recorded (exchange w).0, refl)))

    or_rotated-Exchanges :
        (key : String) (at : ℕ) (w : W) (o : Option ReplayedTokenResponse × RefreshReplayCache)
        → Exchanges exchange w (or_rotated exchange replay_window key at w o)
    or_rotated-Exchanges key at w (none, c) = rotate-Exchanges key at c w
    or_rotated-Exchanges key at w (some r, c) = elim (Bool-cases (nat_eq r.status 0)) [
      | inl e ↦ rw e (inl (refl, inl refl))
      | inr e ↦ rw e (inr (inl (r, refl, inl refl)))
    ]

    or_flown-Exchanges :
        (key : String) (clock : Clock) (w : W)
        (o : Option ReplayedTokenResponse × RefreshReplayCache)
        → Exchanges exchange w (or_flown exchange replay_window key clock w o)
    or_flown-Exchanges key clock w (some r, c) = inr (inl (r, refl, inl refl))
    or_flown-Exchanges key clock w (none, c) =
        or_rotated-Exchanges key clock.rotation_at w (replay key clock.rechecked c)

    pub handle_replayable_refresh-Exchanges :
        (key_of : String → String → String) (client_id token : String) (clock : Clock)
        (c : RefreshReplayCache) (w : W)
        → Exchanges exchange w
            (handle_replayable_refresh exchange replay_window key_of client_id token clock (c, w))
    unfolding handle_replayable_refresh
    handle_replayable_refresh-Exchanges key_of client_id token clock c w =
        elim (Bool-cases (token == "")) [
          | inl e ↦ rw e (inr (inr (inr (refl, refl))))
          | inr e ↦ rw e (
              or_flown-Exchanges (key_of client_id token) clock w
                (replay (key_of client_id token) clock.now c))
        ]

  module _ (exchange : W → TokenResponseRecorder × W) (j : Joined W) (joins : flight ≡ some j) where
    or_shared-Exchanges :
        (w after : W) (c : RefreshReplayCache)
        (o : Option ReplayedTokenResponse × RefreshReplayCache)
        → after ≡ (j.others (c, w)).1
        → Exchanges exchange w (or_shared j.response after o)
    or_shared-Exchanges w after c (some r, d) is = inr (inl (r, refl, inr (j, c, joins, is)))
    or_shared-Exchanges w after c (none, d) is = inr (inr (inl (j, c, joins, refl, is)))

    landed-Exchanges :
        (key : String) (now : ℕ) (w : W) (c : RefreshReplayCache)
        → Exchanges exchange w (landed key now j.response (j.others (c, w)))
    landed-Exchanges key now w c = elim (Bool-cases (nat_eq j.response.status 0)) [
      | inl e ↦ rw e (inl (refl, inr (j, c, joins, refl)))
      | inr e ↦
          rw e
            (or_shared-Exchanges w (j.others (c, w)).1 c (replay key now (j.others (c, w)).0) refl)
    ]

    or_landed-Exchanges :
        (key : String) (now : ℕ) (w : W) (o : Option ReplayedTokenResponse × RefreshReplayCache)
        → Exchanges exchange w (or_landed key now j w o)
    or_landed-Exchanges key now w (some r, c) = inr (inl (r, refl, inl refl))
    or_landed-Exchanges key now w (none, c) = landed-Exchanges key now w c

    pub wait_for_refresh-Exchanges :
        (key : String) (now : ℕ) (c : RefreshReplayCache) (w : W)
        → Exchanges exchange w (wait_for_refresh key now j (c, w))
    unfolding wait_for_refresh
    wait_for_refresh-Exchanges key now c w = or_landed-Exchanges key now w (replay key now c)
