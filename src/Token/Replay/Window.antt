-- ===== src/Token/Replay/Window.antt =====
-- One client that sends a refresh token twice.
use mcp_kit.Prelude.{
  ℕ, ◌+◌, ◌≤◌, ◌<◌, String, false, ◌≡◌, ◌≢◌, ◌⊎◌, refl, arith, none, some, nat_eq, eq_iff, eq_refl,
}
use mcp_kit.Token.Replay.{
  ReplayedTokenResponse, RefreshReplayCache, TokenResponseRecorder, Clock, Answer, exchanged,
  replied, counted, write, replay, set, recorded, store_refresh_replay, rotate,
  handle_replayable_refresh,
}

-- The entry that a successful exchange leaves.
abbrev pub entry_of : ℕ → TokenResponseRecorder → ℕ → ReplayedTokenResponse
entry_of replay_window r rotation_at = record (recorded r) {
  rotated_at = rotation_at;
  expires_at = rotation_at + replay_window;
}

abbrev pub IsSuccess : TokenResponseRecorder → Type 0
IsSuccess r = (r.status ≡ 0) ⊎ ((200 ≤ r.status) × (r.status < 300))

abbrev pub IsFailure : TokenResponseRecorder → Type 0
IsFailure r = (r.status ≢ 0) × ((r.status < 200) ⊎ (300 ≤ r.status))

pub entries-store_refresh_replay :
    (replay_window : ℕ) (key : String) (r : TokenResponseRecorder) (rotation_at : ℕ)
    (c : RefreshReplayCache)
    → IsSuccess r
    → (store_refresh_replay replay_window key (recorded r) rotation_at c).entries key
      ≡ some (entry_of replay_window r rotation_at)
unfolding store_refresh_replay recorded set write
entries-store_refresh_replay replay_window key r rotation_at c ok = ground (arith, eq_refl key)

replay-none :
    (key : String) (now : ℕ) (c : RefreshReplayCache)
    → c.entries key ≡ none
    → replay key now c ≡ (none, c)
unfolding replay
replay-none key now c h = ground arith

pub replay-some :
    (key : String) (now : ℕ) (c : RefreshReplayCache) (e : ReplayedTokenResponse)
    → c.entries key ≡ some e
    → now < e.expires_at
    → replay key now c ≡ (some (counted now e), write key (some (counted now e)) c)
unfolding replay
replay-some key now c e h t = ground arith

module _ {W : Type 0} (exchange : W → TokenResponseRecorder × W) (replay_window : ℕ)
    (key_of : String → String → String) (client_id refresh_token : String) where
  abbrev pub handled : Clock → RefreshReplayCache × W → Answer × (RefreshReplayCache × W)
  handled = handle_replayable_refresh exchange replay_window key_of client_id refresh_token

  nonzero : (r : TokenResponseRecorder) → nat_eq (recorded r).status 0 ≡ false
  unfolding recorded
  nonzero r = ground arith

  -- A request that finds no entry exchanges the token.
  handled-none :
      (clock : Clock) (c : RefreshReplayCache) (w : W)
      → refresh_token ≢ ""
      → c.entries (key_of client_id refresh_token) ≡ none
      → handled clock (c, w) ≡ (
        exchanged (recorded (exchange w).0),
        (
          store_refresh_replay replay_window
              (key_of client_id refresh_token)
              (recorded (exchange w).0)
              clock.rotation_at
              c,
          (exchange w).1,
        ),
      )
  unfolding handle_replayable_refresh rotate
  handled-none clock c w named h = ground (
    arith,
    eq_iff refresh_token "",
    replay-none (key_of client_id refresh_token) clock.now c h,
    replay-none (key_of client_id refresh_token) clock.rechecked c h,
    nonzero (exchange w).0,
  )

  -- A request that finds an entry within its time is answered from it.
  handled-some :
      (clock : Clock) (c : RefreshReplayCache) (w : W) (e : ReplayedTokenResponse)
      → refresh_token ≢ ""
      → c.entries (key_of client_id refresh_token) ≡ some e
      → clock.now < e.expires_at
      → handled clock (c, w) ≡ (
        replied (counted clock.now e),
        (write (key_of client_id refresh_token) (some (counted clock.now e)) c, w),
      )
  unfolding handle_replayable_refresh
  handled-some clock c w e named h t = ground (
    arith,
    eq_iff refresh_token "",
    replay-some (key_of client_id refresh_token) clock.now c e h t,
  )

  -- Of two requests with one refresh token that is not empty, where the first finds no entry
  -- and its exchange succeeds, and the second comes before the replay window since the rotation
  -- is over, the first is answered with what was exchanged, and the second with the same body,
  -- header and status, counted as the first replay; the second exchanges nothing.
  pub handle_replayable_refresh_twice :
      (first second : Clock) (c : RefreshReplayCache) (w : W)
      → refresh_token ≢ ""
      → c.entries (key_of client_id refresh_token) ≡ none
      → IsSuccess (exchange w).0
      → second.now < first.rotation_at + replay_window
      → ((handled first (c, w)).0 ≡ exchanged (recorded (exchange w).0))
        × ((handled second (handled first (c, w)).1).0
            ≡ replied
                (counted second.now (entry_of replay_window (exchange w).0 first.rotation_at)))
        × ((handled second (handled first (c, w)).1).1.1 ≡ (exchange w).1)
  handle_replayable_refresh_twice first second c w named h ok t =
      let key = key_of client_id refresh_token in
      let r = (exchange w).0 in
      let c2 = store_refresh_replay replay_window key (recorded r) first.rotation_at c in
      let one = handled-none first c w named h in
      let held = entries-store_refresh_replay replay_window key r first.rotation_at c ok in
      let two =
        handled-some second c2 (exchange w).1 (entry_of replay_window r first.rotation_at) named
          held t in
      rw (one, two) (refl, refl, refl)

  entries-store_refresh_replay_failed :
      (key : String) (r : TokenResponseRecorder) (rotation_at : ℕ) (c : RefreshReplayCache)
      → IsFailure r
      → store_refresh_replay replay_window key (recorded r) rotation_at c ≡ c
  unfolding store_refresh_replay recorded
  entries-store_refresh_replay_failed key r rotation_at c bad = ground arith

  -- Where a request with a refresh token that is not empty finds no entry and its exchange
  -- fails, with a status that is not a success, the failure is answered but not replayed: the
  -- next request with the token, whenever it comes, exchanges it again and is answered with
  -- that.
  pub handle_replayable_refresh_failed :
      (first second : Clock) (c : RefreshReplayCache) (w : W)
      → refresh_token ≢ ""
      → c.entries (key_of client_id refresh_token) ≡ none
      → IsFailure (exchange w).0
      → ((handled first (c, w)).0 ≡ exchanged (recorded (exchange w).0))
        × ((handled second (handled first (c, w)).1).0
            ≡ exchanged (recorded (exchange (exchange w).1).0))
        × ((handled second (handled first (c, w)).1).1.1 ≡ (exchange (exchange w).1).1)
  handle_replayable_refresh_failed first second c w named h bad =
      let key = key_of client_id refresh_token in
      let one = handled-none first c w named h in
      let same = entries-store_refresh_replay_failed key (exchange w).0 first.rotation_at c bad in
      let two = handled-none second c (exchange w).1 named h in
      rw (one, same, two) (refl, refl, refl)
