-- ===== src/Token/Replay.antt =====
-- The replay cache for refresh requests: `refreshReplayCache` of oauth/provider.go, and
-- `handleReplayableRefresh` of oauth/handlers.go with what it calls. Times are numbers of one unit;
-- `none` is the zero time. The exchange of a token, `executeTokenRequest`, is given as what it
-- records.
pub mod Window
pub mod Flights
use mcp_kit.Prelude.{
  ℕ, ◌+◌, ◌-◌, suc, String, Bool, true, false, not, ◌&&◌, ◌||◌, Option, none, some, List, [], ◌∷◌,
  ltb, leb, nat_eq, contains, ◌==◌, if◌then◌else◌,
}

pub record ReplayedTokenResponse : Type 0 where
  pub body : List ℕ
  pub header : List (String × List String)
  pub status : ℕ
  pub rotated_at : ℕ
  pub first_replay_at : Option ℕ
  pub replay_count : ℕ
  pub expires_at : ℕ

-- `refreshReplayCache.entries`, as the function that looks a key up.
pub record RefreshReplayCache : Type 0 where
  pub entries : String → Option ReplayedTokenResponse

abbrev pub new_refresh_replay_cache : RefreshReplayCache
new_refresh_replay_cache = record { entries = λ _. none }

unfoldable pub write :
    String → Option ReplayedTokenResponse → RefreshReplayCache → RefreshReplayCache
write key v c = record c { entries = λ key'. if key == key' then v else c.entries key' }

-- The entry after one more replay.
abbrev pub counted : ℕ → ReplayedTokenResponse → ReplayedTokenResponse
counted now entry = record entry {
  first_replay_at = elim entry.first_replay_at [ none ↦ some now | some t ↦ some t ];
  replay_count = suc entry.replay_count;
}

abbrev replayed :
    String
    → ℕ
    → RefreshReplayCache
    → Option ReplayedTokenResponse
    → Option ReplayedTokenResponse × RefreshReplayCache
replayed key now c none = (none, c)
replayed key now c (some entry) =
    if not (ltb now entry.expires_at)
    then (none, write key none c)
    else (some (counted now entry), write key (some (counted now entry)) c)

unfoldable pub replay :
    String → ℕ → RefreshReplayCache → Option ReplayedTokenResponse × RefreshReplayCache
unfolding write
replay key now c = replayed key now c (c.entries key)

unfoldable pub set : String → ReplayedTokenResponse → RefreshReplayCache → RefreshReplayCache
unfolding write
set key entry c = write key (some entry) c

-- `tokenResponseRecorder`; the status is 0 until one is written.
pub record TokenResponseRecorder : Type 0 where
  pub header : List (String × List String)
  pub body : List ℕ
  pub status : ℕ

-- `tokenResponseRecorder.replay`.
unfoldable pub recorded : TokenResponseRecorder → ReplayedTokenResponse
recorded r = record {
  body = r.body;
  header = r.header;
  status = if nat_eq r.status 0 then 200 else r.status;
  rotated_at = 0;
  first_replay_at = none;
  replay_count = 0;
  expires_at = 0;
}

unfoldable pub store_refresh_replay :
    ℕ → String → ReplayedTokenResponse → ℕ → RefreshReplayCache → RefreshReplayCache
unfolding set
store_refresh_replay replay_window key response rotation_at c =
    if ltb response.status 200 || leb 300 response.status
    then c
    else set key
        (record {
          body = response.body;
          header = response.header;
          status = response.status;
          rotated_at = rotation_at;
          first_replay_at = none;
          replay_count = 0;
          expires_at = rotation_at + replay_window;
        })
        c

-- The readings of the clock in one request: at its first look, in the flight, and at the rotation.
pub record Clock : Type 0 where
  pub now : ℕ
  pub rechecked : ℕ
  pub rotation_at : ℕ

-- What is written to the client; a replay is audited, with what its entry counts.
pub data Answer : Type 0 where
  exchanged : ReplayedTokenResponse → Answer
  replied : ReplayedTokenResponse → Answer
  exchange_failed : Answer

module _ {W : Type 0} (exchange : W → TokenResponseRecorder × W) (replay_window : ℕ) where
  abbrev pub answered : ReplayedTokenResponse → Answer
  answered r = if nat_eq r.status 0 then exchange_failed else exchanged r

  -- The exchange in a flight, whose result is stored.
  unfoldable pub rotate : String → ℕ → RefreshReplayCache × W → Answer × (RefreshReplayCache × W)
  unfolding recorded store_refresh_replay
  rotate key rotation_at (c, w) =
      let (recorder, w2) = exchange w in
      let response = recorded recorder in
      (answered response, (store_refresh_replay replay_window key response rotation_at c, w2))

  abbrev pub or_rotated :
      String
      → ℕ
      → W
      → Option ReplayedTokenResponse × RefreshReplayCache
      → Answer × (RefreshReplayCache × W)
  or_rotated key rotation_at w (some r, c) =
      (if nat_eq r.status 0 then exchange_failed else replied r, (c, w))
  or_rotated key rotation_at w (none, c) = rotate key rotation_at (c, w)

  abbrev pub or_flown :
      String
      → Clock
      → W
      → Option ReplayedTokenResponse × RefreshReplayCache
      → Answer × (RefreshReplayCache × W)
  or_flown key clock w (some r, c) = (replied r, (c, w))
  or_flown key clock w (none, c) = or_rotated key clock.rotation_at w (replay key clock.rechecked c)

  -- `handleReplayableRefresh` of a request that shares its flight with no other. `key_of` is
  -- `refreshReplayKey`, a digest.
  unfoldable pub handle_replayable_refresh :
      (String → String → String)
      → String
      → String
      → Clock
      → RefreshReplayCache × W
      → Answer × (RefreshReplayCache × W)
  unfolding recorded replay rotate
  handle_replayable_refresh key_of client_id refresh_token clock (c, w) =
      let (recorder, w2) = exchange w in
      if refresh_token == ""
      then (exchanged (recorded recorder), (c, w2))
      else or_flown (key_of client_id refresh_token) clock w
          (replay (key_of client_id refresh_token) clock.now c)

-- A flight of another request for the same key, which a request waits for: its response, and what
-- the other requests do until it is over.
pub record Joined (W : Type 0) : Type 0 where
  pub response : ReplayedTokenResponse
  pub others : RefreshReplayCache × W → RefreshReplayCache × W

module _ {W : Type 0} where
  -- A replay where one is found, and else the response of the flight as it is.
  abbrev pub or_shared :
      ReplayedTokenResponse
      → W
      → Option ReplayedTokenResponse × RefreshReplayCache
      → Answer × (RefreshReplayCache × W)
  or_shared response w (some r, c) = (replied r, (c, w))
  or_shared response w (none, c) = (exchanged response, (c, w))

  abbrev pub landed :
      String
      → ℕ
      → ReplayedTokenResponse
      → RefreshReplayCache × W
      → Answer × (RefreshReplayCache × W)
  landed key now response (c, w) =
      if nat_eq response.status 0
      then (exchange_failed, (c, w))
      else or_shared response w (replay key now c)

  abbrev pub or_landed :
      String
      → ℕ
      → Joined W
      → W
      → Option ReplayedTokenResponse × RefreshReplayCache
      → Answer × (RefreshReplayCache × W)
  or_landed key now j w (some r, c) = (replied r, (c, w))
  or_landed key now j w (none, c) = landed key now j.response (j.others (c, w))

  -- `handleReplayableRefresh` of a request with a refresh token that meets a flight of another.
  unfoldable pub wait_for_refresh :
      String → ℕ → Joined W → RefreshReplayCache × W → Answer × (RefreshReplayCache × W)
  unfolding replay
  wait_for_refresh key now j (c, w) = or_landed key now j w (replay key now c)

-- The keys that a flight of `singleflight.Group` is under way for, beside the cache, and the keys
-- that were exchanged, the last one first.
pub record Shared : Type 0 where
  pub cache : RefreshReplayCache
  pub flying : List String
  pub rotations : List String

unfoldable pub without : String → List String → List String
without key [] = []
without key (x ∷ xs) = let rest = without key xs in if x == key then rest else x ∷ rest

unfoldable pub look : String → ℕ → Shared → Shared
unfolding replay
look key now f = record f { cache = (replay key now f.cache).1 }

abbrev pub begun : String → Shared → Option ReplayedTokenResponse × RefreshReplayCache → Shared
begun key f (some r, c) = record f { cache = c }
begun key f (none, c) = record { cache = c; flying = key ∷ f.flying; rotations = key ∷ f.rotations }

-- A flight takes off: it looks once more, and exchanges the token if it finds nothing.
unfoldable pub begin : String → ℕ → Shared → Shared
unfolding replay
begin key now f = begun key f (replay key now f.cache)

-- The exchange is over, and the flight ends.
unfoldable pub finish : ℕ → String → ℕ → TokenResponseRecorder → Shared → Shared
unfolding without recorded store_refresh_replay
finish replay_window key rotation_at recorder f = record f {
  cache = store_refresh_replay replay_window key (recorded recorder) rotation_at f.cache;
  flying = without key f.flying;
}
