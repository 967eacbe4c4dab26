-- ===== src/Token/Replay/Flights.antt =====
-- Requests of several clients at once: looks at the cache, flights that begun, begin, and flights that end,
-- in any order. `singleflight` lets a flight begin only for a key that has none under way.
use mcp_kit.Prelude.{
  ℕ, ◌+◌, ◌<◌, String, true, false, ◌≡◌, inl, inr, refl, arith, Option, none, some, List, [], ◌∷◌,
  suc, contains, ◌==◌, eq_iff, Bool-cases, Option-cases, if◌then◌else◌,
}
use mcp_kit.Token.Replay.{
  ReplayedTokenResponse, RefreshReplayCache, TokenResponseRecorder, counted, begun, write, replay,
  set, store_refresh_replay, Shared, without, look, begin, finish,
}
use mcp_kit.Token.Replay.Window.{entry_of, IsSuccess, entries-store_refresh_replay, replay-some}

-- One step, where no clock has reached `until` when it is read for a look.
pub data Step (replay_window until : ℕ) (f : Shared) : Shared → Type 0 where
  looked : (key : String) (now : ℕ) → now < until → Step replay_window until f (look key now f)
  taken_off :
      (key : String) (now : ℕ)
      → now < until
      → contains f.flying key ≡ false
      → Step replay_window until f (begin key now f)
  landed :
      (key : String) (rotation_at : ℕ) (r : TokenResponseRecorder)
      → contains f.flying key ≡ true
      → Step replay_window until f (finish replay_window key rotation_at r f)

pub data Steps (replay_window until : ℕ) (f : Shared) : Shared → Type 0 where
  done : Steps replay_window until f f
  and_then :
      {g h : Shared}
      → Steps replay_window until f g
      → Step replay_window until g h
      → Steps replay_window until f h

-- How often a key was exchanged.
abbrev pub count : String → List String → ℕ
count key [] = 0
count key (x ∷ xs) = let rest = count key xs in if x == key then suc rest else rest

-- The response that the first entry holds, however often it was replayed.
abbrev pub Answers : ReplayedTokenResponse → ReplayedTokenResponse → Type 0
Answers r e =
    (e.body ≡ r.body)
    × (e.header ≡ r.header)
    × (e.status ≡ r.status)
    × (e.rotated_at ≡ r.rotated_at)
    × (e.expires_at ≡ r.expires_at)

-- The key has an entry that answers as `r` and no flight, and was exchanged `n` times.
abbrev pub Holds : String → ReplayedTokenResponse → ℕ → Shared → Type 0
Holds key r n f =
    (contains f.flying key ≡ false)
    × (count key f.rotations ≡ n)
    × ((e : ReplayedTokenResponse) × (f.cache.entries key ≡ some e) × Answers r e)

contains-without : (key : String) (xs : List String) → contains (without key xs) key ≡ false
unfolding contains without
contains-without key [] = refl
contains-without key (x ∷ xs) = ground (arith, contains-without key xs)

contains-without_other :
    (key other : String) (xs : List String)
    → contains xs key ≡ false
    → contains (without other xs) key ≡ false
unfolding contains without
contains-without_other key other [] h = refl
contains-without_other key other (x ∷ xs) h = elim (Bool-cases (x == key)) [
  | inl e ↦ absurd (ground arith)
  | inr e ↦ ground (arith, contains-without_other key other xs)
]

entries-replay_other :
    (key other : String) (now : ℕ) (c : RefreshReplayCache)
    → (other == key) ≡ false
    → (replay other now c).1.entries key ≡ c.entries key
unfolding replay write
entries-replay_other key other now c h = elim (Option-cases (c.entries other)) [
  | inl e ↦ ground arith
  | inr (x, e) ↦ ground arith
]

entries-write :
    (other key : String) (x : ReplayedTokenResponse) (c : RefreshReplayCache)
    → (other == key) ≡ true
    → (write other (some x) c).entries key ≡ some x
unfolding write
entries-write other key x c h = ground arith

-- The entry of a key that is held, after a look for any key.
entries-replay :
    (key other : String) (now : ℕ) (c : RefreshReplayCache) (r e : ReplayedTokenResponse)
    → c.entries key ≡ some e
    → Answers r e
    → now < r.expires_at
    → (x : ReplayedTokenResponse) × ((replay other now c).1.entries key ≡ some x) × Answers r x
entries-replay key other now c r e held is t = elim (Bool-cases (other == key)) [
  | inl same ↦
      let (_, _, _, _, expires) = is in
      let there = replay-some other now c e (rw ((eq_iff other key).0 same) held) (rw expires t) in
      (counted now e, rw there (entries-write other key (counted now e) c same), is)
  | inr differs ↦ (e, rw (entries-replay_other key other now c differs) held, is)
]

entries-finish_other :
    (replay_window : ℕ) (key other : String) (rotation_at : ℕ) (r : TokenResponseRecorder)
    (f : Shared)
    → (other == key) ≡ false
    → (finish replay_window other rotation_at r f).cache.entries key ≡ f.cache.entries key
unfolding finish store_refresh_replay set write
entries-finish_other replay_window key other rotation_at r f h = ground arith

begin-eq-look :
    (key : String) (now : ℕ) (f : Shared) (e : ReplayedTokenResponse)
    → f.cache.entries key ≡ some e
    → now < e.expires_at
    → begin key now f ≡ look key now f
unfolding begin look
begin-eq-look key now f e h t = rw (replay-some key now f.cache e h t) refl

module _ (key : String) (r : ReplayedTokenResponse) (n : ℕ) where
  begun-Holds :
      (other : String) (f : Shared) (x : Option ReplayedTokenResponse × RefreshReplayCache)
      → (other == key) ≡ false
      → contains f.flying key ≡ false
      → count key f.rotations ≡ n
      → ((e : ReplayedTokenResponse) × (x.1.entries key ≡ some e) × Answers r e)
      → Holds key r n (begun other f x)
  unfolding contains
  begun-Holds other f (some a, c) differs fly same held = (fly, same, held)
  begun-Holds other f (none, c) differs fly same held = (ground arith, ground arith, held)

  look-Holds :
      (other : String) (now : ℕ) (f : Shared)
      → now < r.expires_at
      → Holds key r n f
      → Holds key r n (look other now f)
  unfolding look
  look-Holds other now f t (fly, same, (e, held, is)) =
      (fly, same, entries-replay key other now f.cache r e held is t)

  begin-Holds :
      (other : String) (now : ℕ) (f : Shared)
      → now < r.expires_at
      → Holds key r n f
      → Holds key r n (begin other now f)
  unfolding begin
  begin-Holds other now f t (fly, same, (e, held, is)) = elim (Bool-cases (other == key)) [
    | inl equal ↦
        let (_, _, _, _, expires) = is in
        rw (begin-eq-look other now f e (rw ((eq_iff other key).0 equal) held) (rw expires t))
          (look-Holds other now f t (fly, same, (e, held, is)))
    | inr differs ↦
        begun-Holds other f (replay other now f.cache) differs fly same
          (entries-replay key other now f.cache r e held is t)
  ]

  finish-Holds :
      (replay_window : ℕ) (other : String) (rotation_at : ℕ) (a : TokenResponseRecorder)
      (f : Shared)
      → contains f.flying other ≡ true
      → Holds key r n f
      → Holds key r n (finish replay_window other rotation_at a f)
  unfolding finish
  finish-Holds replay_window other rotation_at a f up (fly, same, (e, held, is)) =
      elim (Bool-cases (other == key)) [
        | inl equal ↦ absurd (cc (rw ((eq_iff other key).0 equal) at up))
        | inr differs ↦ (
          contains-without_other key other f.flying fly,
          same,
          (e, rw (entries-finish_other replay_window key other rotation_at a f differs) held, is),
        )
      ]

  Steps-Holds :
      {replay_window : ℕ} {f g : Shared}
      → Steps replay_window r.expires_at f g
      → Holds key r n f
      → Holds key r n g
  Steps-Holds done h = h
  Steps-Holds (and_then ss (looked other now t)) h = look-Holds other now _ t (Steps-Holds ss h)
  Steps-Holds (and_then ss (taken_off other now t fly)) h =
      begin-Holds other now _ t (Steps-Holds ss h)
  Steps-Holds (and_then ss (landed other rotation_at a up)) h =
      finish-Holds _ other rotation_at a _ up (Steps-Holds ss h)

finish-Holds_own :
    (replay_window : ℕ) (key : String) (rotation_at : ℕ) (a : TokenResponseRecorder) (f : Shared)
    → IsSuccess a
    → Holds key
        (entry_of replay_window a rotation_at)
        (count key f.rotations)
        (finish replay_window key rotation_at a f)
unfolding finish
finish-Holds_own replay_window key rotation_at a f ok = (
  contains-without key f.flying,
  refl,
  (
    entry_of replay_window a rotation_at,
    entries-store_refresh_replay replay_window key a rotation_at f.cache ok,
    (refl, refl, refl, refl, refl),
  ),
)

-- When a flight ends with a successful exchange, then as long as no clock has reached the end of the
-- replay window since that rotation, whatever looks, flights and exchanges of this and of other keys
-- follow, the key is not exchanged again, and every look for it finds the response that was
-- exchanged: the same body, header and status.
pub finish-Steps :
    {replay_window : ℕ} (f : Shared) {g : Shared} (key : String) (rotation_at : ℕ)
    (a : TokenResponseRecorder)
    → IsSuccess a
    → Steps replay_window (rotation_at + replay_window) (finish replay_window key rotation_at a f) g
    → (count key g.rotations ≡ count key f.rotations)
      × ((now : ℕ)
          → now < rotation_at + replay_window
          → (e : ReplayedTokenResponse) × ((replay key now g.cache).0 ≡ some (counted now e))
            × Answers (entry_of replay_window a rotation_at) e)
finish-Steps {replay_window} f {g} key rotation_at a ok ss =
    let entry = entry_of replay_window a rotation_at in
    let (_, same, (e, held, is)) =
      Steps-Holds key entry (count key f.rotations) ss
        (finish-Holds_own replay_window key rotation_at a f ok) in
    let (_, _, _, _, expires) = is in
    (same, λ now t. (e, rw (replay-some key now g.cache e held (rw expires t)) refl, is))
