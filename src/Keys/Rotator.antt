-- ===== src/Keys/Rotator.antt =====
-- oauth/keys/rotator.go. A duration is a signed number of nanoseconds. The clock and the generated
-- keys are inputs: each round is given what the calls of `Now` return in it, in their order.
pub mod Laws
use mcp_kit.Prelude.{
  ℕ, suc, ◌+◌, ◌*◌, String, Bool, true, false, Option, none, some, List, [], ◌∷◌, ◌++◌, nat_eq,
  if◌then◌else◌,
}
use mcp_kit.Prelude.Int.{ℤ, pos, negsuc, ◌-ℤ◌, ltb_ℤ}
use mcp_kit.Audit.{Event}
use mcp_kit.Keys.Memory.{SigningKey, Result, ok, err, not_found, failed, canceled}
use mcp_kit.Keys.Manager.{Store, Material, rotate_key_at, retire_expired_keys_at}

abbrev pub hour : ℤ
hour = pos 3_600_000_000_000

abbrev pub default_rotation_interval : ℤ
default_rotation_interval = pos 7_776_000_000_000_000

abbrev pub default_rotation_grace : ℤ
default_rotation_grace = pos 172_800_000_000_000

abbrev pub min_rotation_interval : ℤ
min_rotation_interval = hour

abbrev pub min_rotation_grace : ℤ
min_rotation_grace = hour

pub record RotationConfig : Type 0 where
  pub interval : ℤ
  pub grace : ℤ

abbrev is_zero : ℤ → Bool
is_zero (pos n) = nat_eq n 0
is_zero (negsuc n) = false

-- A duration with its default for zero and its lower bound.
abbrev at_least : ℤ → ℤ → ℤ → ℤ
at_least default least d =
    let chosen = if is_zero d then default else d in if ltb_ℤ chosen least then least else chosen

-- `applyDefaults`, less the default of the clock.
unfoldable pub apply_defaults : RotationConfig → RotationConfig
apply_defaults c = record {
  interval = at_least default_rotation_interval min_rotation_interval c.interval;
  grace = at_least default_rotation_grace min_rotation_grace c.grace;
}

-- `age >= Interval`, or the rest of the interval.
abbrev delay_for : ℤ → ℤ → ℤ
delay_for interval age = if ltb_ℤ age interval then interval -ℤ age else pos 0

abbrev delay_of : ℤ → ℕ → Result SigningKey → Result ℤ
delay_of interval now (ok current) = ok (delay_for interval (pos now -ℤ pos current.created_at))
delay_of interval now (err not_found) = ok interval
delay_of interval now (err (failed e)) = err (failed e)
delay_of interval now (err canceled) = err canceled

-- What one round reads from its surroundings.
pub record Round : Type 0 where
  pub cancelled : Bool
  pub material : Option Material
  pub created_at : ℕ
  pub rotated_at : ℕ
  pub emitted_at : ℕ
  pub cleaned_at : ℕ

-- The store, and the events that reached the audit emitter.
pub record State (S : Type 0) : Type 0 where
  pub keys : S
  pub events : List (Event Unit)

abbrev key_rotated : String → ℕ → Event Unit
key_rotated new_kid now = record {
  entity_type = "oauth_key";
  actor_user_id = none;
  entity_id = new_kid;
  action = "rotated";
  client_id = "";
  scope = "";
  metadata = tt;
  timestamp = now;
}

module _ {S : Type 0} (store : Store S) (has_emitter : Bool) (cfg : RotationConfig) where
  unfoldable pub delay_until_first_rotation : ℕ → S → Result ℤ
  unfolding ◌-ℤ◌
  delay_until_first_rotation now s = delay_of cfg.interval now (store.find_active s)

  abbrev or_interval : Result ℤ → ℤ
  or_interval (ok delay) = delay
  or_interval (err e) = cfg.interval

  -- The delay with which `Run` arms its timer.
  unfoldable pub first_delay : ℕ → S → ℤ
  unfolding delay_until_first_rotation
  first_delay now s = or_interval (delay_until_first_rotation now s)

  -- `emitKeyRotated`; a failure of the emitter is only logged.
  unfoldable pub emit_key_rotated : String → ℕ → List (Event Unit) → List (Event Unit)
  emit_key_rotated new_kid now events =
      if has_emitter then events ++ key_rotated new_kid now ∷ [] else events

  abbrev clean_up : ℕ → State S → State S
  clean_up now y = record y { keys = (retire_expired_keys_at store now y.keys).1 }

  abbrev after_rotation : Round → Result SigningKey → State S → State S
  after_rotation r (ok created) y =
      clean_up r.cleaned_at
        (record y { events = emit_key_rotated created.kid r.emitted_at y.events })
  after_rotation r (err canceled) y = y
  after_rotation r (err not_found) y = clean_up r.cleaned_at y
  after_rotation r (err (failed e)) y = clean_up r.cleaned_at y

  unfoldable pub rotate_and_cleanup : Round → State S → State S
  unfolding rotate_key_at retire_expired_keys_at emit_key_rotated
  rotate_and_cleanup r y =
      if r.cancelled
      then y
      else let (result, keys) =
          rotate_key_at store r.material cfg.grace r.created_at r.rotated_at y.keys in
        after_rotation r result (record y { keys = keys })

  -- The loop of `Run`: a round for each time that the timer fires before the context is done.
  unfoldable pub run : List Round → State S → State S
  unfolding rotate_and_cleanup
  run [] y = y
  run (r ∷ rs) y = run rs (rotate_and_cleanup r y)
