-- ===== src/Keys/Rotator/Laws.antt =====
-- The delays and the rounds of the rotation loop.
use Prim.Native.Nat.{max}
use mcp_kit.Prelude.{
  ℕ, ◌+◌, ◌≤◌, ◌<◌, ◌≡◌, refl, String, Bool, false, Option, some, List, [], ◌∷◌, ◌++◌, arith,
  Bool-cases, Option-cases, inl, inr, ◌∙◌,
}
use mcp_kit.Prelude.Int.{pos, pos_part, ◌≤ℤ◌, add_duration}
use mcp_kit.Keys.Memory.{SigningKey, MemoryStore, ok}
use mcp_kit.Keys.Memory.Invariant.{Reach, next, rotate, delete, IsWellFormed, Reach-IsWellFormed}
use mcp_kit.Keys.Manager.{Store, memory_store, Material, jwks, JsonWebKey}
use mcp_kit.Keys.Manager.Laws.{key_of, jwk_of, jwks-rotate_key_at, jwks-delete_expired}
use mcp_kit.Keys.Rotator.{
  RotationConfig, apply_defaults, min_rotation_interval, min_rotation_grace, first_delay, Round,
  State, rotate_and_cleanup, run,
}

-- Whatever is configured, the interval and the grace period that apply are at least an hour each,
-- and applying the defaults a second time changes nothing.
pub apply_defaults_bounds :
    (c : RotationConfig)
    → (min_rotation_interval ≤ℤ (apply_defaults c).interval)
      × (min_rotation_grace ≤ℤ (apply_defaults c).grace)
      × (apply_defaults (apply_defaults c) ≡ apply_defaults c)
unfolding apply_defaults
apply_defaults_bounds c = (ground arith, ground arith, ground arith)

-- With an interval that is not negative and an active key, the delay before the first rotation is
-- not negative, and ends at the instant at which the active key is one interval old, or now if
-- that has passed.
pub first_delay_exact :
    {S : Type 0} (store : Store S) (has_emitter : Bool) (cfg : RotationConfig) (now : ℕ) (s : S)
    (k : SigningKey)
    → pos 0 ≤ℤ cfg.interval
    → store.find_active s ≡ ok k
    → (pos 0 ≤ℤ first_delay store has_emitter cfg now s)
      × (add_duration now (first_delay store has_emitter cfg now s)
          ≡ max now (k.created_at + pos_part cfg.interval))
unfolding first_delay
first_delay_exact store b cfg now s k h e = rw e (ground arith, ground arith)

-- Take a round that is not cancelled and generates a key whose public part parses. At any time
-- from its clean-up on and within its grace period, the key set published after it is the one
-- published without it, and the new key at its end.
pub jwks-rotate_and_cleanup :
    {P : Type 0} (parse : String → Option P) (has_emitter : Bool) (cfg : RotationConfig) (r : Round)
    (y : State MemoryStore) (m : Material) (p : P) (t : ℕ) (before : List (JsonWebKey P))
    → r.cancelled ≡ false
    → r.material ≡ some m
    → parse m.public_key_pem ≡ some p
    → r.cleaned_at ≤ t
    → t < add_duration r.rotated_at cfg.grace
    → jwks parse memory_store t y.keys ≡ ok before
    → jwks parse memory_store t (rotate_and_cleanup memory_store has_emitter cfg r y).keys
      ≡ ok (before ++ jwk_of parse m p ∷ [])
unfolding rotate_and_cleanup
jwks-rotate_and_cleanup parse b cfg r y m p t before c g h le lt e =
    rw (c, g)
      (jwks-delete_expired parse r.cleaned_at t _ le
        ∙ jwks-rotate_key_at parse m p cfg.grace r.created_at r.rotated_at t y.keys before h lt e)

-- Every round leaves the store in a state that calls of its methods reach.
rotate_and_cleanup-Reach :
    (has_emitter : Bool) (cfg : RotationConfig) (r : Round) (y : State MemoryStore)
    → Reach y.keys
    → Reach (rotate_and_cleanup memory_store has_emitter cfg r y).keys
unfolding rotate_and_cleanup
rotate_and_cleanup-Reach b cfg r y h = elim (Bool-cases r.cancelled) [
  | inl c ↦ rw c h
  | inr c ↦ elim (Option-cases r.material) [
    | inl g ↦ rw (c, g) (next h (delete r.cleaned_at))
    | inr g ↦
        rw (c, g.1)
          (next
            (next h (rotate (key_of g.0 r.created_at) (add_duration r.rotated_at cfg.grace) refl))
            (delete r.cleaned_at))
  ]
]

run-Reach :
    (has_emitter : Bool) (cfg : RotationConfig) (rs : List Round) (y : State MemoryStore)
    → Reach y.keys
    → Reach (run memory_store has_emitter cfg rs y).keys
unfolding run
run-Reach b cfg [] y h = h
run-Reach b cfg (r ∷ rs) y h =
    run-Reach b cfg rs (rotate_and_cleanup memory_store b cfg r y)
      (rotate_and_cleanup-Reach b cfg r y h)

-- However many rounds the loop runs over an in-memory store that calls of the manager reached,
-- and whatever fails in them, at most one key is active afterwards, and each of the others has an
-- instant of retirement.
pub run-IsWellFormed :
    (has_emitter : Bool) (cfg : RotationConfig) (rs : List Round) (y : State MemoryStore)
    → Reach y.keys
    → IsWellFormed (run memory_store has_emitter cfg rs y).keys
run-IsWellFormed b cfg rs y h = Reach-IsWellFormed (run-Reach b cfg rs y h)
