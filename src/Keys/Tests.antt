-- ===== src/Keys/Tests.antt =====
-- Runs of the key store, the manager and the rotator, and the theorems at concrete inputs.
use mcp_kit.Prelude.{String, ◌≡◌, refl, arith, true, false, Option, some, [], ◌∷◌, inl}
use mcp_kit.Prelude.Int.{pos}
use mcp_kit.Keys.Memory.{
  SigningKey, MemoryStore, new_memory_store, ok, find_active_signing_key, rotate_signing_key,
  list_verifying_signing_keys, delete_expired_signing_keys, ensure_signing_key,
}
use mcp_kit.Keys.Memory.Invariant.{start, next, rotate, IsWellFormed, Reach-IsWellFormed}
use mcp_kit.Keys.Manager.{
  memory_store, Material, creating, returning, after_find, finish_ensure, generate_signing_key,
  rotate_key_at, jwks, publish,
}
use mcp_kit.Keys.Manager.Laws.{memory_store-IsAtomic, key_of, jwk_of, jwks-rotate_key_at}
use mcp_kit.Keys.Manager.Race.{begun, looked, System, look, create, ensure_race}
use mcp_kit.Keys.Manager.Race
use mcp_kit.Keys.Rotator.{RotationConfig, Round, State, rotate_and_cleanup}
use mcp_kit.Keys.Rotator.Laws.{jwks-rotate_and_cleanup}

abbrev key_a : SigningKey
key_a = key_of (record { kid = "a"; private_key_pem = "A"; public_key_pem = "pa" }) 10

abbrev material_b : Material
material_b = record { kid = "b"; private_key_pem = "B"; public_key_pem = "pb" }

abbrev key_b : SigningKey
key_b = key_of material_b 50

abbrev one_key : MemoryStore
one_key = record { keys = key_a ∷ [] }

abbrev parse : String → Option String
parse s = some s

rotation_run : find_active_signing_key (rotate_signing_key key_b 90 one_key).0 ≡ ok key_b
unfolding find_active_signing_key rotate_signing_key
rotation_run = refl

cleanup_run :
    delete_expired_signing_keys 91 (rotate_signing_key key_b 90 one_key).0
    ≡ (record { keys = key_b ∷ [] }, 1)
unfolding delete_expired_signing_keys rotate_signing_key
cleanup_run = refl

Reach-IsWellFormed_example : IsWellFormed (rotate_signing_key key_b 90 new_memory_store).0
Reach-IsWellFormed_example = Reach-IsWellFormed (next start (rotate key_b 90 refl))

jwks-rotate_key_at_example :
    jwks parse memory_store 60
      (rotate_key_at memory_store (some material_b) (pos 40) 50 50 one_key).1
    ≡ ok (
        jwk_of parse (record { kid = "a"; private_key_pem = "A"; public_key_pem = "pa" }) "pa"
        ∷ jwk_of parse material_b "pb"
        ∷ [])
unfolding jwks list_verifying_signing_keys publish
jwks-rotate_key_at_example =
    jwks-rotate_key_at parse material_b "pb" (pos 40) 50 50 60 one_key _ refl (omega arith) refl

abbrev cfg : RotationConfig
cfg = record { interval = pos 100; grace = pos 40 }

abbrev round : Round
round = record {
  cancelled = false;
  material = some material_b;
  created_at = 50;
  rotated_at = 50;
  emitted_at = 51;
  cleaned_at = 52;
}

abbrev state : State MemoryStore
state = record { keys = one_key; events = [] }

jwks-rotate_and_cleanup_example :
    jwks parse memory_store 60 (rotate_and_cleanup memory_store true cfg round state).keys
    ≡ ok (
        jwk_of parse (record { kid = "a"; private_key_pem = "A"; public_key_pem = "pa" }) "pa"
        ∷ jwk_of parse material_b "pb"
        ∷ [])
unfolding jwks list_verifying_signing_keys publish
jwks-rotate_and_cleanup_example =
    jwks-rotate_and_cleanup parse true cfg round state material_b "pb" 60 _ refl refl refl
      (omega arith) (omega arith) refl

-- Two calls find nothing, and both create; the second is given the key of the first.
abbrev material_a : Material
material_a = record { kid = "a"; private_key_pem = "A"; public_key_pem = "pa" }

abbrev both_missing : System memory_store
both_missing = record {
  state = new_memory_store;
  calls =
      Race.update (Race.update (λ _. begun) 0 (looked (creating key_a))) 1
        (looked (creating key_b));
}

both_missing-Reach : Race.Reach memory_store new_memory_store both_missing
unfolding find_active_signing_key after_find generate_signing_key
both_missing-Reach =
    Race.next (Race.next Race.start (look 0 (some material_a) 10 refl))
      (look 1 (some material_b) 50 refl)

abbrev both_returned : System memory_store
both_returned = record {
  state = record { keys = key_a ∷ [] };
  calls =
      Race.update (Race.update both_missing.calls 0 (looked (returning (ok key_a)))) 1
        (looked (returning (ok key_a)));
}

both_returned-Reach : Race.Reach memory_store new_memory_store both_returned
unfolding ensure_signing_key finish_ensure
both_returned-Reach =
    Race.next (Race.next both_missing-Reach (create 0 key_a refl)) (create 1 key_b refl)

ensure_race_example :
    (key_a ≡ key_a) × (find_active_signing_key (record { keys = key_a ∷ [] }) ≡ ok key_a)
unfolding find_active_signing_key
ensure_race_example =
    ensure_race memory_store memory_store-IsAtomic new_memory_store both_returned 0 1 key_a key_a
      (inl refl) both_returned-Reach refl refl
