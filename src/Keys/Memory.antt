-- ===== src/Keys/Memory.antt =====
-- oauth/keys/memory.go, and the types of oauth/keys/manager.go that it stores.
-- An instant is a number of nanoseconds; a method returns the new store and its result.
pub mod Invariant
pub mod Grace
pub mod Retire
use mcp_kit.Prelude.{
  ℕ, suc, String, Bool, false, not, ◌&&◌, ◌||◌, Option, none, some, List, [], ◌∷◌, ◌++◌, map, ltb,
  if◌then◌else◌,
}

-- The persisted signing key.
pub record SigningKey : Type 0 where
  pub kid : String
  pub algorithm : String
  pub private_key_pem : String
  pub public_key_pem : String
  pub is_active : Bool
  pub created_at : ℕ
  pub retired_at : Option ℕ

-- `ErrNotFound`, `context.Canceled`, or any other failure of a store.
pub data StoreError : Type 0 where
  not_found : StoreError
  canceled : StoreError
  failed : String → StoreError

pub data Result {ℓ} (A : Type ℓ) : Type ℓ where
  ok : A → Result A
  err : StoreError → Result A

pub record MemoryStore : Type 0 where
  pub keys : List SigningKey

abbrev pub new_memory_store : MemoryStore
new_memory_store = record { keys = [] }

unfoldable pub first_active : List SigningKey → Option SigningKey
first_active [] = none
first_active (k ∷ ks) = if k.is_active then some k else first_active ks

abbrev or_not_found : Option SigningKey → Result SigningKey
or_not_found none = err not_found
or_not_found (some k) = ok k

unfoldable pub find_active_signing_key : MemoryStore → Result SigningKey
unfolding first_active
find_active_signing_key s = or_not_found (first_active s.keys)

abbrev ensured : MemoryStore → SigningKey → Option SigningKey → MemoryStore × SigningKey
ensured s key none = (record { keys = s.keys ++ key ∷ [] }, key)
ensured s key (some existing) = (s, existing)

unfoldable pub ensure_signing_key : SigningKey → MemoryStore → MemoryStore × SigningKey
unfolding first_active
ensure_signing_key key s = ensured s key (first_active s.keys)

-- The body of the loop of `RotateSigningKey`.
unfoldable pub retire : ℕ → SigningKey → SigningKey
retire at k = if k.is_active then record k { is_active = false; retired_at = some at } else k

unfoldable pub rotate_signing_key : SigningKey → ℕ → MemoryStore → MemoryStore × SigningKey
unfolding retire
rotate_signing_key replacement retired_at s =
    (record { keys = map (retire retired_at) s.keys ++ replacement ∷ [] }, replacement)

abbrev after : Option ℕ → ℕ → Bool
after none now = false
after (some t) now = ltb now t

abbrev before : Option ℕ → ℕ → Bool
before none now = false
before (some t) now = ltb t now

unfoldable pub verifies : ℕ → SigningKey → Bool
verifies now k = k.is_active || after k.retired_at now

unfoldable pub verifying : ℕ → List SigningKey → List SigningKey
unfolding verifies
verifying now [] = []
verifying now (k ∷ ks) = let rest = verifying now ks in if verifies now k then k ∷ rest else rest

unfoldable pub list_verifying_signing_keys : ℕ → MemoryStore → List SigningKey
unfolding verifying
list_verifying_signing_keys now s = verifying now s.keys

unfoldable pub expired : ℕ → SigningKey → Bool
expired now k = not k.is_active && before k.retired_at now

-- The loop of `DeleteExpiredSigningKeys`: the keys kept, and the number deleted.
unfoldable pub sweep : ℕ → List SigningKey → List SigningKey × ℕ
unfolding expired
sweep now [] = ([], 0)
sweep now (k ∷ ks) =
    let rest = sweep now ks in if expired now k then (rest.0, suc rest.1) else (k ∷ rest.0, rest.1)

unfoldable pub delete_expired_signing_keys : ℕ → MemoryStore → MemoryStore × ℕ
unfolding sweep
delete_expired_signing_keys now s =
    let rest = sweep now s.keys in (record { keys = rest.0 }, rest.1)
