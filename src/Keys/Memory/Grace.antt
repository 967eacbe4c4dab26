-- ===== src/Keys/Memory/Grace.antt =====
-- Which keys verify after a rotation and after a clean-up of oauth/keys/memory.go.
use mcp_kit.Prelude.{
  ℕ, ◌+◌, ◌≤◌, ◌<◌, ◌≡◌, refl, true, false, none, some, List, [], ◌∷◌, ◌++◌, map, arith, length,
}
use mcp_kit.Keys.Memory.{
  SigningKey, MemoryStore, ok, err, not_found, first_active, find_active_signing_key,
  ensure_signing_key, retire, rotate_signing_key, verifying, list_verifying_signing_keys, sweep,
  delete_expired_signing_keys,
}

verifying-append :
    (now : ℕ) (xs ys : List SigningKey)
    → verifying now (xs ++ ys) ≡ verifying now xs ++ verifying now ys
unfolding verifying
verifying-append now [] ys = refl
verifying-append now (x ∷ xs) ys = ground (arith, verifying-append now xs ys)

verifying-retire :
    (now at : ℕ) (ks : List SigningKey)
    → now < at
    → verifying now (map (retire at) ks) ≡ map (retire at) (verifying now ks)
unfolding verifying retire
verifying-retire now at [] h = refl
verifying-retire now at (k ∷ ks) h = ground (arith, verifying-retire now at ks h)

-- Before the instant of retirement that a rotation to an active key sets, the keys that verify
-- are those that verified without the rotation, the active one now retired, and the replacement
-- after them.
pub list_verifying_signing_keys-rotate_signing_key :
    (now at : ℕ) (key : SigningKey) (s : MemoryStore)
    → key.is_active ≡ true
    → now < at
    → list_verifying_signing_keys now (rotate_signing_key key at s).0
      ≡ map (retire at) (list_verifying_signing_keys now s) ++ key ∷ []
unfolding list_verifying_signing_keys rotate_signing_key
list_verifying_signing_keys-rotate_signing_key now at key s a h = ground (
  arith,
  verifying-append now (map (retire at) s.keys) (key ∷ []),
  verifying-retire now at s.keys h,
)

-- The keys of a list that are not active.
abbrev pub inactive : List SigningKey → List SigningKey
inactive [] = []
inactive (k ∷ ks) = elim k.is_active [ true ↦ inactive ks | false ↦ k ∷ inactive ks ]

verifying-retire_past :
    (now at : ℕ) (ks : List SigningKey)
    → at ≤ now
    → verifying now (map (retire at) ks) ≡ inactive (verifying now ks)
unfolding verifying retire
verifying-retire_past now at [] h = refl
verifying-retire_past now at (k ∷ ks) h = ground (arith, verifying-retire_past now at ks h)

-- From the instant of retirement that a rotation to an active key sets, of the keys that verified
-- without the rotation those that were not active still verify, and after them the replacement.
pub list_verifying_signing_keys-rotate_signing_key_past :
    (now at : ℕ) (key : SigningKey) (s : MemoryStore)
    → key.is_active ≡ true
    → at ≤ now
    → list_verifying_signing_keys now (rotate_signing_key key at s).0
      ≡ inactive (list_verifying_signing_keys now s) ++ key ∷ []
unfolding list_verifying_signing_keys rotate_signing_key
list_verifying_signing_keys-rotate_signing_key_past now at key s a h = ground (
  arith,
  verifying-append now (map (retire at) s.keys) (key ∷ []),
  verifying-retire_past now at s.keys h,
)

first_active-retire :
    (at : ℕ) (key : SigningKey) (ks : List SigningKey)
    → key.is_active ≡ true
    → first_active (map (retire at) ks ++ key ∷ []) ≡ some key
unfolding first_active retire
first_active-retire at key [] a = ground arith
first_active-retire at key (k ∷ ks) a = ground (arith, first_active-retire at key ks a)

-- After a rotation the active key is the replacement.
pub find_active_signing_key-rotate_signing_key :
    (at : ℕ) (key : SigningKey) (s : MemoryStore)
    → key.is_active ≡ true
    → find_active_signing_key (rotate_signing_key key at s).0 ≡ ok key
unfolding find_active_signing_key rotate_signing_key
find_active_signing_key-rotate_signing_key at key s a =
    ground (arith, first_active-retire at key s.keys a)

first_active-append :
    (key : SigningKey) (ks : List SigningKey)
    → key.is_active ≡ true
    → first_active ks ≡ none
    → first_active (ks ++ key ∷ []) ≡ some key
unfolding first_active
first_active-append key [] a e = ground arith
first_active-append key (k ∷ ks) a e = ground (arith, first_active-append key ks a)

-- Ensuring a key when there is an active one returns that and changes nothing.
pub ensure_signing_key_found :
    (key k : SigningKey) (s : MemoryStore)
    → find_active_signing_key s ≡ ok k
    → ensure_signing_key key s ≡ (s, k)
unfolding ensure_signing_key find_active_signing_key
ensure_signing_key_found key k s h = ground arith

-- When there is none, the key that is passed becomes the active one.
pub ensure_signing_key_missing :
    (key : SigningKey) (s : MemoryStore)
    → key.is_active ≡ true
    → find_active_signing_key s ≡ err not_found
    → ((ensure_signing_key key s).1 ≡ key)
      × (find_active_signing_key (ensure_signing_key key s).0 ≡ ok key)
unfolding ensure_signing_key find_active_signing_key
ensure_signing_key_missing key s a h = ground (arith, first_active-append key s.keys a)

verifying-sweep :
    (now t : ℕ) (ks : List SigningKey) → now ≤ t → verifying t (sweep now ks).0 ≡ verifying t ks
unfolding verifying sweep
verifying-sweep now t [] h = refl
verifying-sweep now t (k ∷ ks) h = ground (arith, verifying-sweep now t ks h)

-- A clean-up changes the keys that verify at no instant from its own on.
pub list_verifying_signing_keys-delete_expired_signing_keys :
    (now t : ℕ) (s : MemoryStore)
    → now ≤ t
    → list_verifying_signing_keys t (delete_expired_signing_keys now s).0
      ≡ list_verifying_signing_keys t s
unfolding list_verifying_signing_keys delete_expired_signing_keys
list_verifying_signing_keys-delete_expired_signing_keys now t s h = verifying-sweep now t s.keys h

first_active-sweep :
    (now : ℕ) (ks : List SigningKey) → first_active (sweep now ks).0 ≡ first_active ks
unfolding first_active sweep
first_active-sweep now [] = refl
first_active-sweep now (k ∷ ks) = ground (arith, first_active-sweep now ks)

-- A clean-up keeps the active key.
pub find_active_signing_key-delete_expired_signing_keys :
    (now : ℕ) (s : MemoryStore)
    → find_active_signing_key (delete_expired_signing_keys now s).0 ≡ find_active_signing_key s
unfolding find_active_signing_key delete_expired_signing_keys
find_active_signing_key-delete_expired_signing_keys now s =
    ground (arith, first_active-sweep now s.keys)

length-sweep :
    (now : ℕ) (ks : List SigningKey) → length (sweep now ks).0 + (sweep now ks).1 ≡ length ks
unfolding sweep
length-sweep now [] = refl
length-sweep now (k ∷ ks) = ground (arith, length-sweep now ks)

sweep-sweep : (now : ℕ) (ks : List SigningKey) → sweep now (sweep now ks).0 ≡ ((sweep now ks).0, 0)
unfolding sweep
sweep-sweep now [] = refl
sweep-sweep now (k ∷ ks) = ground (arith, sweep-sweep now ks)

-- A clean-up reports the number of keys that are gone, and a second one at the same instant
-- changes nothing and reports none.
pub delete_expired_signing_keys_exact :
    (now : ℕ) (s : MemoryStore)
    → let gone = delete_expired_signing_keys now s in
      (length gone.0.keys + gone.1 ≡ length s.keys)
      × (delete_expired_signing_keys now gone.0 ≡ (gone.0, 0))
unfolding delete_expired_signing_keys
delete_expired_signing_keys_exact now s =
    (length-sweep now s.keys, ground (arith, sweep-sweep now s.keys))
