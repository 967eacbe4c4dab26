-- ===== src/Keys/Manager/Laws.antt =====
-- What the manager does over a store that keeps the contract of `Store`, and over `MemoryStore`.
use mcp_kit.Prelude.{
  ℕ, ◌≤◌, ◌<◌, String, ◌≡◌, ◌≢◌, ◌⊎◌, refl, ap, true, Option, none, some, List, [], ◌∷◌, ◌++◌, map,
  arith,
}
use mcp_kit.Prelude.Int.{ℤ, add_duration}
use mcp_kit.Keys.Memory.{SigningKey, MemoryStore, ok, err, not_found, failed, retire}
use mcp_kit.Keys.Memory.Retire.{
  rotate_signing_key_result, kid-retire, algorithm-retire, public_key_pem-retire,
}
use mcp_kit.Keys.Memory.Grace.{
  list_verifying_signing_keys-rotate_signing_key, find_active_signing_key-rotate_signing_key,
  ensure_signing_key_found, ensure_signing_key_missing,
  list_verifying_signing_keys-delete_expired_signing_keys,
}
use mcp_kit.Keys.Manager.{
  Store, memory_store, Material, ensure_key, rotate_key_at, get_active_private_key, JsonWebKey,
  publish, jwks, signing_algorithm, key_use_signature,
}

-- The contract that the comment on `Store` states: both writes are atomic.
pub record IsAtomic {S : Type 0} (store : Store S) : Type 0 where
  pub ensure_found :
      (key k : SigningKey) (s : S) → store.find_active s ≡ ok k → store.ensure key s ≡ (ok k, s)
  pub ensure_missing :
      (key : SigningKey) (s : S)
      → key.is_active ≡ true
      → store.find_active s ≡ err not_found
      → ((store.ensure key s).0 ≡ ok key) × (store.find_active (store.ensure key s).1 ≡ ok key)
  pub rotate_replaces :
      (key : SigningKey) (at : ℕ) (s : S)
      → key.is_active ≡ true
      → ((store.rotate key at s).0 ≡ ok key)
        × (store.find_active (store.rotate key at s).1 ≡ ok key)

-- `MemoryStore` keeps the contract of a key store: `ensure` keeps the active key if there is one
-- and otherwise makes the new key the active one, and a rotation makes its key the active one.
pub memory_store-IsAtomic : IsAtomic memory_store
memory_store-IsAtomic = record {
  ensure_found = λ key k s h. rw (ensure_signing_key_found key k s h);
  ensure_missing = λ key s a h. let p = ensure_signing_key_missing key s a h in (ap ok p.0, p.1);
  rotate_replaces = λ key at s a. (
    ap ok (rotate_signing_key_result at key s),
    find_active_signing_key-rotate_signing_key at key s a,
  );
}

-- The key that the manager makes of generated material.
abbrev pub key_of : Material → ℕ → SigningKey
key_of m now = record {
  kid = m.kid;
  algorithm = signing_algorithm;
  private_key_pem = m.private_key_pem;
  public_key_pem = m.public_key_pem;
  is_active = true;
  created_at = now;
  retired_at = none;
}

module _ {S : Type 0} (store : Store S) (atomic : IsAtomic store) where
  -- Over a store that keeps the contract and has no active key, a call of `EnsureSigningKey`
  -- that generates a key returns it, and a later call returns the same key and changes nothing,
  -- whatever it would generate.
  pub ensure_key_stable :
      (m : Material) (m' : Option Material) (now now' : ℕ) (s : S)
      → store.find_active s ≡ err not_found
      → ((ensure_key store (some m) now s).0 ≡ ok (key_of m now))
        × (ensure_key store m' now' (ensure_key store (some m) now s).1
            ≡ (ok (key_of m now), (ensure_key store (some m) now s).1))
  unfolding ensure_key
  ensure_key_stable m m' now now' s h =
      ground (arith, atomic.ensure_missing (key_of m now) s refl h)

  -- When the lookup fails otherwise, or no key can be generated, the error is returned and the
  -- store is not changed.
  pub ensure_key_error :
      (m : Option Material) (now : ℕ) (s : S) (why : String)
      → (store.find_active s ≡ err (failed why))
        ⊎ ((store.find_active s ≡ err not_found) × (m ≡ none))
      → ((ensure_key store m now s).1 ≡ s)
        × ((k : SigningKey) → (ensure_key store m now s).0 ≢ ok k)
  unfolding ensure_key
  ensure_key_error m now s why h = (ground arith, λ k. ground arith)

  -- Over a store that keeps the contract, after a rotation whose key is generated and whose
  -- private part parses, the key to sign with is the new one, under its identifier.
  pub get_active_private_key-rotate_key_at :
      {P : Type 0} (parse : String → Option P) (m : Material) (p : P) (grace : ℤ) (created now : ℕ)
      (s : S)
      → parse m.private_key_pem ≡ some p
      → get_active_private_key store parse (rotate_key_at store (some m) grace created now s).1
        ≡ ok (p, m.kid)
  unfolding get_active_private_key rotate_key_at
  get_active_private_key-rotate_key_at parse m p grace created now s h =
      ground (arith, atomic.rotate_replaces (key_of m created) (add_duration now grace) s refl)

module _ {P : Type 0} (parse : String → Option P) where
  publish-map-retire :
      (at : ℕ) (ks : List SigningKey) → publish parse (map (retire at) ks) ≡ publish parse ks
  unfolding publish
  publish-map-retire at [] = refl
  publish-map-retire at (k ∷ ks) = ground (
    arith,
    publish-map-retire at ks,
    kid-retire at k,
    algorithm-retire at k,
    public_key_pem-retire at k,
  )

  publish-append :
      (xs ys : List SigningKey) → publish parse (xs ++ ys) ≡ publish parse xs ++ publish parse ys
  unfolding publish
  publish-append [] ys = refl
  publish-append (x ∷ xs) ys = ground (arith, publish-append xs ys)

  abbrev pub jwk_of : Material → P → JsonWebKey P
  jwk_of m p = record {
    key = p;
    key_id = m.kid;
    algorithm = signing_algorithm;
    key_use = key_use_signature;
  }

  -- Until the grace period of a rotation is over, where the new public key parses, the key set
  -- published after the rotation is the one published without it, and the new key at its end:
  -- what was signed before the rotation still verifies.
  pub jwks-rotate_key_at :
      (m : Material) (p : P) (grace : ℤ) (created now t : ℕ) (s : MemoryStore)
      (before : List (JsonWebKey P))
      → parse m.public_key_pem ≡ some p
      → t < add_duration now grace
      → jwks parse memory_store t s ≡ ok before
      → jwks parse memory_store t (rotate_key_at memory_store (some m) grace created now s).1
        ≡ ok (before ++ jwk_of m p ∷ [])
  unfolding jwks rotate_key_at publish
  jwks-rotate_key_at m p grace created now t s before h lt e =
      rw
        (
          list_verifying_signing_keys-rotate_signing_key t (add_duration now grace)
              (key_of m created) s refl lt,
          publish-append,
          publish-map-retire,
        )
        (ground arith)

  -- A clean-up changes the published key set at no instant from its own on.
  pub jwks-delete_expired :
      (now t : ℕ) (s : MemoryStore)
      → now ≤ t
      → jwks parse memory_store t (memory_store.delete_expired now s).1
        ≡ jwks parse memory_store t s
  unfolding jwks
  jwks-delete_expired now t s h =
      rw (list_verifying_signing_keys-delete_expired_signing_keys now t s h)
