-- ===== src/Keys/Manager.antt =====
-- oauth/keys/manager.go over any store. What a wrapping message adds to an error is left out: it
-- does not change what `errors.Is` answers. RSA generation, PEM and X.509 are parameters.
pub mod Laws
pub mod Race
use mcp_kit.Prelude.{ℕ, String, true, Option, none, some, List, [], ◌∷◌}
use mcp_kit.Prelude.Int.{ℤ, add_duration}
use mcp_kit.Keys.Memory.{
  SigningKey, MemoryStore, Result, ok, err, not_found, failed, canceled, find_active_signing_key,
  ensure_signing_key, rotate_signing_key, list_verifying_signing_keys, delete_expired_signing_keys,
}

-- The interface `Store`, over its state.
pub record Store (S : Type 0) : Type 0 where
  pub find_active : S → Result SigningKey
  pub ensure : SigningKey → S → Result SigningKey × S
  pub rotate : SigningKey → ℕ → S → Result SigningKey × S
  pub list_verifying : ℕ → S → Result (List SigningKey)
  pub delete_expired : ℕ → S → Result ℕ × S

-- `MemoryStore` behind the interface: none of its methods fails but the lookup.
abbrev pub memory_store : Store MemoryStore
memory_store = record {
  find_active = find_active_signing_key;
  ensure = λ key s. let (s', k) = ensure_signing_key key s in (ok k, s');
  rotate = λ key at s. let (s', k) = rotate_signing_key key at s in (ok k, s');
  list_verifying = λ now s. ok (list_verifying_signing_keys now s);
  delete_expired = λ now s. let (s', n) = delete_expired_signing_keys now s in (ok n, s');
}

-- What generating a key pair and its identifier yields.
pub record Material : Type 0 where
  pub kid : String
  pub private_key_pem : String
  pub public_key_pem : String

abbrev pub signing_algorithm : String
signing_algorithm = "RS256"

abbrev pub key_use_signature : String
key_use_signature = "sig"

-- `none` when the generation fails.
unfoldable pub generate_signing_key : Option Material → ℕ → Result SigningKey
generate_signing_key none now = err (failed "generate RSA key")
generate_signing_key (some m) now = ok (record {
  kid = m.kid;
  algorithm = signing_algorithm;
  private_key_pem = m.private_key_pem;
  public_key_pem = m.public_key_pem;
  is_active = true;
  created_at = now;
  retired_at = none;
})

-- Where a call of `EnsureSigningKey` stands after its lookup: it returns, or it has a new key that
-- it hands to the store.
pub data Ensuring : Type 0 where
  returning : Result SigningKey → Ensuring
  creating : SigningKey → Ensuring

abbrev generated : Result SigningKey → Ensuring
generated (err e) = returning (err e)
generated (ok key) = creating key

-- `EnsureSigningKey` up to its second call of the store, with what the lookup yields.
unfoldable pub after_find : Option Material → ℕ → Result SigningKey → Ensuring
unfolding generate_signing_key
after_find m now (ok active) = returning (ok active)
after_find m now (err not_found) = generated (generate_signing_key m now)
after_find m now (err (failed e)) = returning (err (failed e))
after_find m now (err canceled) = returning (err canceled)

module _ {S : Type 0} (store : Store S) where
  -- `EnsureSigningKey` from there on.
  unfoldable pub finish_ensure : Ensuring → S → Result SigningKey × S
  finish_ensure (returning r) s = (r, s)
  finish_ensure (creating key) s = store.ensure key s

  -- `Manager.EnsureSigningKey`, its two calls of the store made with nothing in between.
  unfoldable pub ensure_key : Option Material → ℕ → S → Result SigningKey × S
  unfolding after_find finish_ensure
  ensure_key m now s = finish_ensure (after_find m now (store.find_active s)) s

  abbrev rotated : Result SigningKey → ℕ → S → Result SigningKey × S
  rotated (err e) at s = (err e, s)
  rotated (ok key) at s = store.rotate key at s

  -- `rotateSigningKeyAt`: the clock is read for the new key, and again for the retirement.
  unfoldable pub rotate_key_at : Option Material → ℤ → ℕ → ℕ → S → Result SigningKey × S
  unfolding generate_signing_key
  rotate_key_at m grace created_at now s =
      rotated (generate_signing_key m created_at) (add_duration now grace) s

  -- `retireExpiredKeysAt`
  unfoldable pub retire_expired_keys_at : ℕ → S → Result ℕ × S
  retire_expired_keys_at now s = store.delete_expired now s

  module _ {P : Type 0} (parse_private_key_pem : String → Option P) where
    abbrev signer : Result SigningKey → Result (P × String)
    signer (err e) = err e
    signer (ok key) = elim (parse_private_key_pem key.private_key_pem) [
      | none ↦ err (failed "parse private key")
      | some p ↦ ok (p, key.kid)
    ]

    pub get_active_private_key : S → Result (P × String)
    get_active_private_key s = signer (store.find_active s)

-- A published key.
pub record JsonWebKey (P : Type 0) : Type 0 where
  pub key : P
  pub key_id : String
  pub algorithm : String
  pub key_use : String

module _ {P : Type 0} (parse_public_key_pem : String → Option P) where
  -- The loop of `JWKS`: a key that does not parse is skipped.
  unfoldable pub publish : List SigningKey → List (JsonWebKey P)
  publish [] = []
  publish (k ∷ ks) = elim (parse_public_key_pem k.public_key_pem) [
    | none ↦ publish ks
    | some p ↦
        (record { key = p; key_id = k.kid; algorithm = k.algorithm; key_use = key_use_signature })
        ∷ publish ks
  ]

  abbrev published : Result (List SigningKey) → Result (List (JsonWebKey P))
  published (err e) = err e
  published (ok ks) = ok (publish ks)

  unfoldable pub jwks : {S : Type 0} → Store S → ℕ → S → Result (List (JsonWebKey P))
  jwks store now s = published (store.list_verifying now s)
