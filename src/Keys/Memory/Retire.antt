-- ===== src/Keys/Memory/Retire.antt =====
-- What the retirement of a key leaves alone.
use mcp_kit.Prelude.{ℕ, ◌≡◌, refl, arith}
use mcp_kit.Keys.Memory.{SigningKey, MemoryStore, retire, rotate_signing_key}

module _ (at : ℕ) (k : SigningKey) where
  pub kid-retire : (retire at k).kid ≡ k.kid
  unfolding retire
  kid-retire = ground arith

  pub algorithm-retire : (retire at k).algorithm ≡ k.algorithm
  unfolding retire
  algorithm-retire = ground arith

  pub public_key_pem-retire : (retire at k).public_key_pem ≡ k.public_key_pem
  unfolding retire
  public_key_pem-retire = ground arith

-- A rotation returns the key that it is given.
pub rotate_signing_key_result :
    (at : ℕ) (key : SigningKey) (s : MemoryStore) → (rotate_signing_key key at s).1 ≡ key
unfolding rotate_signing_key
rotate_signing_key_result at key s = refl
