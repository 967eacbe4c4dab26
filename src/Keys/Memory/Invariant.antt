-- ===== src/Keys/Memory/Invariant.antt =====
-- The states that oauth/keys/memory.go can reach.
use mcp_kit.Prelude.{
  ℕ, ◌+◌, ◌≤◌, ◌≡◌, ◌≢◌, inl, inr, refl, true, false, Option, none, some, List, [], ◌∷◌, ◌++◌, map,
  arith, All, All-append, Bool-cases,
}
use mcp_kit.Keys.Memory.{
  SigningKey, MemoryStore, new_memory_store, first_active, ensured, ensure_signing_key, retire,
  rotate_signing_key, sweep, expired, delete_expired_signing_keys,
}

-- The number of active keys.
abbrev pub active_count : List SigningKey → ℕ
active_count [] = 0
active_count (k ∷ ks) = elim k.is_active [ true ↦ 1 + active_count ks | false ↦ active_count ks ]

-- A key that is not active has an instant of retirement.
abbrev pub IsDated : SigningKey → Type 0
IsDated k = k.is_active ≡ false → k.retired_at ≢ none

pub record IsWellFormed (s : MemoryStore) : Type 0 where
  pub single : active_count s.keys ≤ 1
  pub dated : All IsDated s.keys

-- The calls of the store that the manager makes: each key that it passes is active.
pub data Step (s : MemoryStore) : MemoryStore → Type 0 where
  ensure : (key : SigningKey) → key.is_active ≡ true → Step s (ensure_signing_key key s).0
  rotate :
      (key : SigningKey) (at : ℕ) → key.is_active ≡ true → Step s (rotate_signing_key key at s).0
  delete : (now : ℕ) → Step s (delete_expired_signing_keys now s).0

pub data Reach : MemoryStore → Type 0 where
  start : Reach new_memory_store
  next : {s t : MemoryStore} → Reach s → Step s t → Reach t

active_count-append :
    (xs ys : List SigningKey) → active_count (xs ++ ys) ≡ active_count xs + active_count ys
active_count-append [] ys = omega arith
active_count-append (x ∷ xs) ys = ground (arith, active_count-append xs ys)

active_count_of_first_active : (ks : List SigningKey) → first_active ks ≡ none → active_count ks ≡ 0
unfolding first_active
active_count_of_first_active [] h = refl
active_count_of_first_active (k ∷ ks) h = ground (arith, active_count_of_first_active ks)

active_count-retire : (at : ℕ) (ks : List SigningKey) → active_count (map (retire at) ks) ≡ 0
unfolding retire
active_count-retire at [] = refl
active_count-retire at (k ∷ ks) = ground (arith, active_count-retire at ks)

IsDated-retire : (at : ℕ) (ks : List SigningKey) → All IsDated ks → All IsDated (map (retire at) ks)
unfolding retire
IsDated-retire at [] h = tt
IsDated-retire at (k ∷ ks) h = (ground (arith, h.0), IsDated-retire at ks h.1)

active_count-sweep :
    (now : ℕ) (ks : List SigningKey) → active_count (sweep now ks).0 ≤ active_count ks
unfolding sweep
active_count-sweep now [] = omega arith
active_count-sweep now (k ∷ ks) = ground (arith, active_count-sweep now ks)

IsDated-sweep : (now : ℕ) (ks : List SigningKey) → All IsDated ks → All IsDated (sweep now ks).0
unfolding sweep
IsDated-sweep now [] h = tt
IsDated-sweep now (k ∷ ks) h = elim (Bool-cases (expired now k)) [
  | inl e ↦ rw e (IsDated-sweep now ks h.1)
  | inr e ↦ rw e (h.0, IsDated-sweep now ks h.1)
]

ensured-IsWellFormed :
    (s : MemoryStore) (key : SigningKey) (found : Option SigningKey)
    → key.is_active ≡ true
    → first_active s.keys ≡ found
    → IsWellFormed s
    → IsWellFormed (ensured s key found).0
ensured-IsWellFormed s key none a e w = record {
  single =
      ground (arith, active_count-append s.keys (key ∷ []), active_count_of_first_active s.keys e);
  dated = All-append IsDated s.keys (key ∷ []) w.dated (ground arith, tt);
}
ensured-IsWellFormed s key (some k) a e w = w

Step-IsWellFormed : {s t : MemoryStore} → Step s t → IsWellFormed s → IsWellFormed t
unfolding ensure_signing_key rotate_signing_key delete_expired_signing_keys
Step-IsWellFormed {s} (ensure key a) w = ensured-IsWellFormed s key (first_active s.keys) a refl w
Step-IsWellFormed {s} (rotate key at a) w = record {
  single = ground (
    arith,
    active_count-append (map (retire at) s.keys) (key ∷ []),
    active_count-retire at s.keys,
  );
  dated =
      All-append IsDated (map (retire at) s.keys) (key ∷ []) (IsDated-retire at s.keys w.dated)
        (ground arith, tt);
}
Step-IsWellFormed {s} (delete now) w = record {
  single = omega (arith, active_count-sweep now s.keys, w.single);
  dated = IsDated-sweep now s.keys w.dated;
}

-- Whatever calls the manager makes, in whatever order, of a store that starts empty, at most one
-- key is active, and each key that is not active has an instant of retirement.
pub Reach-IsWellFormed : {s : MemoryStore} → Reach s → IsWellFormed s
Reach-IsWellFormed start = record { single = omega arith; dated = tt }
Reach-IsWellFormed (next r st) = Step-IsWellFormed st (Reach-IsWellFormed r)
