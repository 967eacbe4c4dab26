-- ===== src/Keys/Manager/Race.antt =====
-- Concurrent calls of `Manager.EnsureSigningKey` over one store: each looks the active key up, and
-- then, where it has generated a key, hands it to the store. Other calls may run between the two
-- accesses, whose code is that of `ensure_key`.
use mcp_kit.Prelude.{
  ℕ, ◌≡◌, refl, true, arith, Option, none, some, nat_eq, if◌then◌else◌, Bool-cases, inl, inr, ◌⊎◌,
}
use mcp_kit.Keys.Memory.{SigningKey, Result, ok, err, not_found, failed, canceled}
use mcp_kit.Keys.Manager.{
  Store, Material, generate_signing_key, Ensuring, returning, creating, after_find, finish_ensure,
}
use mcp_kit.Keys.Manager.Laws.{IsAtomic}

-- Where one call stands: not begun, or past its lookup.
pub data Call : Type 0 where
  begun : Call
  looked : Ensuring → Call

abbrev pub update : (ℕ → Call) → ℕ → Call → ℕ → Call
update calls i c j = if nat_eq i j then c else calls j

module _ {S : Type 0} (store : Store S) where
  pub record System : Type 0 where
    pub state : S
    pub calls : ℕ → Call

  -- The system after the second access of a call.
  abbrev pub stored : System → ℕ → SigningKey → System
  stored y i key = record {
    state = (finish_ensure store (creating key) y.state).1;
    calls = update y.calls i (looked (returning (finish_ensure store (creating key) y.state).0));
  }

  pub data Step (y : System) : System → Type 0 where
    look :
        (i : ℕ) (m : Option Material) (now : ℕ)
        → y.calls i ≡ begun
        → Step y (record y {
          calls = update y.calls i (looked (after_find m now (store.find_active y.state)));
        })
    create :
        (i : ℕ) (key : SigningKey) → y.calls i ≡ looked (creating key) → Step y (stored y i key)

  pub data Reach (s : S) : System → Type 0 where
    start : Reach s (record { state = s; calls = λ _. begun })
    next : {y z : System} → Reach s y → Step y z → Reach s z

  -- Every call that has returned a key gave the one that is active, a key that is to be stored is
  -- active, and a lookup fails only by not finding a key.
  record IsAgreed (y : System) : Type 0 where
    active :
        (i : ℕ) (k : SigningKey)
        → y.calls i ≡ looked (returning (ok k))
        → store.find_active y.state ≡ ok k
    fresh : (i : ℕ) (k : SigningKey) → y.calls i ≡ looked (creating k) → k.is_active ≡ true
    known :
        (store.find_active y.state ≡ err not_found)
        ⊎ ((k : SigningKey) × (store.find_active y.state ≡ ok k))

after_find-returning :
    (m : Option Material) (now : ℕ) (r : Result SigningKey) (k : SigningKey)
    → after_find m now r ≡ returning (ok k)
    → r ≡ ok k
unfolding after_find generate_signing_key
after_find-returning m now (ok a) k h = ground arith
after_find-returning none now (err not_found) k h = ground arith
after_find-returning (some m) now (err not_found) k h = ground arith
after_find-returning m now (err (failed e)) k h = ground arith
after_find-returning m now (err canceled) k h = ground arith

after_find-creating :
    (m : Option Material) (now : ℕ) (r : Result SigningKey) (k : SigningKey)
    → after_find m now r ≡ creating k
    → k.is_active ≡ true
unfolding after_find generate_signing_key
after_find-creating m now (ok a) k h = ground arith
after_find-creating none now (err not_found) k h = ground arith
after_find-creating (some m) now (err not_found) k h = ground arith
after_find-creating m now (err (failed e)) k h = ground arith
after_find-creating m now (err canceled) k h = ground arith

looked-injective : (a b : Ensuring) → looked a ≡ looked b → a ≡ b
looked-injective a b h = cc

module _ {S : Type 0} (store : Store S) (atomic : IsAtomic store) where
  -- What the store makes of a new key: it gives the key that is active from then on, which is the
  -- one that was active before, if there was one.
  finish_ensure-active :
      (key : SigningKey) (s : S)
      → key.is_active ≡ true
      → (store.find_active s ≡ err not_found) ⊎ ((k : SigningKey) × (store.find_active s ≡ ok k))
      → (k : SigningKey) × ((finish_ensure store (creating key) s).0 ≡ ok k)
        × (store.find_active (finish_ensure store (creating key) s).1 ≡ ok k)
        × ((old : SigningKey) → store.find_active s ≡ ok old → old ≡ k)
  unfolding finish_ensure
  finish_ensure-active key s a (inl gone) =
      let p = atomic.ensure_missing key s a gone in (key, p.0, p.1, λ old h. ground arith)
  finish_ensure-active key s a (inr (k, there)) =
      let p = atomic.ensure_found key k s there in (k, rw p refl, rw p there, λ old h. ground arith)

  look-IsAgreed :
      (y : System store) (i : ℕ) (m : Option Material) (now : ℕ)
      → IsAgreed store y
      → IsAgreed store (record y {
        calls = update y.calls i (looked (after_find m now (store.find_active y.state)));
      })
  look-IsAgreed y i m now a = record {
    active = λ j k e. elim (Bool-cases (nat_eq i j)) [
      | inl p ↦ after_find-returning m now (store.find_active y.state) k (
          looked-injective (after_find m now (store.find_active y.state)) (returning (ok k))
            (rw p at e))
      | inr p ↦ a.active j k (rw p at e)
    ];
    fresh = λ j k e. elim (Bool-cases (nat_eq i j)) [
      | inl p ↦
          after_find-creating m now (store.find_active y.state) k (
            looked-injective (after_find m now (store.find_active y.state)) (creating k)
              (rw p at e))
      | inr p ↦ a.fresh j k (rw p at e)
    ];
    known = a.known;
  }

  stored-IsAgreed :
      (y : System store) (i : ℕ) (key : SigningKey)
      → y.calls i ≡ looked (creating key)
      → IsAgreed store y
      → IsAgreed store (stored store y i key)
  stored-IsAgreed y i key made a =
      let (k, gives, now, old) = finish_ensure-active key y.state (a.fresh i key made) a.known in
      record {
        active = λ j k' e. elim (Bool-cases (nat_eq i j)) [
          | inl p ↦
              let same : looked (returning (ok k)) ≡ looked (returning (ok k')) =
                rw (p, gives) at e in
              let equal : k ≡ k' = cc in rw (← equal) now
          | inr p ↦
              let earlier = a.active j k' (rw p at e) in let equal = old k' earlier in rw equal now
        ];
        fresh = λ j k' e. elim (Bool-cases (nat_eq i j)) [
          | inl p ↦
              let other : looked (returning (finish_ensure store (creating key) y.state).0)
                  ≡ looked (creating k') =
                rw p at e in
              absurd (cc)
          | inr p ↦ a.fresh j k' (rw p at e)
        ];
        known = inr (k, now);
      }

  Step-IsAgreed : {y z : System store} → Step store y z → IsAgreed store y → IsAgreed store z
  Step-IsAgreed {y} (look i m now b) a = look-IsAgreed y i m now a
  Step-IsAgreed {y} (create i key made) a = stored-IsAgreed y i key made a

  Reach-IsAgreed :
      {s : S} {y : System store}
      → (store.find_active s ≡ err not_found) ⊎ ((k : SigningKey) × (store.find_active s ≡ ok k))
      → Reach store s y
      → IsAgreed store y
  Reach-IsAgreed known start = record {
    active = λ i k e. absurd (cc);
    fresh = λ i k e. absurd (cc);
    known = known;
  }
  Reach-IsAgreed known (next r st) = Step-IsAgreed st (Reach-IsAgreed known r)

  -- However many calls of `EnsureSigningKey` run at the same time, and in whatever order they
  -- access a store that keeps its contract and whose lookups do not fail, all that have returned
  -- a key gave one key, and this is the active key.
  pub ensure_race :
      (s : S) (y : System store) (i j : ℕ) (k k' : SigningKey)
      → (store.find_active s ≡ err not_found) ⊎ ((k : SigningKey) × (store.find_active s ≡ ok k))
      → Reach store s y
      → y.calls i ≡ looked (returning (ok k))
      → y.calls j ≡ looked (returning (ok k'))
      → (k ≡ k') × (store.find_active y.state ≡ ok k)
  ensure_race s y i j k k' known r e e' =
      let a = Reach-IsAgreed known r in
      let p = a.active i k e in let q = a.active j k' e' in (ground arith, p)
