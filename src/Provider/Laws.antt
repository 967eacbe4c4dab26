-- ===== src/Provider/Laws.antt =====
-- What `applyDefaults` of oauth/config.go yields.
use Prim.Native.String
use text.Mathlib.TextLemmas.{cons-append}
use mcp_kit.Prelude.{
  arith, sym, ◌∙◌, ℕ, zero, suc, String, Bool, true, false, ◌≡◌, ◌⊎◌, inl, inr, refl, ap, Option,
  none, some, is_some, List, [], ◌∷◌, length, nat_eq, ◌==◌, eq_iff, Bool-cases,
}
use mcp_kit.Prelude.Int.{ℤ, pos, negsuc}
use mcp_kit.Text.{is_empty, trim_right_char}
use mcp_kit.Provider.{
  Config, ConfigError, secret_failed, issuer_required, store_required, key_manager_required,
  secret_length, or_lifespan, or_some, with_defaults, with_audience, with_stores, checked, drawn,
  apply_defaults,
}

abbrev pub is_lifespan : ℤ → Bool
is_lifespan (pos zero) = false
is_lifespan (pos (suc n)) = true
is_lifespan (negsuc n) = true

or_lifespan-eq : (given d : ℤ) → is_lifespan d ≡ true → or_lifespan given d ≡ d
or_lifespan-eq given (pos zero) h = absurd (cc)
or_lifespan-eq given (pos (suc n)) h = refl
or_lifespan-eq given (negsuc n) h = refl

is_lifespan-or_lifespan : (n : ℕ) (d : ℤ) → is_lifespan (or_lifespan (pos (suc n)) d) ≡ true
is_lifespan-or_lifespan n (pos zero) = refl
is_lifespan-or_lifespan n (pos (suc m)) = refl
is_lifespan-or_lifespan n (negsuc m) = refl

or_some-eq : {A : Type 0} (given : A) (o : Option A) → is_some o ≡ true → or_some given o ≡ o
or_some-eq given none h = absurd (cc)
or_some-eq given (some x) h = refl

is_some-or_some : {A : Type 0} (given : A) (o : Option A) → is_some (or_some given o) ≡ true
is_some-or_some given none = refl
is_some-or_some given (some x) = refl

onto_mcp : (t : String) → (String.◌++◌ t "/mcp" == "") ≡ false
onto_mcp String.[] = refl
onto_mcp (String.◌∷◌ c s) = elim (Bool-cases (String.◌++◌ (String.◌∷◌ c s) "/mcp" == "")) [
  | inl e ↦
      let is_nil = (eq_iff (String.◌++◌ (String.◌∷◌ c s) "/mcp") "").0 e in
      let differs : false ≡ true = ap is_empty (sym (cons-append c s "/mcp") ∙ is_nil) in
      absurd (cc)
  | inr e ↦ e
]

zero_test : {A : Type 0} (xs : List A) → nat_eq (length xs) 32 ≡ true → nat_eq (length xs) 0 ≡ false
zero_test [] h = absurd (cc)
zero_test (x ∷ xs) h = ground arith

module _ {E C S K : Type 0} where
  -- What the defaults of the first half settle.
  abbrev pub IsSettled : Config E C S K → Type 0
  IsSettled c =
      (is_some c.audit_emitter ≡ true)
      × (is_some c.now ≡ true)
      × (is_lifespan c.access_token_lifespan ≡ true)
      × (is_lifespan c.refresh_token_lifespan ≡ true)
      × (is_lifespan c.authorize_code_lifespan ≡ true)
      × (is_lifespan c.id_token_lifespan ≡ true)

  -- Nothing is left for the defaults.
  abbrev pub IsComplete : Config E C S K → Type 0
  IsComplete c =
      IsSettled c
      × (nat_eq (length c.secret) 32 ≡ true)
      × ((c.issuer == "") ≡ false)
      × ((c.audience == "") ≡ false)
      × (is_some c.store ≡ true)
      × (is_some c.key_manager ≡ true)

  with_defaults-IsSettled :
      (discard : E) (clock : C) (c : Config E C S K) → IsSettled (with_defaults discard clock c)
  with_defaults-IsSettled discard clock c = (
    is_some-or_some discard c.audit_emitter,
    is_some-or_some clock c.now,
    is_lifespan-or_lifespan _ c.access_token_lifespan,
    is_lifespan-or_lifespan _ c.refresh_token_lifespan,
    is_lifespan-or_lifespan _ c.authorize_code_lifespan,
    is_lifespan-or_lifespan _ c.id_token_lifespan,
  )

  abbrev pub Completes : ConfigError ⊎ Config E C S K → Type 0
  Completes x =
      ((e : ConfigError) × (x ≡ inl e)) ⊎ ((c : Config E C S K) × (x ≡ inr c) × IsComplete c)

  with_audience-IsComplete :
      (c : Config E C S K)
      → IsSettled c
      → nat_eq (length c.secret) 32 ≡ true
      → (c.issuer == "") ≡ false
      → is_some c.store ≡ true
      → is_some c.key_manager ≡ true
      → IsComplete (with_audience c)
  with_audience-IsComplete c settled long issuer s k = elim (Bool-cases (c.audience == "")) [
    | inl e ↦ rw e (settled, long, issuer, onto_mcp (trim_right_char b'/' c.issuer), s, k)
    | inr e ↦ rw e (settled, long, issuer, e, s, k)
  ]

  with_stores-Completes :
      (s : Option S) (k : Option K) (c : Config E C S K)
      → (is_some s ≡ true → is_some k ≡ true → IsComplete c)
      → Completes (with_stores s k c)
  with_stores-Completes none k c h = inl (store_required, refl)
  with_stores-Completes (some s) none c h = inl (key_manager_required, refl)
  with_stores-Completes (some s) (some k) c h = inr (c, refl, h refl refl)

  stores :
      (s : Option S) (k : Option K) (c : Config E C S K)
      → is_some s ≡ true
      → is_some k ≡ true
      → with_stores s k c ≡ inr c
  stores none k c h i = absurd (cc)
  stores (some s) none c h i = absurd (cc)
  stores (some s) (some k) c h i = refl

  checked-Completes : (c : Config E C S K) → IsSettled c → Completes (checked c)
  checked-Completes c settled = elim (Bool-cases (nat_eq (length c.secret) 32)) [
    | inr e ↦ rw e (inl (secret_length (length c.secret), refl))
    | inl e ↦ elim (Bool-cases (c.issuer == "")) [
      | inl f ↦ rw (e, f) (inl (issuer_required, refl))
      | inr f ↦
          rw (e, f)
            (with_stores-Completes c.store c.key_manager (with_audience c)
              (with_audience-IsComplete c settled e f))
    ]
  ]

  drawn-Completes :
      (random : Option (List ℕ)) (c : Config E C S K) → IsSettled c → Completes (drawn random c)
  drawn-Completes none c settled = inl (secret_failed, refl)
  drawn-Completes (some bytes) c settled = checked-Completes (record c { secret = bytes }) settled

  apply_defaults-Completes :
      (discard : E) (clock : C) (random : Option (List ℕ)) (c : Config E C S K)
      → Completes (apply_defaults discard clock random c)
  unfolding apply_defaults
  apply_defaults-Completes discard clock random c = elim (Bool-cases (nat_eq (length c.secret) 0)) [
    | inl e ↦ rw e (
        drawn-Completes random (with_defaults discard clock c)
          (with_defaults-IsSettled discard clock c))
    | inr e ↦ rw e (
        checked-Completes (with_defaults discard clock c) (with_defaults-IsSettled discard clock c))
  ]

  with_defaults-eq :
      (discard : E) (clock : C) (c : Config E C S K)
      → IsSettled c
      → with_defaults discard clock c ≡ c
  with_defaults-eq discard clock c (a, n, x, y, z, w) =
      rw
        (
          or_some-eq discard c.audit_emitter a,
          or_some-eq clock c.now n,
          or_lifespan-eq _ c.access_token_lifespan x,
          or_lifespan-eq _ c.refresh_token_lifespan y,
          or_lifespan-eq _ c.authorize_code_lifespan z,
          or_lifespan-eq _ c.id_token_lifespan w,
        )
        refl

  stable :
      (discard : E) (clock : C) (random : Option (List ℕ)) (c : Config E C S K)
      → IsComplete c
      → apply_defaults discard clock random c ≡ inr c
  unfolding apply_defaults
  stable discard clock random c (settled, long, issuer, audience, s, k) =
      let none_drawn = zero_test c.secret long in
      rw (with_defaults-eq discard clock c settled, none_drawn, long, issuer, audience)
        (stores c.store c.key_manager c s k)

  -- `applyDefaults` either refuses a configuration or yields a complete one, which it yields again
  -- when it is applied to it, whatever the emitter, the clock and the random bytes are then.
  apply_defaults-IsComplete :
      (discard : E) (clock : C) (random : Option (List ℕ)) (c : Config E C S K)
      → ((e : ConfigError) × (apply_defaults discard clock random c ≡ inl e))
        ⊎ ((d : Config E C S K) × (apply_defaults discard clock random c ≡ inr d)
            × IsComplete d
            × ((other : E) (later : C) (bytes : Option (List ℕ))
                → apply_defaults other later bytes d ≡ inr d))
  apply_defaults-IsComplete discard clock random c =
      elim (apply_defaults-Completes discard clock random c) [
        | inl x ↦ inl x
        | inr (d, same, whole) ↦
            inr (d, same, whole, λ other later bytes. stable other later bytes d whole)
      ]
