-- ===== src/Register/Scopes/Laws.antt =====
-- Which scopes a registration grants.
use mcp_kit.Prelude.{
  String, true, false, ◌≡◌, ◌≢◌, ◌⊎◌, inl, inr, refl, arith, none, List, [], ◌∷◌, ◌++◌, contains,
  All, All-append, ◌==◌, eq_iff, Option-cases, Bool-cases, ◌||◌,
}
use mcp_kit.Text.{trim_space, fields, join}
use mathlib.Core.Path.{subst}
use mcp_kit.Register.Uris.{Rejection, Checked, passed, rejected}
use mcp_kit.Register.Scopes.{
  Granted, first_refused, normalize_scopes, take_defaults, normalize_scopes_with_default,
  or_allowed,
}

abbrev pub IsAllowed : List String → String → Type 0
IsAllowed allowed s = contains allowed s ≡ true

-- No text stands twice in a list.
abbrev pub IsDistinct : List String → Type 0
IsDistinct [] = Unit
IsDistinct (s ∷ ss) = (contains ss s ≡ false) × IsDistinct ss

first_refused-eq-none :
    (allowed ss : List String) → first_refused allowed ss ≡ none → All (IsAllowed allowed) ss
unfolding first_refused
first_refused-eq-none allowed [] h = tt
first_refused-eq-none allowed (s ∷ ss) h = elim (Bool-cases (contains allowed s)) [
  | inl e ↦ (e, first_refused-eq-none allowed ss (rw e at h))
  | inr e ↦ absurd (ground arith)
]

contains-append :
    (xs ys : List String) (s : String) → contains (xs ++ ys) s ≡ (contains xs s || contains ys s)
unfolding contains
contains-append [] ys s = refl
contains-append (x ∷ xs) ys s = ground (arith, contains-append xs ys s)

IsDistinct-append :
    (xs : List String) (s : String)
    → IsDistinct xs
    → contains xs s ≡ false
    → IsDistinct (xs ++ s ∷ [])
unfolding contains
IsDistinct-append [] s d h = (refl, tt)
IsDistinct-append (x ∷ xs) s d h = (
  ground (arith, contains-append xs (s ∷ []) x, eq_iff x s, eq_iff s x),
  IsDistinct-append xs s d.1 (ground arith),
)

pub passed-injective : {A : Type 0} {a b : A} → passed a ≡ passed b → a ≡ b
passed-injective h = cc

pub Checked-cases :
    {A : Type 0} (c : Checked A) → ((a : A) × (c ≡ passed a)) ⊎ ((e : Rejection) × (c ≡ rejected e))
Checked-cases (passed a) = inl (a, refl)
Checked-cases (rejected e) = inr (e, refl)

-- What the loop over the default scopes keeps of the scopes taken.
abbrev IsTaken : List String → List String → Type 0
IsTaken allowed ss = All (IsAllowed allowed) ss × IsDistinct ss

take_defaults-IsTaken :
    (allowed taken ds ss : List String)
    → IsTaken allowed taken
    → take_defaults allowed taken ds ≡ passed ss
    → IsTaken allowed ss
unfolding take_defaults
take_defaults-IsTaken allowed taken [] ss k h = subst (IsTaken allowed) (passed-injective h) k
take_defaults-IsTaken allowed taken (d ∷ ds) ss k h =
    let s = trim_space d in
    elim (Bool-cases (s == "")) [
      | inl e ↦ take_defaults-IsTaken allowed taken ds ss k (rw e at h)
      | inr e ↦ elim (Bool-cases (contains allowed s)) [
        | inr a ↦ absurd (cc (rw (e, a) at h))
        | inl a ↦ elim (Bool-cases (contains taken s)) [
          | inl t ↦ take_defaults-IsTaken allowed taken ds ss k (rw (e, a, t) at h)
          | inr t ↦
              take_defaults-IsTaken allowed (taken ++ s ∷ []) ds ss
                (
                  All-append (IsAllowed allowed) taken (s ∷ []) k.0 (a, tt),
                  IsDistinct-append taken s k.1 t,
                )
                (rw (e, a, t) at h)
        ]
      ]
    ]

-- Where scopes are granted, each is allowed, and the text returned is that of the scopes; on
-- request they are the fields of the text requested, and without a request they are distinct.
pub normalize_scopes_with_default-eq-passed :
    (scope : String) (default_scopes allowed : List String) (g : Granted)
    → normalize_scopes_with_default scope default_scopes allowed ≡ passed g
    → All (IsAllowed allowed) g.scopes
      × (g.scope_string ≡ join " " g.scopes)
      × (((trim_space scope ≢ "") × (g.scopes ≡ fields scope))
          ⊎ ((trim_space scope ≡ "") × IsDistinct g.scopes))
unfolding normalize_scopes_with_default normalize_scopes
normalize_scopes_with_default-eq-passed scope ds allowed g h =
    elim (Bool-cases (trim_space scope == "")) [
      | inl blank ↦ elim (Checked-cases (take_defaults allowed [] (or_allowed ds allowed))) [
        | inl (ss, e) ↦
            let is = passed-injective (rw (blank, e) at h) in
            let taken = take_defaults-IsTaken allowed [] (or_allowed ds allowed) ss (tt, tt) e in
            rw (← is) (taken.0, refl, inr ((eq_iff (trim_space scope) "").0 blank, taken.1))
        | inr (e, r) ↦ absurd (cc (rw (blank, r) at h))
      ]
      | inr named ↦ elim (Option-cases (first_refused allowed (fields scope))) [
        | inl e ↦
            let is = passed-injective (rw (named, e) at h) in
            rw (← is) (
              first_refused-eq-none allowed (fields scope) e,
              refl,
              inl (ground (arith, eq_iff (trim_space scope) ""), refl),
            )
        | inr (s, e) ↦ absurd (cc (rw (named, e) at h))
      ]
    ]
