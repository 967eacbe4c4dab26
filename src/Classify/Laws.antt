-- ===== src/Classify/Laws.antt =====
-- Which words the classifications of oauth/login_classify.go answer with.
use mcp_kit.Prelude.{
  String, Bool, true, false, ◌≡◌, inl, inr, refl, Option, none, some, List, [], ◌∷◌, contains, ◌==◌,
  eq_iff, Bool-cases, if◌then◌else◌,
}
use mcp_kit.Classify.{
  Failure, Case, has_any, switch, login_cases, classify_login_error, reset_cases,
  classify_reset_error, verify_cases, classify_verify_error, signup_cases, classify_signup_error,
}

-- The words that a `switch` may answer.
unfoldable pub words : List Case → List String
words [] = "unknown" ∷ []
words ((parts, answer) ∷ cs) = answer ∷ words cs

contains-here : (x : String) (xs : List String) → contains (x ∷ xs) x ≡ true
unfolding contains
contains-here x xs = rw ((eq_iff x x).1 refl) refl

contains-later :
    (x y : String) (xs : List String) → contains xs x ≡ true → contains (y ∷ xs) x ≡ true
unfolding contains
contains-later x y xs h = elim (Bool-cases (y == x)) [ inl e ↦ rw e refl | inr e ↦ rw (e, h) refl ]

contains-switch : (cs : List Case) (msg : String) → contains (words cs) (switch cs msg) ≡ true
unfolding switch words
contains-switch [] msg = contains-here "unknown" []
contains-switch ((parts, answer) ∷ cs) msg = elim (Bool-cases (has_any msg parts)) [
  | inl e ↦ rw e (contains-here answer (words cs))
  | inr e ↦ rw e (contains-later (switch cs msg) answer (words cs) (contains-switch cs msg))
]

-- The word for an error, that of `ErrNotFound` or of a `switch`, is one of a vocabulary that begins
-- with these.
contains-found :
    (b : Bool) (ok found : String) (cs : List Case) (msg : String)
    → contains (ok ∷ found ∷ words cs) (if b then found else switch cs msg) ≡ true
contains-found true ok found cs msg =
    contains-later found ok (found ∷ words cs) (contains-here found (words cs))
contains-found false ok found cs msg =
    contains-later (switch cs msg) ok (found ∷ words cs)
      (contains-later (switch cs msg) found (words cs) (contains-switch cs msg))

-- Whatever the error, each classification answers a word of its vocabulary.
contains-classify_login_error :
    (e : Option Failure)
    → contains ("ok" ∷ "bad_credentials" ∷ words login_cases) (classify_login_error e) ≡ true
unfolding classify_login_error
contains-classify_login_error none = contains-here "ok" _
contains-classify_login_error (some e) =
    contains-found e.is_not_found "ok" "bad_credentials" login_cases e.message

contains-classify_reset_error :
    (e : Option Failure)
    → contains ("ok" ∷ "not_found" ∷ words reset_cases) (classify_reset_error e) ≡ true
unfolding classify_reset_error
contains-classify_reset_error none = contains-here "ok" _
contains-classify_reset_error (some e) =
    contains-found e.is_not_found "ok" "not_found" reset_cases e.message

contains-classify_verify_error :
    (e : Option Failure)
    → contains ("ok" ∷ "not_found" ∷ words verify_cases) (classify_verify_error e) ≡ true
unfolding classify_verify_error
contains-classify_verify_error none = contains-here "ok" _
contains-classify_verify_error (some e) =
    contains-found e.is_not_found "ok" "not_found" verify_cases e.message

contains-classify_signup_error :
    (e : Option Failure) → contains ("ok" ∷ words signup_cases) (classify_signup_error e) ≡ true
unfolding classify_signup_error
contains-classify_signup_error none = contains-here "ok" _
contains-classify_signup_error (some e) =
    contains-later (switch signup_cases e.message) "ok" (words signup_cases)
      (contains-switch signup_cases e.message)
