-- ===== src/Classify.antt =====
-- oauth/login_classify.go: the fixed vocabulary that failures are reduced to. `none` is no error.
pub mod Laws
mod Tests
use mcp_kit.Prelude.{
  String, Bool, true, false, ◌||◌, Option, none, some, List, [], ◌∷◌, if◌then◌else◌,
}
use mcp_kit.Text.{has_part}

-- An error: whether it is `userstore.ErrNotFound` for `errors.Is`, and its text.
pub record Failure : Type 0 where
  pub is_not_found : Bool
  pub message : String

-- A case of a `switch`: the parts of which it looks for one, and its answer.
abbrev pub Case : Type 0
Case = List String × String

unfoldable pub has_any : String → List String → Bool
has_any msg [] = false
has_any msg (p ∷ ps) = has_part msg p || has_any msg ps

-- A `switch` takes the first of its cases that is met, and "unknown" where none is.
unfoldable pub switch : List Case → String → String
switch [] msg = "unknown"
switch ((parts, answer) ∷ cs) msg =
    let rest = switch cs msg in if has_any msg parts then answer else rest

abbrev pub login_cases : List Case
login_cases =
    ("verify password" ∷ "find user" ∷ "not found" ∷ [], "bad_credentials")
    ∷ ("locked" ∷ "disabled" ∷ "inactive" ∷ [], "locked")
    ∷ []

unfoldable pub classify_login_error : Option Failure → String
classify_login_error none = "ok"
classify_login_error (some e) =
    if e.is_not_found then "bad_credentials" else switch login_cases e.message

abbrev pub reset_cases : List Case
reset_cases =
    ("expired" ∷ [], "expired")
    ∷ ("invalid token" ∷ "token mismatch" ∷ [], "invalid_token")
    ∷ ("send email" ∷ "smtp" ∷ [], "smtp_failed")
    ∷ ("weak password" ∷ "password too short" ∷ [], "weak_password")
    ∷ []

unfoldable pub classify_reset_error : Option Failure → String
classify_reset_error none = "ok"
classify_reset_error (some e) = if e.is_not_found then "not_found" else switch reset_cases e.message

abbrev pub verify_cases : List Case
verify_cases =
    ("expired" ∷ [], "expired")
    ∷ ("already verified" ∷ [], "already_verified")
    ∷ ("invalid token" ∷ "token mismatch" ∷ [], "invalid_token")
    ∷ []

unfoldable pub classify_verify_error : Option Failure → String
classify_verify_error none = "ok"
classify_verify_error (some e) =
    if e.is_not_found then "not_found" else switch verify_cases e.message

abbrev pub signup_cases : List Case
signup_cases =
    ("email already registered" ∷ "already registered" ∷ [], "duplicate_email")
    ∷ ("username already taken" ∷ [], "duplicate_username")
    ∷ ("username must be" ∷ "username is reserved" ∷ "invalid username" ∷ [], "invalid_username")
    ∷ ("password is required" ∷ "password too short" ∷ "weak password" ∷ [], "weak_password")
    ∷ ("email is required" ∷ "invalid email" ∷ [], "invalid_email")
    ∷ []

unfoldable pub classify_signup_error : Option Failure → String
classify_signup_error none = "ok"
classify_signup_error (some e) = switch signup_cases e.message
