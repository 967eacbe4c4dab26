-- ===== src/Classify/Tests.antt =====
-- Runs of the classifications.
use mcp_kit.Prelude.{String, ◌≡◌, refl, false, Option, some}
use mcp_kit.Text.{has_part}
use mcp_kit.Classify.{Failure, has_any, switch, classify_login_error, classify_signup_error}

abbrev failure : String → Option Failure
failure message = some (record { is_not_found = false; message = message })

locked_is : classify_login_error (failure "the account is locked") ≡ "locked"
unfolding classify_login_error switch has_any has_part
locked_is = refl

-- The first case is taken, also where another is met.
taken_is : classify_signup_error (failure "invalid email: already registered") ≡ "duplicate_email"
unfolding classify_signup_error switch has_any has_part
taken_is = refl
