-- ===== src/Bearer/Challenge/Quoting.antt =====
-- Quoted parameters are read back whole.
use Prim.Native.Char.{Char, code}
use text.Mathlib.TextLemmas.{cons-append, nil-append}
use mcp_kit.Prelude.{
  String, ◌≡◌, arith, Bool, true, false, Option, none, some, nat_eq, ◌||◌, if◌then◌else◌,
  Bool-cases, inl, inr,
}
use mcp_kit.Bearer.Challenge.{◌++◌, quote_auth_param}

abbrev onto : Char → Option (String × String) → Option (String × String)
onto c none = none
onto c (some (s, rest)) = some (String.◌∷◌ c s, rest)

-- A recipient's reading of a quoted string (RFC 9110), from behind the opening quote: the text and
-- what follows the closing quote. The flag says that a backslash stands in front.
pub unquote_from : Bool → String → Option (String × String)
unquote_from escaped String.[] = none
unquote_from true (String.◌∷◌ c s) = onto c (unquote_from false s)
unquote_from false (String.◌∷◌ c s) =
    let plain = onto c (unquote_from false s) in
    let pair = unquote_from true s in
    if nat_eq (code c) b'"'
    then some (String.[], s)
    else if nat_eq (code c) b'\\'
    then pair
    else plain

abbrev pub unquote : String → Option (String × String)
unquote = unquote_from false

-- Whatever a parameter's value is, a recipient reads it back whole, and goes on behind its closing
-- quote: no value ends the parameter early.
pub unquote-quote_auth_param :
    (s rest : String) → unquote (quote_auth_param s ++ "\"" ++ rest) ≡ some (s, rest)
unfolding unquote_from quote_auth_param
unquote-quote_auth_param String.[] rest = rw (nil-append, cons-append, nil-append)
unquote-quote_auth_param (String.◌∷◌ c s) rest =
    let ih = unquote-quote_auth_param s rest in
    elim (Bool-cases (nat_eq (code c) b'\\' || nat_eq (code c) b'"')) [
      | inl special ↦ rw (special, cons-append, cons-append, ih)
      | inr plain ↦ rw (plain, cons-append) (ground (arith, ih))
    ]
