-- ===== src/Cimd/Lifetime.antt =====
-- `cacheLifetime` of oauth/cimd.go. Lengths of time are in nanoseconds. What the standard library
-- makes of a header's text is a parameter.
use mcp_kit.Prelude.{ℕ, String, Bool, ◌||◌, Option, none, some, List, [], ◌∷◌, if◌then◌else◌}
use Prim.Native.String
use mcp_kit.Prelude.Int.{ℤ, pos, negsuc, sub_ℕ}
use mcp_kit.Text.{split, trim_space, has_prefix, has_part}

-- `strings.ToLower`, `time.ParseDuration` and `http.ParseTime`.
pub record Parsers : Type 0 where
  pub to_lower : String → String
  pub parse_duration : String → Option ℤ
  pub parse_time : String → Option ℕ

-- The two headers of a response that are read.
pub record CacheHeader : Type 0 where
  pub cache_control : String
  pub expires : String

abbrev drop : String → String → String
drop String.[] s = s
drop (String.◌∷◌ d p) String.[] = String.[]
drop (String.◌∷◌ d p) (String.◌∷◌ c s) = drop p s

-- `strings.CutPrefix`
unfoldable pub cut_prefix : String → String → Option String
unfolding has_prefix
cut_prefix p s = if has_prefix s p then some (drop p s) else none

-- The value of the first directive `max-age`.
unfoldable pub find_max_age : List String → Option String
unfolding cut_prefix trim_space
find_max_age [] = none
find_max_age (d ∷ ds) =
    let rest = find_max_age ds in
    elim (cut_prefix "max-age=" (trim_space d)) [ none ↦ rest | some v ↦ some v ]

-- A length of time that is not negative, or nothing.
abbrev pub at_least_zero : ℤ → ℕ
at_least_zero (pos n) = n
at_least_zero (negsuc n) = 0

abbrev pub max_age_lifetime : ℕ → Option ℤ → ℕ
max_age_lifetime fallback none = fallback
max_age_lifetime fallback (some seconds) = at_least_zero seconds

abbrev pub expires_lifetime : ℕ → ℕ → Option ℕ → ℕ
expires_lifetime fallback now none = fallback
expires_lifetime fallback now (some at) = at_least_zero (sub_ℕ at now)

abbrev pub is_uncached : String → Bool
is_uncached control = has_part control "no-store" || has_part control "no-cache"

-- The lifetime, where `fallback` is that of the configuration.
unfoldable pub cache_lifetime : Parsers → CacheHeader → ℕ → ℕ → ℕ
unfolding has_part split find_max_age
cache_lifetime parsers header fallback now =
    let control = parsers.to_lower header.cache_control in
    if is_uncached control then 0 else elim (find_max_age (split b',' control)) [
      | none ↦ expires_lifetime fallback now (parsers.parse_time header.expires)
      | some v ↦ max_age_lifetime fallback (parsers.parse_duration (String.◌++◌ v "s"))
    ]
