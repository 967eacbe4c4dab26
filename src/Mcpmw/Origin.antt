-- ===== src/Mcpmw/Origin.antt =====
-- mcpmw/origin.go. What `url.Parse` finds as the host name of an origin, and what `net.ParseIP` and
-- `IsLoopback` say of a host, are parameters: `none` for a text that does not parse.
pub mod Laws
use Prim.Native.String
use Prim.Native.Char.{code}
use mcp_kit.Prelude.{
  ℕ, String, Bool, true, false, not, ◌&&◌, Option, none, some, List, contains, nat_eq, ◌==◌,
  if◌then◌else◌,
}

pub record OriginConfig : Type 0 where
  pub allowed : List String
  pub allow_loopback : Bool
  pub has_on_deny : Bool

-- The next handler is called, or `OnDeny` with the origin, or a status is written.
pub data Outcome : Type 0 where
  served : Outcome
  denied : String → Outcome
  forbidden : ℕ → Outcome

-- The text before a last character `x`, if that is its last character.
unfoldable pub before_last : ℕ → String → Option String
before_last x String.[] = none
before_last x (String.◌∷◌ c String.[]) = if nat_eq (code c) x then some String.[] else none
before_last x (String.◌∷◌ c (String.◌∷◌ d s)) = elim (before_last x (String.◌∷◌ d s)) [
  | none ↦ none
  | some t ↦ some (String.◌∷◌ c t)
]

abbrev or_whole : String → Option String → String
or_whole s none = s
or_whole s (some t) = t

-- The host without the brackets around it.
unfoldable pub strip_brackets : String → String
unfolding before_last
strip_brackets String.[] = String.[]
strip_brackets (String.◌∷◌ c s) =
    if nat_eq (code c) b'[' then or_whole (String.◌∷◌ c s) (before_last b']' s) else String.◌∷◌ c s

module _ (hostname : String → Option String) (parse_ip : String → Option Bool) where
  abbrev ip_is_loopback : Option Bool → Bool
  ip_is_loopback none = false
  ip_is_loopback (some b) = b

  abbrev host_is_loopback : Option String → Bool
  host_is_loopback none = false
  host_is_loopback (some host) =
      if host == ""
      then false
      else if host == "localhost"
      then true
      else ip_is_loopback (parse_ip (strip_brackets host))

  unfoldable pub is_loopback_origin : String → Bool
  unfolding strip_brackets
  is_loopback_origin origin = host_is_loopback (hostname origin)

  -- The handler that `Origin` returns, on the value of the header.
  unfoldable pub enforce : OriginConfig → String → Outcome
  unfolding is_loopback_origin contains
  enforce cfg origin =
      if origin == ""
      then served
      else if contains cfg.allowed origin
      then served
      else if cfg.allow_loopback && is_loopback_origin origin
      then served
      else if cfg.has_on_deny
      then denied origin
      else forbidden 403
