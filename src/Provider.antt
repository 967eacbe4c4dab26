-- ===== src/Provider.antt =====
-- `Config` of oauth/config.go, and `applyDefaults`. A lifespan is a signed number of nanoseconds;
-- `none` is nil. The random bytes are an input, with the emitter `audit.Discard` and the clock
-- `time.Now`.
pub mod Laws
mod Tests
use Prim.Native.String
use mcp_kit.Prelude.{
  ℕ, zero, suc, String, Bool, true, false, not, ◌⊎◌, inl, inr, Option, none, some, List, [], ◌∷◌,
  length, nat_eq, ◌==◌, if◌then◌else◌,
}
use mcp_kit.Prelude.Int.{ℤ, pos, negsuc}
use mcp_kit.Text.{trim_right_char}

-- An emitter, a clock, a store and a key manager are values of the parameters.
pub record Config (E C S K : Type 0) : Type 0 where
  pub secret : List ℕ
  pub issuer : String
  pub audience : String
  pub store : Option S
  pub key_manager : Option K
  pub allowed_scopes : List String
  pub default_scopes : List String
  pub access_token_lifespan : ℤ
  pub refresh_token_lifespan : ℤ
  pub authorize_code_lifespan : ℤ
  pub id_token_lifespan : ℤ
  pub audit_emitter : Option E
  pub refresh_replay_window : ℤ
  pub now : Option C

pub data ConfigError : Type 0 where
  secret_failed issuer_required store_required key_manager_required : ConfigError
  secret_length : ℕ → ConfigError

abbrev default_access_token_lifespan : ℤ
default_access_token_lifespan = pos 3600000000000

abbrev default_refresh_token_lifespan : ℤ
default_refresh_token_lifespan = pos 2592000000000000

abbrev pub or_lifespan : ℤ → ℤ → ℤ
or_lifespan given (pos zero) = given
or_lifespan given (pos (suc n)) = pos (suc n)
or_lifespan given (negsuc n) = negsuc n

abbrev pub or_some : {A : Type 0} → A → Option A → Option A
or_some given none = some given
or_some given (some x) = some x

module _ {E C S K : Type 0} where
  abbrev pub with_defaults : E → C → Config E C S K → Config E C S K
  with_defaults discard clock c = record c {
    audit_emitter = or_some discard c.audit_emitter;
    now = or_some clock c.now;
    access_token_lifespan = or_lifespan default_access_token_lifespan c.access_token_lifespan;
    refresh_token_lifespan = or_lifespan default_refresh_token_lifespan c.refresh_token_lifespan;
    authorize_code_lifespan = or_lifespan (pos 600000000000) c.authorize_code_lifespan;
    id_token_lifespan = or_lifespan (pos 3600000000000) c.id_token_lifespan;
  }

  abbrev pub with_audience : Config E C S K → Config E C S K
  with_audience c =
      if c.audience == ""
      then record c { audience = String.◌++◌ (trim_right_char b'/' c.issuer) "/mcp" }
      else c

  abbrev pub with_stores : Option S → Option K → Config E C S K → ConfigError ⊎ Config E C S K
  with_stores none k c = inl store_required
  with_stores (some s) none c = inl key_manager_required
  with_stores (some s) (some k) c = inr c

  abbrev pub checked : Config E C S K → ConfigError ⊎ Config E C S K
  checked c =
      if not (nat_eq (length c.secret) 32)
      then inl (secret_length (length c.secret))
      else if c.issuer == ""
      then inl issuer_required
      else with_stores c.store c.key_manager (with_audience c)

  abbrev pub drawn : Option (List ℕ) → Config E C S K → ConfigError ⊎ Config E C S K
  drawn none c = inl secret_failed
  drawn (some bytes) c = checked (record c { secret = bytes })

  abbrev pub with_secret : Option (List ℕ) → Config E C S K → ConfigError ⊎ Config E C S K
  with_secret random c = if nat_eq (length c.secret) 0 then drawn random c else checked c

  -- `applyDefaults`, with the 32 bytes that `rand.Read` yields, or none where it fails.
  unfoldable pub apply_defaults :
      E → C → Option (List ℕ) → Config E C S K → ConfigError ⊎ Config E C S K
  apply_defaults discard clock random c = with_secret random (with_defaults discard clock c)
