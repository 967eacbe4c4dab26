-- ===== src/Provider/Tests.antt =====
-- Runs of `applyDefaults`.
use mcp_kit.Prelude.{ℕ, String, ◌≡◌, ◌⊎◌, inl, inr, refl, none, some, List, [], ◌∷◌}
use mcp_kit.Prelude.Int.{pos}
use mcp_kit.Text.{trim_right_char}
use mcp_kit.Provider.{Config, ConfigError, secret_length, issuer_required, apply_defaults}

abbrev bytes : List ℕ
bytes =
    1 ∷ 2 ∷ 3 ∷ 4 ∷ 5 ∷ 6 ∷ 7 ∷ 8 ∷ 1 ∷ 2 ∷ 3 ∷ 4 ∷ 5 ∷ 6 ∷ 7 ∷ 8 ∷ 1 ∷ 2 ∷ 3 ∷ 4 ∷ 5 ∷ 6 ∷ 7 ∷ 8
    ∷ 1 ∷ 2 ∷ 3 ∷ 4 ∷ 5 ∷ 6 ∷ 7 ∷ 8 ∷ []

-- Emitter, clock, store and key manager are numbers.
abbrev bare : List ℕ → String → Config ℕ ℕ ℕ ℕ
bare secret issuer = record {
  secret = secret;
  issuer = issuer;
  audience = "";
  store = some 1;
  key_manager = some 2;
  allowed_scopes = [];
  default_scopes = [];
  access_token_lifespan = pos 0;
  refresh_token_lifespan = pos 0;
  authorize_code_lifespan = pos 0;
  id_token_lifespan = pos 0;
  audit_emitter = none;
  refresh_replay_window = pos 0;
  now = none;
}

refused_short : apply_defaults 3 4 (some bytes) (bare (1 ∷ []) "a") ≡ inl (secret_length 1)
unfolding apply_defaults
refused_short = refl

refused_issuer : apply_defaults 3 4 (some bytes) (bare [] "") ≡ inl issuer_required
unfolding apply_defaults
refused_issuer = refl

-- The audience of a configuration, where there is one.
audience_of : ConfigError ⊎ Config ℕ ℕ ℕ ℕ → String
audience_of (inl e) = ""
audience_of (inr c) = c.audience

audience_is :
    audience_of (apply_defaults 3 4 (some bytes) (bare [] "https://a.example/"))
    ≡ "https://a.example/mcp"
unfolding audience_of apply_defaults trim_right_char
audience_is = refl
