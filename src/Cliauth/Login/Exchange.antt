-- ===== src/Cliauth/Login/Exchange.antt =====
-- `exchangeAndSave` of cliauth/login.go.
use mcp_kit.Prelude.{ℕ, String, List, [], ◌∷◌, ◌++◌, if◌then◌else◌}
use mcp_kit.Cliauth.Credstore.{Credentials, issuer_mismatch, Result, ok, err, load_host, save_host}
use mcp_kit.Cliauth.Discovery.{Library, Endpoints, endpoints}
use mcp_kit.Cliauth.Login.{
  Login, TokenResponse, Inputs, post_token, expiry, or_kept, or_empty, saved_in, host_from_issuer,
  validate_authorize_issuer,
}

module _ (lib : Library) where
  -- `exchangeParams`
  pub record ExchangeParams : Type 0 where
    pub client_id : String
    pub redirect_uri : String
    pub code : String
    pub verifier : String
    pub scope : String
    pub issuer : String

  abbrev pub exchange_form : ExchangeParams → List (String × String)
  exchange_form p =
      ("grant_type", "authorization_code")
      ∷ ("code", p.code)
      ∷ ("redirect_uri", p.redirect_uri)
      ∷ ("client_id", p.client_id)
      ∷ ("code_verifier", p.verifier)
      ∷ []

  -- The credentials after an exchange, over those that were stored.
  abbrev pub exchanged : String → ExchangeParams → TokenResponse → ℕ → Credentials → Credentials
  exchanged issuer p t now c = record {
    issuer = issuer;
    client_id = p.client_id;
    redirect_uris = c.redirect_uris;
    access_token = t.access_token;
    refresh_token = or_kept c.refresh_token t.refresh_token;
    expires_at = expiry now t.expires_in c.expires_at;
    scope = p.scope;
  }

  abbrev pub exchange_token :
      Inputs → ExchangeParams → String → Login → Result TokenResponse → Result (Unit {0}) × Login
  exchange_token i p host l (err e) = (err e, l)
  exchange_token i p host l (ok t) = saved_in l (
      save_host i.writes host (exchanged l.issuer p t i.now (or_empty (load_host host l.file)))
        l.file)

  abbrev pub exchange_at :
      Inputs
      → ExchangeParams
      → String
      → Login
      → Result Endpoints × Endpoints
      → Result (Unit {0}) × Login
  exchange_at i p host l (err e, kept) = (err e, record l { endpoints = kept })
  exchange_at i p host l (ok e, kept) =
      exchange_token i p host
        (record l {
          endpoints = kept;
          posted = l.posted ++ record { address = e.token; form = exchange_form p } ∷ [];
        })
        (post_token i.token)

  abbrev pub exchange_for :
      Inputs → ExchangeParams → Login → Result String → Result (Unit {0}) × Login
  exchange_for i p l (err e) = (err e, l)
  exchange_for i p l (ok host) =
      exchange_at i p host l (endpoints lib l.issuer l.endpoints i.discovered)

  -- `exchangeAndSave`
  unfoldable pub exchange_and_save : Inputs → ExchangeParams → Login → Result (Unit {0}) × Login
  unfolding validate_authorize_issuer host_from_issuer endpoints post_token load_host save_host
  exchange_and_save i p l =
      if validate_authorize_issuer lib l.issuer p.issuer
      then exchange_for i p l (host_from_issuer lib l.issuer)
      else (err issuer_mismatch, l)
