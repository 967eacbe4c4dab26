-- ===== src/Cliauth/Login/Session.antt =====
-- What a login does with stored credentials: `GetAccessToken` with `refresh`, `Logout` and
-- `ensureRegistered` of cliauth/login.go.
use mcp_kit.Prelude.{ℕ, String, not, ◌&&◌, List, [], ◌∷◌, ◌++◌, contains, ◌==◌, if◌then◌else◌}
use mcp_kit.Cliauth.Credstore.{
  Credentials, File, not_logged_in, refresh_impossible, Result, ok, err, needs_refresh, load_host,
  save_host, delete_host,
}
use mcp_kit.Cliauth.Discovery.{Library, Endpoints, endpoints}
use mcp_kit.Cliauth.Login.{
  Login, DcrResponse, TokenResponse, Inputs, post_token, post_registration, expiry, or_kept,
  or_empty, saved_in, host_from_issuer,
}

module _ (lib : Library) where
  abbrev pub refresh_form : Credentials → List (String × String)
  refresh_form c =
      ("grant_type", "refresh_token")
      ∷ ("refresh_token", c.refresh_token)
      ∷ ("client_id", c.client_id)
      ∷ []

  abbrev pub refreshed : TokenResponse → ℕ → Credentials → Credentials
  refreshed t now c = record c {
    access_token = t.access_token;
    refresh_token = or_kept c.refresh_token t.refresh_token;
    expires_at = expiry now t.expires_in c.expires_at;
  }

  abbrev pub refresh_saved : String → Login → Result (Unit {0}) × File → Result String × Login
  refresh_saved token l (ok u, f) = (ok token, record l { file = f })
  refresh_saved token l (err e, f) = (err e, record l { file = f })

  abbrev pub refresh_token_in :
      Inputs → String → Credentials → Login → Result TokenResponse → Result String × Login
  refresh_token_in i host c l (err e) = (err e, l)
  refresh_token_in i host c l (ok t) =
      refresh_saved t.access_token l (save_host i.writes host (refreshed t i.now c) l.file)

  -- `refresh`, with the token that `GetAccessToken` then returns.
  unfoldable pub refresh : Inputs → String → Credentials → Endpoints → Login → Result String × Login
  unfolding post_token save_host
  refresh i host c e l =
      refresh_token_in i host c
        (record l { posted = l.posted ++ record { address = e.token; form = refresh_form c } ∷ [] })
        (post_token i.token)

  abbrev pub refresh_at :
      Inputs → String → Credentials → Login → Result Endpoints × Endpoints → Result String × Login
  refresh_at i host c l (err e, kept) = (err e, record l { endpoints = kept })
  refresh_at i host c l (ok e, kept) = refresh i host c e (record l { endpoints = kept })

  abbrev pub access_token_of : Inputs → String → Login → Result Credentials → Result String × Login
  access_token_of i host l (err e) = (err e, l)
  access_token_of i host l (ok c) =
      if not (c.issuer == l.issuer)
      then (err not_logged_in, l)
      else if not (needs_refresh i.now c)
      then (ok c.access_token, l)
      else if c.refresh_token == ""
      then (err refresh_impossible, l)
      else refresh_at i host c l (endpoints lib l.issuer l.endpoints i.discovered)

  abbrev pub access_token_for : Inputs → Login → Result String → Result String × Login
  access_token_for i l (err e) = (err e, l)
  access_token_for i l (ok host) = access_token_of i host l (load_host host l.file)

  -- `GetAccessToken`
  unfoldable pub get_access_token : Inputs → Login → Result String × Login
  unfolding host_from_issuer load_host needs_refresh endpoints refresh
  get_access_token i l = access_token_for i l (host_from_issuer lib l.issuer)

  abbrev revocation_form : Credentials → List (String × String)
  revocation_form c =
      ("token", c.refresh_token)
      ∷ ("token_type_hint", "refresh_token")
      ∷ ("client_id", c.client_id)
      ∷ []

  abbrev pub revoke_at : Credentials → Login → Result Endpoints × Endpoints → Login
  revoke_at c l (err e, kept) = record l { endpoints = kept }
  revoke_at c l (ok e, kept) =
      if e.revocation == "" then record l { endpoints = kept } else (record l {
        endpoints = kept;
        posted = l.posted ++ record { address = e.revocation; form = revocation_form c } ∷ [];
      })

  -- The login after the revocation, whose answer is not regarded.
  abbrev pub revoked : Inputs → Credentials → Login → Login
  revoked i c l =
      if c.refresh_token == ""
      then l
      else revoke_at c l (endpoints lib l.issuer l.endpoints i.discovered)

  abbrev pub logout_of : Inputs → String → Login → Result Credentials → Result (Unit {0}) × Login
  logout_of i host l (err not_logged_in) = (ok tt, l)
  logout_of i host l (err e) = (err e, l)
  logout_of i host l (ok c) =
      if not (c.issuer == l.issuer)
      then (ok tt, l)
      else saved_in (revoked i c l) (delete_host i.writes host (revoked i c l).file)

  abbrev pub logout_for : Inputs → Login → Result String → Result (Unit {0}) × Login
  logout_for i l (err e) = (err e, l)
  logout_for i l (ok host) = logout_of i host l (load_host host l.file)

  -- `Logout`
  unfoldable pub logout : Inputs → Login → Result (Unit {0}) × Login
  unfolding host_from_issuer load_host endpoints delete_host
  logout i l = logout_for i l (host_from_issuer lib l.issuer)

  abbrev pub registration_saved : String → Login → Result (Unit {0}) × File → Result String × Login
  registration_saved id l (ok u, f) = (ok id, record l { file = f })
  registration_saved id l (err e, f) = (err e, record l { file = f })

  abbrev pub register_in : Inputs → String → Login → Result DcrResponse → Result String × Login
  register_in i host l (err e) = (err e, l)
  register_in i host l (ok d) =
      let stored = or_empty (load_host host l.file) in
      registration_saved d.client_id l (
        save_host i.writes host
          (record stored {
            issuer = l.issuer;
            client_id = d.client_id;
            redirect_uris = d.redirect_uris;
          })
          l.file)

  abbrev pub ensure_of :
      Inputs → String → String → Login → Result Credentials → Result String × Login
  ensure_of i host uri l (ok c) =
      if not (c.client_id == "") && c.issuer == l.issuer && contains c.redirect_uris uri
      then (ok c.client_id, l)
      else register_in i host l (post_registration i.registered)
  ensure_of i host uri l (err not_logged_in) = register_in i host l (post_registration i.registered)
  ensure_of i host uri l (err e) = (err e, l)

  abbrev pub ensure_for : Inputs → String → Login → Result String → Result String × Login
  ensure_for i uri l (err e) = (err e, l)
  ensure_for i uri l (ok host) = ensure_of i host uri l (load_host host l.file)

  -- `ensureRegistered`; the registration request carries no secret and is not kept.
  unfoldable pub ensure_registered : Inputs → String → Login → Result String × Login
  unfolding host_from_issuer load_host save_host post_registration contains
  ensure_registered i uri l = ensure_for i uri l (host_from_issuer lib l.issuer)
