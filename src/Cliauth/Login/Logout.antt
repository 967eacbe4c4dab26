-- ===== src/Cliauth/Login/Logout.antt =====
-- What a logout leaves in the file.
use mcp_kit.Prelude.{
  String, false, ◌≡◌, ◌≢◌, ◌⊎◌, inl, inr, refl, ◌∙◌, arith, ◌==◌, eq_iff, Bool-cases,
}
use mcp_kit.Cliauth.Credstore.{
  Credentials, Error, not_logged_in, read_failed, parse_failed, host_is_empty, write_failed,
  remove_failed, host_not_found, issuer_is_invalid, endpoints_unknown, endpoint_refused,
  registration_failed, token_failed, issuer_mismatch, refresh_impossible, Result, ok, err,
  load_host, delete_host,
}
use mcp_kit.Cliauth.Credstore.Laws.{load_host-delete_host}
use mcp_kit.Cliauth.Discovery.{Library, Endpoints, endpoints}
use mcp_kit.Cliauth.Login.{Login, Inputs, host_from_issuer, saved_in}
use mcp_kit.Cliauth.Login.Session.{revoked, revoke_at, logout_of, logout_for, logout}

module _ (lib : Library) (i : Inputs) (l : Login) where
  -- After a logout nothing of this issuer is loaded for its host.
  abbrev pub LoggedOut : Result (Unit {0}) × Login → Type 0
  LoggedOut r =
      ((e : Error) × (r.0 ≡ err e) × (r.1.file ≡ l.file))
      ⊎ ((host : String) × (r.0 ≡ ok tt)
          × (host_from_issuer lib l.issuer ≡ ok host)
          × ((load_host host r.1.file ≡ err not_logged_in)
              ⊎ ((c : Credentials) × (load_host host r.1.file ≡ ok c) × (c.issuer ≢ l.issuer)))
          × ((k : String) → (host == k) ≡ false → load_host k r.1.file ≡ load_host k l.file))

  revoke_at-file :
      (c : Credentials) (o : Result Endpoints × Endpoints) → (revoke_at lib c l o).file ≡ l.file
  revoke_at-file c (err e, kept) = refl
  revoke_at-file c (ok e, kept) = elim (Bool-cases (e.revocation == "")) [
    | inl b ↦ rw b refl
    | inr b ↦ rw b refl
  ]

  revoked-file : (c : Credentials) → (revoked lib i c l).file ≡ l.file
  revoked-file c = elim (Bool-cases (c.refresh_token == "")) [
    | inl b ↦ rw b refl
    | inr b ↦ rw b (revoke_at-file c (endpoints lib l.issuer l.endpoints i.discovered))
  ]

  logout_of-LoggedOut :
      (host : String) (o : Result Credentials)
      → host_from_issuer lib l.issuer ≡ ok host
      → load_host host l.file ≡ o
      → LoggedOut (logout_of lib i host l o)
  logout_of-LoggedOut host (err not_logged_in) is held =
      inr (host, refl, is, inl held, λ k ne. refl)
  logout_of-LoggedOut host (err read_failed) is held = inl (_, refl, refl)
  logout_of-LoggedOut host (err parse_failed) is held = inl (_, refl, refl)
  logout_of-LoggedOut host (err host_is_empty) is held = inl (_, refl, refl)
  logout_of-LoggedOut host (err write_failed) is held = inl (_, refl, refl)
  logout_of-LoggedOut host (err remove_failed) is held = inl (_, refl, refl)
  logout_of-LoggedOut host (err (host_not_found h)) is held = inl (_, refl, refl)
  logout_of-LoggedOut host (err issuer_is_invalid) is held = inl (_, refl, refl)
  logout_of-LoggedOut host (err endpoints_unknown) is held = inl (_, refl, refl)
  logout_of-LoggedOut host (err endpoint_refused) is held = inl (_, refl, refl)
  logout_of-LoggedOut host (err registration_failed) is held = inl (_, refl, refl)
  logout_of-LoggedOut host (err token_failed) is held = inl (_, refl, refl)
  logout_of-LoggedOut host (err issuer_mismatch) is held = inl (_, refl, refl)
  logout_of-LoggedOut host (err refresh_impossible) is held = inl (_, refl, refl)
  logout_of-LoggedOut host (ok c) is held = elim (Bool-cases (c.issuer == l.issuer)) [
    | inr e ↦
        let other : c.issuer ≢ l.issuer = ground (arith, eq_iff c.issuer l.issuer) in
        let kept : logout_of lib i host l (ok c) ≡ (ok tt, l) = rw e refl in
        rw kept (inr (host, refl, is, inr (c, held, other), λ k ne. refl))
    | inl e ↦
        let m = revoked lib i c l in
        let same : m.file ≡ l.file = revoked-file c in
        let gone : logout_of lib i host l (ok c) ≡ saved_in m (delete_host i.writes host m.file) =
          rw e refl in
        rw gone (elim (load_host-delete_host i.writes host m.file) [
          | inl (done, none_left, others) ↦
              inr (host, done, is, inl none_left, λ k ne. rw (others k ne, same) refl)
          | inr (x, failed, kept) ↦ inl (x, failed, kept ∙ same)
        ])
  ]

  logout_for-LoggedOut :
      (o : Result String) → host_from_issuer lib l.issuer ≡ o → LoggedOut (logout_for lib i l o)
  logout_for-LoggedOut (err x) is = inl (x, refl, refl)
  logout_for-LoggedOut (ok host) is = logout_of-LoggedOut host (load_host host l.file) is refl

  -- A logout fails and leaves the file as it was; or afterwards no credentials of this issuer are
  -- loaded for its host, whatever the revocation of its token met, and the credentials of all
  -- other hosts are as before.
  pub logout-LoggedOut : LoggedOut (logout lib i l)
  unfolding logout
  logout-LoggedOut = logout_for-LoggedOut (host_from_issuer lib l.issuer) refl
