-- ===== src/Cliauth/Login/Tokens.antt =====
-- Which access tokens a login returns, and whose tokens a registration keeps.
use mcp_kit.Prelude.{
  String, true, false, not, ◌&&◌, ◌≡◌, ◌⊎◌, inl, inr, refl, ◌∙◌, arith, [], ◌∷◌, ◌++◌, List,
  contains, ◌==◌, eq_iff, eq_refl, Bool-cases,
}
use mcp_kit.Cliauth.Credstore.{Credentials, Error, Result, ok, err, needs_refresh, load_host}
use mcp_kit.Cliauth.Credstore.Laws.{load_host-save_host}
use mcp_kit.Cliauth.Discovery.{Library, Endpoints, endpoints, AllTrusted, endpoints-AllTrusted}
use mcp_kit.Cliauth.Login.{
  Login, TokenResponse, DcrResponse, Inputs, post_token, post_registration, host_from_issuer,
}
use mcp_kit.Cliauth.Login.Session.{
  refreshed, refresh_token_in, refresh, refresh_at, access_token_of, access_token_for,
  get_access_token, register_in, ensure_registered,
}
use mcp_kit.Cliauth.Login.Laws.{
  Replaces, Lasts, or_kept-Replaces, expiry-Lasts, get_access_token_fresh,
}

module _ (lib : Library) (i : Inputs) (l : Login) where
  -- The form of a refresh.
  abbrev pub token_form : Credentials → List (String × String)
  token_form c =
      ("grant_type", "refresh_token")
      ∷ ("refresh_token", c.refresh_token)
      ∷ ("client_id", c.client_id)
      ∷ []

  -- Credentials with the tokens of an answer, and otherwise as they were.
  abbrev pub Renewed : TokenResponse → Credentials → Credentials → Type 0
  Renewed t c d =
      (d.issuer ≡ c.issuer)
      × (d.client_id ≡ c.client_id)
      × (d.redirect_uris ≡ c.redirect_uris)
      × (d.access_token ≡ t.access_token)
      × Replaces c.refresh_token t.refresh_token d.refresh_token
      × Lasts i.now t.expires_in c.expires_at d.expires_at
      × (d.scope ≡ c.scope)

  -- A refresh at a trusted token endpoint, whose answer is stored.
  abbrev pub Refreshes : String → Credentials → String → Login → Type 0
  Refreshes host c token after =
      (e : Endpoints) × (t : TokenResponse) × AllTrusted lib l.issuer e
      × (after.posted ≡ l.posted ++ record { address = e.token; form = token_form c } ∷ [])
      × (post_token i.token ≡ ok t)
      × (token ≡ t.access_token)
      × (d : Credentials) × (load_host host after.file ≡ ok d)
      × Renewed t c d

  abbrev pub Returns : Result String × Login → Type 0
  Returns r =
      ((e : Error) × (r.0 ≡ err e) × (r.1.file ≡ l.file))
      ⊎ ((token : String) × (host : String) × (c : Credentials) × (r.0 ≡ ok token)
          × (host_from_issuer lib l.issuer ≡ ok host)
          × (load_host host l.file ≡ ok c)
          × (c.issuer ≡ l.issuer)
          × (((needs_refresh i.now c ≡ false) × (token ≡ c.access_token) × (r.1 ≡ l))
              ⊎ Refreshes host c token r.1))

  abbrev OfHost : String → Credentials → Type 0
  OfHost host c =
      (host_from_issuer lib l.issuer ≡ ok host)
      × (load_host host l.file ≡ ok c)
      × (c.issuer ≡ l.issuer)

  renewed : (t : TokenResponse) (c : Credentials) → Renewed t c (refreshed lib t i.now c)
  renewed t c = (
    refl,
    refl,
    refl,
    refl,
    or_kept-Replaces c.refresh_token t.refresh_token,
    expiry-Lasts i.now t.expires_in c.expires_at,
    refl,
  )

  refresh_in-Returns :
      (host : String) (c : Credentials) (e : Endpoints) (m : Login) (o : Result TokenResponse)
      → OfHost host c
      → AllTrusted lib l.issuer e
      → m.file ≡ l.file
      → m.posted ≡ l.posted ++ record { address = e.token; form = token_form c } ∷ []
      → post_token i.token ≡ o
      → Returns (refresh_token_in lib i host c m o)
  refresh_in-Returns host c e m (err x) of trusted file posted answer = inl (x, refl, file)
  refresh_in-Returns host c e m (ok t) (is, held, own) trusted file posted answer =
      elim (load_host-save_host i.writes host (refreshed lib t i.now c) m.file) [
        | inl (done, loads, _) ↦ rw done (
            inr (
              t.access_token,
              host,
              c,
              refl,
              is,
              held,
              own,
              inr (e, t, trusted, posted, answer, refl, _, loads, renewed t c),
            ))
        | inr (x, failed, kept) ↦ rw failed (inl (x, refl, kept ∙ file))
      ]

  refresh_at-Returns :
      (host : String) (c : Credentials) (o : Result Endpoints × Endpoints)
      → OfHost host c
      → ((e : Endpoints) → o.0 ≡ ok e → AllTrusted lib l.issuer e)
      → Returns (refresh_at lib i host c l o)
  unfolding refresh
  refresh_at-Returns host c (err x, kept) of trusted = inl (x, refl, refl)
  refresh_at-Returns host c (ok e, kept) of trusted =
      refresh_in-Returns host c e _ (post_token i.token) of (trusted e refl) refl refl refl

  access_token_of-Returns :
      (host : String) (o : Result Credentials)
      → host_from_issuer lib l.issuer ≡ ok host
      → load_host host l.file ≡ o
      → Returns (access_token_of lib i host l o)
  access_token_of-Returns host (err x) is held = inl (x, refl, refl)
  access_token_of-Returns host (ok c) is held = elim (Bool-cases (c.issuer == l.issuer)) [
    | inr e ↦ rw e (inl (_, refl, refl))
    | inl e ↦
        let own = (eq_iff c.issuer l.issuer).0 e in
        elim (Bool-cases (needs_refresh i.now c)) [
          | inr f ↦
              let kept : access_token_of lib i host l (ok c) ≡ (ok c.access_token, l) =
                rw (e, f) refl in
              rw kept (inr (c.access_token, host, c, refl, is, held, own, inl (f, refl, refl)))
          | inl f ↦ elim (Bool-cases (c.refresh_token == "")) [
            | inl g ↦ rw (e, f, g) (inl (_, refl, refl))
            | inr g ↦
                let at = endpoints lib l.issuer l.endpoints i.discovered in
                let asks : access_token_of lib i host l (ok c) ≡ refresh_at lib i host c l at =
                  rw (e, f, g) refl in
                rw asks (
                  refresh_at-Returns host c at (is, held, own)
                    (λ x h. endpoints-AllTrusted lib l.issuer l.endpoints x i.discovered h))
          ]
        ]
  ]

  access_token_for-Returns :
      (o : Result String) → host_from_issuer lib l.issuer ≡ o → Returns (access_token_for lib i l o)
  access_token_for-Returns (err x) is = inl (x, refl, refl)
  access_token_for-Returns (ok host) is =
      access_token_of-Returns host (load_host host l.file) is refl

  -- A login answers with an error, and leaves the file alone; or with an access token, for which
  -- the file held credentials that are labelled with this issuer: either that of the credentials, which do not
  -- expire soon, and then nothing changes, or that of a refresh with their refresh token, which is
  -- posted to an endpoint on the issuer's own origin and whose answer is stored in these credentials.
  pub get_access_token-Returns : Returns (get_access_token lib i l)
  unfolding get_access_token
  get_access_token-Returns = access_token_for-Returns (host_from_issuer lib l.issuer) refl

  registers :
      (uri host : String) (c : Credentials)
      → host_from_issuer lib l.issuer ≡ ok host
      → load_host host l.file ≡ ok c
      → (c.issuer == l.issuer) ≡ false
      → ensure_registered lib i uri l ≡ register_in lib i host l (post_registration i.registered)
  unfolding ensure_registered
  registers uri host c is held other =
      let no_reuse : (not (c.client_id == "")
            && c.issuer == l.issuer
            && contains c.redirect_uris uri)
          ≡ false =
        ground arith in
      rw (is, held, no_reuse) refl

  -- The credentials that a registration stores over others.
  abbrev registered : DcrResponse → Credentials → Credentials
  registered d c = record c {
    issuer = l.issuer;
    client_id = d.client_id;
    redirect_uris = d.redirect_uris;
  }

  register_in-stored :
      (host id : String) (c : Credentials) (o : Result DcrResponse)
      → load_host host l.file ≡ ok c
      → (register_in lib i host l o).0 ≡ ok id
      → (d : DcrResponse) × ((register_in lib i host l o).1.issuer ≡ l.issuer)
        × (load_host host (register_in lib i host l o).1.file ≡ ok (registered d c))
  register_in-stored host id c (err e) held done = absurd (cc)
  register_in-stored host id c (ok d) held done =
      elim (load_host-save_host i.writes host (registered d c) l.file) [
        | inl (saved, loads, _) ↦ (d, rw (held, saved) refl, rw (held, saved) loads)
        | inr (x, failed, _) ↦ absurd (cc (rw (held, failed) at done))
      ]

  -- A registration on a host whose stored credentials are of another issuer keeps the access token
  -- of that issuer: from then on it is returned as a token of this issuer, while it does not expire
  -- soon.
  pub get_access_token-ensure_registered :
      (j : Inputs) (uri id host : String) (c : Credentials)
      → host_from_issuer lib l.issuer ≡ ok host
      → load_host host l.file ≡ ok c
      → (c.issuer == l.issuer) ≡ false
      → (ensure_registered lib i uri l).0 ≡ ok id
      → needs_refresh j.now c ≡ false
      → (get_access_token lib j (ensure_registered lib i uri l).1).0 ≡ ok c.access_token
  unfolding needs_refresh
  get_access_token-ensure_registered j uri id host c is held other done fresh =
      let step = registers uri host c is held other in
      let (d, same, loads) =
        register_in-stored host id c (post_registration i.registered) held (rw step at done) in
      let m = (register_in lib i host l (post_registration i.registered)).1 in
      let own : (l.issuer == m.issuer) ≡ true = rw same (eq_refl l.issuer) in
      let known : host_from_issuer lib m.issuer ≡ ok host = rw same is in
      let returned = get_access_token_fresh lib j m host (registered d c) known loads own fresh in
      rw (step, returned) refl
