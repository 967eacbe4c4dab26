-- ===== src/Cliauth/Login/Laws.antt =====
-- What an exchange posts and stores, and what a login then answers.
use mcp_kit.Prelude.{
  ℕ, zero, suc, ◌-◌, Option, some, List, ◌+◌, ◌*◌, ◌^◌, ◌<◌, String, true, false, ◌≡◌, ◌⊎◌, inl,
  inr, refl, arith, [], ◌∷◌, ◌++◌, leb, ◌==◌, eq_refl, Bool-cases,
}
use mcp_kit.Prelude.Int.{ℤ, pos, negsuc, add_duration, int64, int64-eq}
use mcp_kit.Cliauth.Credstore.{
  Credentials, Error, Result, ok, err, refresh_buffer, needs_refresh, load_host,
}
use mcp_kit.Cliauth.Credstore.Laws.{load_host-save_host}
use mcp_kit.Cliauth.Discovery.{Library, Endpoints, endpoints, AllTrusted, endpoints-AllTrusted}
use mcp_kit.Cliauth.Login.{
  Login, TokenResponse, Inputs, expiry, or_kept, post_token, or_empty, host_from_issuer,
  validate_authorize_issuer,
}
use mcp_kit.Cliauth.Login.Exchange.{
  ExchangeParams, exchanged, exchange_token, exchange_at, exchange_for, exchange_and_save,
}
use mcp_kit.Cliauth.Login.Session.{get_access_token}

pub Result-cases :
    {A : Type 0} (r : Result A) → ((a : A) × (r ≡ ok a)) ⊎ ((e : Error) × (r ≡ err e))
Result-cases (ok a) = inl (a, refl)
Result-cases (err e) = inr (e, refl)

-- Credentials of the login's own issuer that do not expire soon are used as they are.
pub get_access_token_fresh :
    (lib : Library) (j : Inputs) (m : Login) (host : String) (c : Credentials)
    → host_from_issuer lib m.issuer ≡ ok host
    → load_host host m.file ≡ ok c
    → (c.issuer == m.issuer) ≡ true
    → needs_refresh j.now c ≡ false
    → get_access_token lib j m ≡ (ok c.access_token, m)
unfolding get_access_token
get_access_token_fresh lib j m host c is loads own fresh = rw (is, loads, own, fresh) refl

-- A text that is told takes the place of another; an empty one leaves it.
abbrev pub Replaces : String → String → String → Type 0
Replaces old new stored =
    (((new == "") ≡ true) × (stored ≡ old)) ⊎ (((new == "") ≡ false) × (stored ≡ new))

-- A lifetime of some seconds ends that many, wrapped to 64 bits as nanoseconds, after now; one that
-- is not positive leaves the expiry.
abbrev pub Lasts : ℕ → ℤ → Option ℕ → Option ℕ → Type 0
Lasts now seconds old at =
    ((n : ℕ) × (seconds ≡ pos n)
      × (0 < n)
      × (at ≡ some (add_duration now (int64 (n * 1_000_000_000)))))
    ⊎ (((seconds ≡ pos 0) ⊎ ((n : ℕ) × (seconds ≡ negsuc n))) × (at ≡ old))

pub or_kept-Replaces : (old new : String) → Replaces old new (or_kept old new)
or_kept-Replaces old new = elim (Bool-cases (new == "")) [
  | inl e ↦ inl (e, rw e refl)
  | inr e ↦ inr (e, rw e refl)
]

pub expiry-Lasts :
    (now : ℕ) (seconds : ℤ) (old : Option ℕ) → Lasts now seconds old (expiry now seconds old)
expiry-Lasts now (pos zero) old = inr (inl refl, refl)
expiry-Lasts now (pos (suc n)) old = inl (suc n, refl, omega arith, refl)
expiry-Lasts now (negsuc n) old = inr (inr (n, refl), refl)

module _ (lib : Library) (i : Inputs) (p : ExchangeParams lib) (l : Login) where
  -- The form of the code, with its verifier.
  abbrev pub code_form : List (String × String)
  code_form =
      ("grant_type", "authorization_code")
      ∷ ("code", p.code)
      ∷ ("redirect_uri", p.redirect_uri)
      ∷ ("client_id", p.client_id)
      ∷ ("code_verifier", p.verifier)
      ∷ []

  -- What is posted: nothing, or the code, to a token endpoint that is trusted.
  abbrev pub PostsCode : Result (Unit {0}) × Login → Type 0
  PostsCode r =
      (r.1.posted ≡ l.posted)
      ⊎ ((e : Endpoints) × AllTrusted lib l.issuer e
          × (validate_authorize_issuer lib l.issuer p.issuer ≡ true)
          × (r.1.posted ≡ l.posted ++ record { address = e.token; form = code_form } ∷ []))

  abbrev Exact : Result (Unit {0}) × Login → Type 0
  Exact r =
      ((e : Error) × (r.0 ≡ err e) × (r.1.file ≡ l.file))
      ⊎ ((host : String) × (t : TokenResponse) × (r.0 ≡ ok tt)
          × (host_from_issuer lib l.issuer ≡ ok host)
          × (post_token i.token ≡ ok t)
          × (load_host host r.1.file
              ≡ ok (exchanged lib l.issuer p t i.now (or_empty (load_host host l.file))))
          × ((k : String) → (host == k) ≡ false → load_host k r.1.file ≡ load_host k l.file))

  -- Credentials that hold the token of an answer, over those that were stored before.
  abbrev pub Holds : TokenResponse → Credentials → Credentials → Type 0
  Holds t old c =
      (c.issuer ≡ l.issuer)
      × (c.client_id ≡ p.client_id)
      × (c.redirect_uris ≡ old.redirect_uris)
      × (c.access_token ≡ t.access_token)
      × Replaces old.refresh_token t.refresh_token c.refresh_token
      × Lasts i.now t.expires_in old.expires_at c.expires_at
      × (c.scope ≡ p.scope)

  -- What is stored: nothing on an error, and otherwise the token, for the issuer's host alone.
  abbrev pub StoresToken : Result (Unit {0}) × Login → Type 0
  StoresToken r =
      ((e : Error) × (r.0 ≡ err e) × (r.1.file ≡ l.file))
      ⊎ ((host : String) × (t : TokenResponse) × (c : Credentials) × (r.0 ≡ ok tt)
          × (host_from_issuer lib l.issuer ≡ ok host)
          × (post_token i.token ≡ ok t)
          × (load_host host r.1.file ≡ ok c)
          × Holds t (or_empty (load_host host l.file)) c
          × ((k : String) → (host == k) ≡ false → load_host k r.1.file ≡ load_host k l.file))

  exchanged-Holds :
      (t : TokenResponse) (old : Credentials) → Holds t old (exchanged lib l.issuer p t i.now old)
  exchanged-Holds t old = (
    refl,
    refl,
    refl,
    refl,
    or_kept-Replaces old.refresh_token t.refresh_token,
    expiry-Lasts i.now t.expires_in old.expires_at,
    refl,
  )

  Exact-StoresToken : (r : Result (Unit {0}) × Login) → Exact r → StoresToken r
  Exact-StoresToken r (inl failed) = inl failed
  Exact-StoresToken r (inr (host, t, done, is, answer, loads, others)) = inr (
    host,
    t,
    exchanged lib l.issuer p t i.now (or_empty (load_host host l.file)),
    done,
    is,
    answer,
    loads,
    exchanged-Holds t (or_empty (load_host host l.file)),
    others,
  )

  abbrev Outcome : Result (Unit {0}) × Login → Type 0
  Outcome r = (r.1.issuer ≡ l.issuer) × PostsCode r × Exact r

  exchange_token-Outcome :
      (host : String) (e : Endpoints) (m : Login) (o : Result TokenResponse)
      → validate_authorize_issuer lib l.issuer p.issuer ≡ true
      → host_from_issuer lib l.issuer ≡ ok host
      → AllTrusted lib l.issuer e
      → m.issuer ≡ l.issuer
      → m.file ≡ l.file
      → m.posted ≡ l.posted ++ record { address = e.token; form = code_form } ∷ []
      → post_token i.token ≡ o
      → Outcome (exchange_token lib i p host m o)
  exchange_token-Outcome host e m (err x) own is trusted same file posted answer =
      (same, inr (e, trusted, own, posted), inl (x, refl, file))
  exchange_token-Outcome host e m (ok t) own is trusted same file posted answer =
      let creds = exchanged lib l.issuer p t i.now (or_empty (load_host host l.file)) in
      rw (same, file)
        (
          refl,
          inr (e, trusted, own, posted),
          elim (load_host-save_host i.writes host creds l.file) [
            | inl (done, loads, others) ↦ inr (host, t, done, is, answer, loads, others)
            | inr (x, failed, kept) ↦ inl (x, failed, kept)
          ],
        )

  exchange_at-Outcome :
      (host : String) (o : Result Endpoints × Endpoints)
      → validate_authorize_issuer lib l.issuer p.issuer ≡ true
      → host_from_issuer lib l.issuer ≡ ok host
      → ((e : Endpoints) → o.0 ≡ ok e → AllTrusted lib l.issuer e)
      → Outcome (exchange_at lib i p host l o)
  exchange_at-Outcome host (err x, kept) own is trusted = (refl, inl refl, inl (x, refl, refl))
  exchange_at-Outcome host (ok e, kept) own is trusted =
      exchange_token-Outcome host e _ (post_token i.token) own is (trusted e refl) refl refl refl
        refl

  exchange_for-Outcome :
      (o : Result String)
      → validate_authorize_issuer lib l.issuer p.issuer ≡ true
      → host_from_issuer lib l.issuer ≡ o
      → Outcome (exchange_for lib i p l o)
  exchange_for-Outcome (err x) own is = (refl, inl refl, inl (x, refl, refl))
  exchange_for-Outcome (ok host) own is =
      exchange_at-Outcome host (endpoints lib l.issuer l.endpoints i.discovered) own is
        (λ e h. endpoints-AllTrusted lib l.issuer l.endpoints e i.discovered h)

  exchange_and_save-Outcome : Outcome (exchange_and_save lib i p l)
  unfolding exchange_and_save
  exchange_and_save-Outcome = elim (Bool-cases (validate_authorize_issuer lib l.issuer p.issuer)) [
    | inl e ↦
        let is : exchange_and_save lib i p l
            ≡ exchange_for lib i p l (host_from_issuer lib l.issuer) =
          rw e refl in
        rw is (exchange_for-Outcome (host_from_issuer lib l.issuer) e refl)
    | inr e ↦ rw e (refl, inl refl, inl (_, refl, refl))
  ]

  -- An exchange posts nothing, or the code, once, to the token endpoint of endpoints on the
  -- issuer's own origin, and then the response named no issuer or this one. On an error the file
  -- stays as it was; otherwise the credentials for the host of the issuer hold the tokens of the
  -- answer, their expiry and the client, where the answer tells no refresh token or lifetime the
  -- old one, and the credentials of other hosts are as before.
  pub exchange_and_save_sound :
      PostsCode (exchange_and_save lib i p l) × StoresToken (exchange_and_save lib i p l)
  exchange_and_save_sound =
      let (_, posts, stores) = exchange_and_save-Outcome in
      (posts, Exact-StoresToken (exchange_and_save lib i p l) stores)

  -- After an exchange that succeeds, the access token of the answer is what the login returns,
  -- without another request, as long as more than 30 seconds of its lifetime are left, where the
  -- lifetime is below 2 ^ 63 nanoseconds.
  pub get_access_token-exchange_and_save :
      (j : Inputs) (t : TokenResponse) (n : ℕ)
      → (exchange_and_save lib i p l).0 ≡ ok tt
      → post_token i.token ≡ ok t
      → t.expires_in ≡ pos (suc n)
      → suc n * 1_000_000_000 < 2 ^ 63
      → j.now + refresh_buffer < i.now + suc n * 1_000_000_000
      → get_access_token lib j (exchange_and_save lib i p l).1
        ≡ (ok t.access_token, (exchange_and_save lib i p l).1)
  unfolding needs_refresh
  get_access_token-exchange_and_save j t n done answer lives within early =
      let (same, _, stores) = exchange_and_save-Outcome in
      elim stores [
        | inl (e, failed, _) ↦ absurd (cc)
        | inr (host, u, _, is, answer', loads, _) ↦
            let token : u ≡ t = cc in
            let m = (exchange_and_save lib i p l).1 in
            let c = exchanged lib l.issuer p u i.now (or_empty (load_host host l.file)) in
            let own : (l.issuer == m.issuer) ≡ true = rw same (eq_refl l.issuer) in
            let late : leb (i.now + suc n * 1_000_000_000 - 0) (j.now + refresh_buffer) ≡ false =
              ground arith in
            let fresh : needs_refresh j.now c ≡ false =
              rw (token, lives, int64-eq (suc n * 1_000_000_000) within) late in
            let known : host_from_issuer lib m.issuer ≡ ok host = rw same is in
            let returned = get_access_token_fresh lib j m host c known loads own fresh in
            rw (← token) returned
      ]
