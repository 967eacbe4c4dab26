-- ===== src/Cliauth/Discovery.antt =====
-- The endpoints of a login: cliauth/discovery.go and `endpoints` of cliauth/login.go. What Go's
-- `net/url` parses, and the comparison of hosts, are parameters.
use mcp_kit.Prelude.{
  String, Bool, true, false, not, ◌&&◌, ◌||◌, ◌≡◌, ◌≢◌, ◌⊎◌, inl, inr, refl, arith, Option, none,
  some, ◌==◌, eq_iff, Bool-cases, Option-cases, if◌then◌else◌,
}
use mcp_kit.Text.{trim_right_char}
use mcp_kit.Cliauth.Credstore.{endpoints_unknown, endpoint_refused, Result, ok, err}

-- `url.URL`, as far as the package reads it.
pub record Url : Type 0 where
  pub scheme : String
  pub host : String
  pub hostname : String
  pub fragment : String
  pub is_abs : Bool

pub record Library : Type 0 where
  pub parse : String → Option Url
  pub equal_fold : String → String → Bool
  pub to_lower : String → String

pub record Endpoints : Type 0 where
  pub authorization : String
  pub token : String
  pub revocation : String
  pub registration : String

unfoldable pub complete : Endpoints → Bool
complete e = not (e.authorization == "") && not (e.token == "") && not (e.registration == "")

abbrev or_fallback : String → String → String
or_fallback a b = if a == "" then b else a

unfoldable pub merge : Endpoints → Endpoints → Endpoints
merge e fallback = record {
  authorization = or_fallback e.authorization fallback.authorization;
  token = or_fallback e.token fallback.token;
  revocation = or_fallback e.revocation fallback.revocation;
  registration = or_fallback e.registration fallback.registration;
}

abbrev pub is_loopback_endpoint_host : String → Bool
is_loopback_endpoint_host host = host == "localhost" || host == "127.0.0.1" || host == "::1"

module _ (lib : Library) where
  -- The checks of an endpoint against its issuer, both parsed.
  unfoldable pub shares_origin : Url → Url → Bool
  shares_origin issuer u =
      if not u.is_abs || u.host == ""
      then false
      else if not (u.fragment == "")
      then false
      else if not (u.scheme == issuer.scheme) || not (lib.equal_fold u.host issuer.host)
      then false
      else if u.scheme == "https"
      then true
      else u.scheme == "http" && is_loopback_endpoint_host u.hostname

  abbrev both_parsed : Option Url → Option Url → Bool
  both_parsed none u = false
  both_parsed (some issuer) none = false
  both_parsed (some issuer) (some u) = shares_origin issuer u

  -- `validateEndpoint`
  unfoldable pub validate_endpoint : String → String → Bool
  unfolding trim_right_char shares_origin
  validate_endpoint issuer endpoint =
      both_parsed (lib.parse (trim_right_char b'/' issuer)) (lib.parse endpoint)

  -- `validate`, which goes through the endpoints in any order.
  unfoldable pub validate : String → Endpoints → Bool
  unfolding validate_endpoint
  validate issuer e =
      validate_endpoint issuer e.authorization
      && validate_endpoint issuer e.token
      && (e.revocation == "" || validate_endpoint issuer e.revocation)
      && validate_endpoint issuer e.registration

  abbrev validated : String → Endpoints → Result Endpoints × Endpoints
  validated issuer e = (if validate issuer e then ok e else err endpoint_refused, e)

  abbrev merged : String → Endpoints → Result Endpoints × Endpoints
  merged issuer e = if complete e then validated issuer e else (err endpoints_unknown, e)

  abbrev discovered_or : String → Endpoints → Option Endpoints → Result Endpoints × Endpoints
  discovered_or issuer e none = (err endpoints_unknown, e)
  discovered_or issuer e (some d) = merged issuer (merge e d)

  -- `endpoints`, with what the discovery yields where it is asked, and the endpoints then kept.
  unfoldable pub endpoints : String → Endpoints → Option Endpoints → Result Endpoints × Endpoints
  unfolding validate complete merge
  endpoints issuer e discovered =
      if complete e then validated issuer e else discovered_or issuer e discovered

  abbrev pub SharesOrigin : Url → Url → Type 0
  SharesOrigin i u =
      (u.host ≢ "")
      × (u.fragment ≡ "")
      × (u.scheme ≡ i.scheme)
      × (lib.equal_fold u.host i.host ≡ true)
      × ((u.scheme ≡ "https")
          ⊎ ((u.scheme ≡ "http")
              × ((u.hostname ≡ "localhost") ⊎ ((u.hostname ≡ "127.0.0.1") ⊎ (u.hostname ≡ "::1")))))

  -- An endpoint on the issuer's own origin, by https, or by http on this host.
  abbrev pub IsTrusted : String → String → Type 0
  IsTrusted issuer endpoint =
      (i : Url) × (u : Url) × (lib.parse (trim_right_char b'/' issuer) ≡ some i)
      × (lib.parse endpoint ≡ some u)
      × SharesOrigin i u

  pub validate_endpoint-IsTrusted :
      (issuer endpoint : String)
      → validate_endpoint issuer endpoint ≡ true
      → IsTrusted issuer endpoint
  unfolding validate_endpoint shares_origin
  validate_endpoint-IsTrusted issuer endpoint h =
      elim (Option-cases (lib.parse (trim_right_char b'/' issuer))) [
        | inl e ↦ absurd (cc (rw e at h))
        | inr (i, e) ↦ elim (Option-cases (lib.parse endpoint)) [
          | inl f ↦ absurd (cc (rw (e, f) at h))
          | inr (u, f) ↦
              let both : shares_origin i u ≡ true = rw (e, f) at h in
              (
                i,
                u,
                e,
                f,
                ground (
                  arith,
                  eq_iff u.host "",
                  eq_iff u.fragment "",
                  eq_iff u.scheme i.scheme,
                  eq_iff u.scheme "https",
                  eq_iff u.scheme "http",
                  eq_iff u.hostname "localhost",
                  eq_iff u.hostname "127.0.0.1",
                  eq_iff u.hostname "::1",
                ),
              )
        ]
      ]

  abbrev pub AllTrusted : String → Endpoints → Type 0
  AllTrusted issuer e =
      IsTrusted issuer e.authorization
      × IsTrusted issuer e.token
      × ((e.revocation ≡ "") ⊎ IsTrusted issuer e.revocation)
      × IsTrusted issuer e.registration

  and_all :
      (a b c d : Bool)
      → (a && b && c && d) ≡ true
      → (a ≡ true) × (b ≡ true) × (c ≡ true) × (d ≡ true)
  and_all true true true true h = (refl, refl, refl, refl)
  and_all true true true false h = absurd (cc)
  and_all true true false d h = absurd (cc)
  and_all true false c d h = absurd (cc)
  and_all false b c d h = absurd (cc)

  validate-AllTrusted :
      (issuer : String) (e : Endpoints) → validate issuer e ≡ true → AllTrusted issuer e
  unfolding validate
  validate-AllTrusted issuer e h =
      let (a, t, r, g) =
        and_all (validate_endpoint issuer e.authorization) (validate_endpoint issuer e.token)
          (e.revocation == "" || validate_endpoint issuer e.revocation)
          (validate_endpoint issuer e.registration) h in
      (
        validate_endpoint-IsTrusted issuer e.authorization a,
        validate_endpoint-IsTrusted issuer e.token t,
        elim (Bool-cases (e.revocation == "")) [
          | inl b ↦ inl ((eq_iff e.revocation "").0 b)
          | inr b ↦ inr (validate_endpoint-IsTrusted issuer e.revocation (rw b at r))
        ],
        validate_endpoint-IsTrusted issuer e.registration g,
      )

  validated-AllTrusted :
      (issuer : String) (e out : Endpoints)
      → (validated issuer e).0 ≡ ok out
      → AllTrusted issuer out
  validated-AllTrusted issuer e out h = elim (Bool-cases (validate issuer e)) [
    | inl v ↦ let same : e ≡ out = cc (rw v at h) in rw (← same) (validate-AllTrusted issuer e v)
    | inr v ↦ absurd (cc (rw v at h))
  ]

  merged-AllTrusted :
      (issuer : String) (e out : Endpoints) → (merged issuer e).0 ≡ ok out → AllTrusted issuer out
  merged-AllTrusted issuer e out h = elim (Bool-cases (complete e)) [
    | inl c ↦ validated-AllTrusted issuer e out (rw c at h)
    | inr c ↦ absurd (cc (rw c at h))
  ]

  -- Endpoints that are used, whether configured or discovered, share the issuer's scheme and host,
  -- and are reached by https, or by http on this host; only that for revocation may be missing.
  pub endpoints-AllTrusted :
      (issuer : String) (e out : Endpoints) (discovered : Option Endpoints)
      → (endpoints issuer e discovered).0 ≡ ok out
      → AllTrusted issuer out
  unfolding endpoints
  endpoints-AllTrusted issuer e out discovered h = elim (Bool-cases (complete e)) [
    | inl c ↦ validated-AllTrusted issuer e out (rw c at h)
    | inr c ↦ elim (Option-cases discovered) [
      | inl d ↦ absurd (cc (rw (c, d) at h))
      | inr (x, d) ↦ merged-AllTrusted issuer (merge e x) out (rw (c, d) at h)
    ]
  ]
