-- ===== src/Register/Uris/Laws.antt =====
-- Which URIs registration accepts.
use mcp_kit.Prelude.{
  ◌≤◌, String, false, ◌≡◌, ◌≢◌, ◌↔◌, ◌⊎◌, inl, inr, arith, Option, none, some, List, [], ◌∷◌,
  length, ◌==◌, eq_iff, All, Option-cases, Bool-cases,
}
use mcp_kit.Text.{trim_space, utf8}
use mcp_kit.Register.Uris.{
  Url, passed, is_loopback_host, checked_redirect, validate_redirect_uri, validate_each,
  validate_redirect_uris, check_logo_uri,
}

-- A place that a client may be redirected to: an absolute URI without a fragment, by https, or by
-- http on this host.
abbrev pub IsRedirectTarget : Url → Type 0
IsRedirectTarget u =
    (u.scheme ≢ "")
    × (u.fragment ≡ "")
    × ((u.scheme ≡ "https")
        ⊎ ((u.scheme ≡ "http")
            × ((u.hostname ≡ "localhost") ⊎ ((u.hostname ≡ "127.0.0.1") ⊎ (u.hostname ≡ "::1")))))

abbrev pub IsLogo : Url → Type 0
IsLogo u = (u.scheme ≡ "https") × (u.hostname ≢ "") × (u.has_user ≡ false) × (u.fragment ≡ "")

checked_redirect_iff :
    (raw : String) (u : Url) → (checked_redirect raw (some u) ≡ none) ↔ IsRedirectTarget u
unfolding is_loopback_host
checked_redirect_iff raw u = (
  λ h. ground (
    arith,
    eq_iff u.scheme "",
    eq_iff u.fragment "",
    eq_iff u.scheme "https",
    eq_iff u.scheme "http",
    eq_iff u.hostname "localhost",
    eq_iff u.hostname "127.0.0.1",
    eq_iff u.hostname "::1",
  ),
  λ h. ground (
    arith,
    eq_iff u.scheme "",
    eq_iff u.fragment "",
    eq_iff u.scheme "https",
    eq_iff u.scheme "http",
    eq_iff u.hostname "localhost",
    eq_iff u.hostname "127.0.0.1",
    eq_iff u.hostname "::1",
  ),
)

module _ (parse : String → Option Url) where
  -- A redirect URI is accepted exactly when it is not empty and parses to an absolute URI
  -- without a fragment that is https, or http on a loopback host.
  pub validate_redirect_uri_iff :
      (raw : String)
      → (validate_redirect_uri parse raw ≡ none)
        ↔ ((raw ≢ "") × ((u : Url) × (parse raw ≡ some u) × IsRedirectTarget u))
  unfolding validate_redirect_uri
  validate_redirect_uri_iff raw = elim (Option-cases (parse raw)) [
    | inl e ↦ (λ h. absurd (ground (arith, eq_iff raw "")), λ h. absurd (ground arith))
    | inr (u, e) ↦ (
      λ h. (
        ground (arith, eq_iff raw ""),
        (u, e, (checked_redirect_iff raw u).0 (ground (arith, eq_iff raw ""))),
      ),
      λ (n, (v, p, t)). ground (arith, eq_iff raw "", (checked_redirect_iff raw v).1 t),
    )
  ]

  abbrev pub IsAccepted : String → Type 0
  IsAccepted raw = (raw ≢ "") × ((u : Url) × (parse raw ≡ some u) × IsRedirectTarget u)

  validate_each-eq-passed :
      (uris : List String) → validate_each parse uris ≡ passed tt → All IsAccepted uris
  unfolding validate_each
  validate_each-eq-passed [] h = tt
  validate_each-eq-passed (uri ∷ uris) h = elim (Option-cases (validate_redirect_uri parse uri)) [
    | inl e ↦ ((validate_redirect_uri_iff uri).0 e, validate_each-eq-passed uris (ground arith))
    | inr (d, e) ↦ absurd (ground arith)
  ]

  pub validate_redirect_uris-eq-passed :
      (uris : List String)
      → validate_redirect_uris parse uris ≡ passed tt
      → (uris ≢ []) × All IsAccepted uris
  unfolding validate_redirect_uris
  validate_redirect_uris-eq-passed [] h = absurd (cc)
  validate_redirect_uris-eq-passed (uri ∷ uris) h =
      (λ e. absurd (cc), validate_each-eq-passed (uri ∷ uris) h)

  pub check_logo_uri-eq-passed :
      (logo : String)
      → check_logo_uri parse logo ≡ passed tt
      → (trim_space logo ≡ "")
        ⊎ ((length (utf8 (trim_space logo)) ≤ 2048)
            × ((u : Url) × (parse (trim_space logo) ≡ some u) × IsLogo u))
  unfolding check_logo_uri
  check_logo_uri-eq-passed logo h =
      let raw = trim_space logo in
      elim (Option-cases (parse raw)) [
        | inl e ↦ ground (arith, eq_iff raw "")
        | inr (u, e) ↦ elim (Bool-cases (raw == "")) [
          | inl b ↦ inl ((eq_iff raw "").0 b)
          | inr b ↦ inr (
            ground arith,
            (
              u,
              e,
              ground (arith, eq_iff u.scheme "https", eq_iff u.hostname "", eq_iff u.fragment ""),
            ),
          )
        ]
      ]
