-- ===== src/Register/Handler/Policy.antt =====
-- What registration stores, and what it answers.
use mathlib.Core.Path.{subst}
use mcp_kit.Prelude.{
  ◌≤◌, String, true, ◌≡◌, ◌≢◌, ◌⊎◌, inl, inr, refl, arith, Option, some, List, [], ◌∷◌, contains,
  All, length, length-take-le, ◌==◌, Bool-cases, if◌then◌else◌, leb, leb→le,
}
use mcp_kit.Text.{trim_space, utf8, join}
use mcp_kit.Text.Laws.{trim_space_idem}
use mcp_kit.Register.Uris.{
  Url, Description, grant_type_unsupported, response_type_unsupported, Rejection, Checked, passed,
  rejected, ◌>>=◌, ◌>>◌, validate_redirect_uris, check_logo_uri,
}
use mcp_kit.Register.Uris.Laws.{
  IsAccepted, IsLogo, validate_redirect_uris-eq-passed, check_logo_uri-eq-passed,
}
use mcp_kit.Register.Scopes.{Granted, normalize_scopes_with_default}
use mcp_kit.Register.Scopes.Laws.{
  IsAllowed, normalize_scopes_with_default-eq-passed, passed-injective,
}
use mcp_kit.Register.Handler.{
  RegistrationHandler, RegistrationRequest, Metadata, supported_grant_types,
  supported_response_types, supported_auth_methods, default_client_name, check_supported,
  normalize_grant_types, normalize_response_types, normalize_auth_method, normalize_client_name,
  check, or_else,
}

-- A check that is not refused has passed.
passed_of :
    {A : Type 0} (c : Checked A) → ((r : Rejection) → c ≢ rejected r) → (a : A) × (c ≡ passed a)
passed_of (passed a) h = (a, refl)
passed_of (rejected r) h = absurd (h r refl)

abbrev metadata : List String → List String → String → Granted → Metadata
metadata gs rs am g = record {
  grant_types = gs;
  response_types = rs;
  auth_method = am;
  granted = g;
}

-- What follows when the six checks of a request pass together.
chain-eq-passed :
    {A B C D M : Type 0} (m1 : Checked (Unit {0})) (m2 : Checked A) (m3 : Checked B)
    (m4 : Checked C) (m5 : Checked D) (m6 : Checked (Unit {0})) (k : A → B → C → D → M) {r : M}
    → (do m1; a ← m2; b ← m3; c ← m4; d ← m5; m6; passed (k a b c d)) ≡ passed r
    → (m1 ≡ passed tt)
      × ((p : (a : A) × (m2 ≡ passed a)) × ((q : (b : B) × (m3 ≡ passed b)) × ((s : (c : C) × (m4
                  ≡ passed c))
              × ((t : (d : D) × (m5 ≡ passed d)) × ((m6 ≡ passed tt) × (k p.0 q.0 s.0 t.0 ≡ r))))))
chain-eq-passed (passed u) (passed a) (passed b) (passed c) (passed d) (passed v) k e =
    (refl, ((a, refl), ((b, refl), ((c, refl), ((d, refl), (refl, passed-injective e))))))
chain-eq-passed (passed u) (passed a) (passed b) (passed c) (passed d) (rejected x) k e = cc
chain-eq-passed (passed u) (passed a) (passed b) (passed c) (rejected x) m6 k e = cc
chain-eq-passed (passed u) (passed a) (passed b) (rejected x) m5 m6 k e = cc
chain-eq-passed (passed u) (passed a) (rejected x) m4 m5 m6 k e = cc
chain-eq-passed (passed u) (rejected x) m3 m4 m5 m6 k e = cc
chain-eq-passed (rejected x) m2 m3 m4 m5 m6 k e = cc

abbrev pub Supports : List String → List String → Type 0
Supports supported xs = All (λ x. contains supported x ≡ true) xs

check_supported-eq-passed :
    (supported : List String) (message : String → Description) (xs : List String)
    → check_supported supported message xs ≡ passed tt
    → Supports supported xs
unfolding check_supported
check_supported-eq-passed supported message [] h = tt
check_supported-eq-passed supported message (x ∷ xs) h = elim (Bool-cases (contains supported x)) [
  | inl e ↦ (e, check_supported-eq-passed supported message xs (rw e at h))
  | inr e ↦ absurd (cc (rw e at h))
]

check_supported->> :
    (supported : List String) (message : String → Description) (xs types : List String)
    → (check_supported supported message xs >> passed xs) ≡ passed types
    → Supports supported types
check_supported->> supported message xs types e =
    let (u, fine) = passed_of (check_supported supported message xs) (λ r p. cc (rw p at e)) in
    subst (Supports supported) (passed-injective (rw fine at e))
      (check_supported-eq-passed supported message xs fine)

module _ (h : RegistrationHandler) where
  normalize_grant_types-eq-passed :
      (requested types : List String)
      → normalize_grant_types h requested ≡ passed types
      → Supports supported_grant_types types
  unfolding normalize_grant_types
  normalize_grant_types-eq-passed requested types e =
      check_supported->> supported_grant_types grant_type_unsupported
        (or_else requested (or_else h.default_grant_types ("authorization_code" ∷ []))) types e

  normalize_response_types-eq-passed :
      (requested types : List String)
      → normalize_response_types h requested ≡ passed types
      → Supports supported_response_types types
  unfolding normalize_response_types
  normalize_response_types-eq-passed requested types e =
      check_supported->> supported_response_types response_type_unsupported
        (or_else requested (or_else h.default_response_types ("code" ∷ []))) types e

  normalize_auth_method-eq-passed :
      (requested method : String)
      → normalize_auth_method h requested ≡ passed method
      → contains supported_auth_methods method ≡ true
  unfolding normalize_auth_method
  normalize_auth_method-eq-passed requested method e = ground arith

abbrev chosen : String → String
chosen name = if trim_space name == "" then default_client_name else trim_space name

pub length-normalize_client_name-le : (name : String) → length (normalize_client_name name) ≤ 200
unfolding normalize_client_name
length-normalize_client_name-le name = elim (Bool-cases (leb (length (utf8 (chosen name))) 200)) [
  | inl e ↦ rw e (leb→le _ _ e)
  | inr e ↦ rw e (length-take-le 200 (utf8 (chosen name)))
]

module _ (parse : String → Option Url) (h : RegistrationHandler) where
  -- What holds of the metadata of a request that passes the checks.
  pub record IsChecked (req : RegistrationRequest) (m : Metadata) : Type 0 where
    pub some_redirect : req.redirect_uris ≢ []
    pub redirects : All (IsAccepted parse) req.redirect_uris
    pub grants : Supports supported_grant_types m.grant_types
    pub responses : Supports supported_response_types m.response_types
    pub method : contains supported_auth_methods m.auth_method ≡ true
    pub scopes : All (IsAllowed h.allowed_scopes) m.granted.scopes
    pub text : m.granted.scope_string ≡ join " " m.granted.scopes
    pub logo :
        (trim_space req.logo_uri ≡ "")
        ⊎ ((length (utf8 (trim_space req.logo_uri)) ≤ 2048)
            × ((u : Url) × (parse (trim_space req.logo_uri) ≡ some u) × IsLogo u))

  pub check-eq-passed :
      (req : RegistrationRequest) (m : Metadata) → check parse h req ≡ passed m → IsChecked req m
  unfolding check
  check-eq-passed req m e =
      let (redirects, p) =
        chain-eq-passed (validate_redirect_uris parse req.redirect_uris)
          (normalize_grant_types h req.grant_types) (normalize_response_types h req.response_types)
          (normalize_auth_method h req.token_endpoint_auth_method)
          (normalize_scopes_with_default req.scope h.default_scopes h.allowed_scopes)
          (check_logo_uri parse (trim_space req.logo_uri)) metadata e in
      let ((gs, grants), p2) = p in
      let ((rs, responses), p3) = p2 in
      let ((am, method), p4) = p3 in
      let ((g, granted), (logo, is)) = p4 in
      let (nonempty, accepted) =
        validate_redirect_uris-eq-passed parse req.redirect_uris redirects in
      let (allowed, text, _) =
        normalize_scopes_with_default-eq-passed req.scope h.default_scopes h.allowed_scopes g
          granted in
      subst (IsChecked req) is (record {
        some_redirect = nonempty;
        redirects = accepted;
        grants = normalize_grant_types-eq-passed h _ gs grants;
        responses = normalize_response_types-eq-passed h _ rs responses;
        method = normalize_auth_method-eq-passed h _ am method;
        scopes = allowed;
        text = text;
        logo =
            rw (← trim_space_idem req.logo_uri)
              (check_logo_uri-eq-passed parse (trim_space req.logo_uri) logo);
      })
