-- ===== src/Token/Authorize/Laws.antt =====
-- When an authorization is granted, and what it grants.
use mcp_kit.Prelude.{
  ◌≤◌, String, Bool, true, ◌&&◌, ◌≡◌, ◌≢◌, ◌⊎◌, false, ◌==◌, inl, inr, refl, arith, Option, none,
  some, List, [], ◌∷◌, contains, length, eq_iff, Bool-cases,
}
use mcp_kit.Text.{utf8}
use mcp_kit.Token.Authorize.{
  AuthorizeRequest, Requester, Grants, authorized, grant_default_audience, grant_subject_scopes,
  add_issuer_parameter, valid_code_challenge, requested, authorize,
}

-- The scopes granted are those requested that the subject has.
granted_both :
    (granted requested : List String) (s : String)
    → contains (grant_subject_scopes granted requested) s
      ≡ (contains requested s && contains granted s)
unfolding contains grant_subject_scopes
granted_both granted [] s = refl
granted_both granted (x ∷ requested) s =
    ground (arith, granted_both granted requested s, eq_iff x s)

-- The audience granted is the one requested, or by default the provider's, where it has one.
abbrev pub IsAudience : String → List String → List String → Type 0
IsAudience audience requested granted =
    ((requested ≢ []) × (granted ≡ requested))
    ⊎ ((requested ≡ [])
        × ((((audience == "") ≡ true) × (granted ≡ []))
            ⊎ (((audience == "") ≡ false) × (granted ≡ audience ∷ []))))

-- The response names the issuer, where there is one.
abbrev pub NamesIssuer : String → List (String × String) → Type 0
NamesIssuer issuer ps =
    (((issuer == "") ≡ true) × (ps ≡ [])) ⊎ (((issuer == "") ≡ false) × (ps ≡ ("iss", issuer) ∷ []))

grant_default_audience-IsAudience :
    (audience : String) (requested : List String)
    → IsAudience audience requested (grant_default_audience audience requested)
unfolding grant_default_audience
grant_default_audience-IsAudience audience [] = elim (Bool-cases (audience == "")) [
  | inl e ↦ inr (refl, inl (e, rw e refl))
  | inr e ↦ inr (refl, inr (e, rw e refl))
]
grant_default_audience-IsAudience audience (a ∷ requested) = inl (λ e. absurd (cc), refl)

add_issuer_parameter-NamesIssuer :
    (issuer : String) → NamesIssuer issuer (add_issuer_parameter issuer)
unfolding add_issuer_parameter
add_issuer_parameter-NamesIssuer issuer = elim (Bool-cases (issuer == "")) [
  | inl e ↦ inl (e, rw e refl)
  | inr e ↦ inr (e, rw e refl)
]

module _ (decodes : String → Bool) {U : Type 0} (scopes_of : U → List String)
    (issuer audience : String) where
  valid_code_challenge_sound :
      (challenge method : String)
      → valid_code_challenge decodes challenge method ≡ true
      → (method ≡ "S256") × (length (utf8 challenge) ≡ 43) × (decodes challenge ≡ true)
  unfolding valid_code_challenge
  valid_code_challenge_sound challenge method h =
      (ground (arith, eq_iff method "S256"), ground arith, ground arith)

  -- What a granted authorization says of the engine's answers.
  abbrev pub IsGranted : Option Requester → Option U → Grants → List (String × String) → Type 0
  IsGranted requester resolved g ps =
      (q : Requester) × ((u : U) × (requester ≡ some q)
        × (resolved ≡ some u)
        × ((s : String)
            → contains g.granted_scopes s
              ≡ (contains q.requested_scopes s && contains (scopes_of u) s))
        × IsAudience audience q.requested_audience g.granted_audience
        × NamesIssuer issuer ps)

  requested-eq-authorized :
      (respond : Grants → U → Bool) (requester : Option Requester) (resolved : Option U)
      (g : Grants) (ps : List (String × String))
      → requested decodes scopes_of issuer audience respond requester resolved ≡ authorized g ps
      → IsGranted requester resolved g ps
  requested-eq-authorized respond none resolved g ps h = absurd (cc)
  requested-eq-authorized respond (some q) none g ps h = absurd (cc)
  requested-eq-authorized respond (some q) (some u) g ps h =
      let grants : Grants = record {
        granted_scopes = grant_subject_scopes (scopes_of u) q.requested_scopes;
        granted_audience = grant_default_audience audience q.requested_audience;
      } in
      elim (Bool-cases (respond grants u)) [
        | inl e ↦
            let same : authorized grants (add_issuer_parameter issuer) ≡ authorized g ps =
              rw e at h in
            let g_is : grants ≡ g = cc in
            let named : add_issuer_parameter issuer ≡ ps = cc in
            (
              q,
              (
                u,
                refl,
                refl,
                rw (← g_is) (granted_both (scopes_of u) q.requested_scopes),
                rw (← g_is) (grant_default_audience-IsAudience audience q.requested_audience),
                rw (← named) (add_issuer_parameter-NamesIssuer issuer),
              ),
            )
        | inr e ↦ absurd (cc (rw e at h))
      ]

  -- An authorization is granted only to a request whose state has at least eight bytes and which
  -- has an S256 code challenge of 43 bytes that decodes, where the engine accepts the request and
  -- the subject is resolved. The scopes granted are those that are requested and that the subject
  -- has; the audience granted is the one requested, or by default the provider's; and the response
  -- names the issuer, if there is one.
  pub authorize-eq-authorized :
      (r : AuthorizeRequest) (requester : Option Requester) (resolved : Option U)
      (respond : Grants → U → Bool) (g : Grants) (ps : List (String × String))
      → authorize decodes scopes_of issuer audience r requester resolved respond ≡ authorized g ps
      → ((r.method ≡ "GET") ⊎ (r.method ≡ "POST"))
        × (8 ≤ length (utf8 r.state))
        × (r.code_challenge_method ≡ "S256")
        × (length (utf8 r.code_challenge) ≡ 43)
        × (decodes r.code_challenge ≡ true)
        × IsGranted requester resolved g ps
  unfolding authorize
  authorize-eq-authorized r requester resolved respond g ps h =
      let valid : valid_code_challenge decodes r.code_challenge r.code_challenge_method ≡ true =
        ground arith in
      let (s, n, d) = valid_code_challenge_sound r.code_challenge r.code_challenge_method valid in
      (
        ground (arith, eq_iff r.method "GET", eq_iff r.method "POST"),
        ground arith,
        s,
        n,
        d,
        requested-eq-authorized respond requester resolved g ps (ground arith),
      )
