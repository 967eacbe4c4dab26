-- ===== src/Cimd/Document/Policy.antt =====
-- What a document's client may claim.
use mcp_kit.Prelude.{
  ◌≤◌, String, true, ◌≡◌, ◌≢◌, inl, inr, refl, arith, Option, List, [], ◌∷◌, All, contains, length,
  length-take-le, ltb, ◌==◌, eq_iff, Option-cases, Bool-cases, if◌then◌else◌,
}
use mcp_kit.Text.{trim_space, utf8}
use mcp_kit.Storage.Types.{Client}
use mcp_kit.Register.Uris.{Url, Checked, passed, rejected, validate_redirect_uri, validate_logo_uri}
use mcp_kit.Register.Uris.Laws.{IsAccepted, validate_redirect_uri_iff}
use mcp_kit.Register.Scopes.{Granted, normalize_scopes_with_default}
use mcp_kit.Register.Scopes.Laws.{IsAllowed, normalize_scopes_with_default-eq-passed}
use mcp_kit.Register.Handler.{
  or_else, supported_grant_types, supported_response_types, auth_method_none,
}
use mcp_kit.Cimd.Document.{
  ClientMetadataDocument, ClientMetadataPolicy, FetchError, Fetched, got, failed, ◌>>=◌, ◌>>◌,
  of_uri, of_scopes, validate_all, validate_metadata_grant_types, validate_metadata_response_types,
  validate_metadata_application_type, validate_metadata_auth_method, document_name,
  audience_arguments, validate_uris, require_uris, client_of, client_from_document,
  client_id_mismatch,
}

-- The steps of a chain that succeeds.
chain-eq-got :
    (m1 m2 m3 m4 m5 m6 m7 : Fetched (Unit {0})) (m8 : Fetched (List String))
    (k : List String → Client) (c : Client)
    → (do m1; m2; m3; m4; m5; m6; m7; s ← m8; got (k s)) ≡ got c
    → (m1 ≡ got tt)
      × (m2 ≡ got tt)
      × (m3 ≡ got tt)
      × (m4 ≡ got tt)
      × (m5 ≡ got tt)
      × (m6 ≡ got tt)
      × (m7 ≡ got tt)
      × ((s : List String) × (m8 ≡ got s) × (k s ≡ c))
chain-eq-got (failed e) m2 m3 m4 m5 m6 m7 m8 k c h = absurd (cc)
chain-eq-got (got _) (failed e) m3 m4 m5 m6 m7 m8 k c h = absurd (cc)
chain-eq-got (got _) (got _) (failed e) m4 m5 m6 m7 m8 k c h = absurd (cc)
chain-eq-got (got _) (got _) (got _) (failed e) m5 m6 m7 m8 k c h = absurd (cc)
chain-eq-got (got _) (got _) (got _) (got _) (failed e) m6 m7 m8 k c h = absurd (cc)
chain-eq-got (got _) (got _) (got _) (got _) (got _) (failed e) m7 m8 k c h = absurd (cc)
chain-eq-got (got _) (got _) (got _) (got _) (got _) (got _) (failed e) m8 k c h = absurd (cc)
chain-eq-got (got _) (got _) (got _) (got _) (got _) (got _) (got _) (failed e) k c h = absurd (cc)
chain-eq-got (got _) (got _) (got _) (got _) (got _) (got _) (got _) (got s) k c h =
    (refl, refl, refl, refl, refl, refl, refl, (s, refl, cc))

validate_all-eq-got :
    (supported : List String) (message : String → FetchError) (xs : List String)
    → validate_all supported message xs ≡ got tt
    → All (λ x. contains supported x ≡ true) xs
unfolding validate_all
validate_all-eq-got supported message [] h = tt
validate_all-eq-got supported message (x ∷ xs) h = elim (Bool-cases (contains supported x)) [
  | inl e ↦ (e, validate_all-eq-got supported message xs (rw e at h))
  | inr e ↦ absurd (cc (rw e at h))
]

document_name-le : (name : String) → length (document_name name) ≤ 200
unfolding document_name utf8
document_name-le name = elim (Bool-cases (trim_space name == "")) [
  | inl e ↦ rw e (omega arith)
  | inr e ↦ elim (Bool-cases (ltb 200 (length (utf8 (trim_space name))))) [
    | inl long ↦ rw (e, long) (length-take-le 200 (utf8 (trim_space name)))
    | inr short ↦ rw (e, short) (ground arith)
  ]
]

module _ (parse : String → Option Url) (policy : ClientMetadataPolicy) where
  validate_uris-eq-got :
      (uris : List String) → validate_uris parse policy uris ≡ got tt → All (IsAccepted parse) uris
  unfolding validate_uris
  validate_uris-eq-got [] h = tt
  validate_uris-eq-got (uri ∷ uris) h = elim (Option-cases (validate_redirect_uri parse uri)) [
    | inl e ↦ ((validate_redirect_uri_iff parse uri).0 e, validate_uris-eq-got uris (rw e at h))
    | inr (d, e) ↦ absurd (cc (rw e at h))
  ]

  require_uris-eq-got :
      (uris : List String)
      → require_uris parse policy uris ≡ got tt
      → (uris ≢ []) × All (IsAccepted parse) uris
  unfolding require_uris
  require_uris-eq-got [] h = absurd (cc)
  require_uris-eq-got (uri ∷ uris) h = (λ e. absurd (cc), validate_uris-eq-got (uri ∷ uris) h)

  of_scopes-eq-got :
      (c : Checked Granted) (scopes : List String)
      → of_scopes c ≡ got scopes
      → (g : Granted) × (c ≡ passed g) × (g.scopes ≡ scopes)
  of_scopes-eq-got (passed g) scopes h = (g, refl, cc)
  of_scopes-eq-got (rejected r) scopes h = absurd (cc)

  -- The bounds of a client that a document may describe.
  pub record IsWithin (id : String) (c : Client) : Type 0 where
    pub id_is : c.id ≡ id
    pub is_public : c.is_public ≡ true
    pub no_secret : c.client_secret_hash ≡ ""
    pub auth_method : c.token_auth_method ≡ auth_method_none
    pub some_uri : c.redirect_uris ≢ []
    pub uris : All (IsAccepted parse) c.redirect_uris
    pub grant_types : All (λ x. contains supported_grant_types x ≡ true) c.grant_types
    pub response_types : All (λ x. contains supported_response_types x ≡ true) c.response_types
    pub scopes : All (IsAllowed policy.allowed_scopes) c.scopes
    pub audience : c.audience ≡ audience_arguments policy.audience
    pub name_le : length c.name ≤ 200

  or_else-All :
      (supported given : List String)
      → All (λ x. contains supported x ≡ true) supported
      → All (λ x. contains supported x ≡ true) given
      → All (λ x. contains supported x ≡ true) (or_else given supported)
  or_else-All supported [] all h = all
  or_else-All supported (x ∷ xs) all h = h

  claimed :
      (a b : String) → (if a == b then got tt else failed client_id_mismatch) ≡ got (tt {0}) → a ≡ b
  claimed a b h = elim (Bool-cases (a == b)) [
    | inl e ↦ (eq_iff a b).0 e
    | inr e ↦ absurd (cc (rw e at h))
  ]

  made :
      (id : String) (d : ClientMetadataDocument) (scopes : List String)
      → require_uris parse policy d.redirect_uris ≡ got tt
      → validate_metadata_grant_types d.grant_types ≡ got tt
      → validate_metadata_response_types d.response_types ≡ got tt
      → of_scopes
          (normalize_scopes_with_default d.scope policy.default_scopes policy.allowed_scopes)
        ≡ got scopes
      → IsWithin id (client_of parse policy id d scopes)
  unfolding contains
  made id d scopes uris grants responses scoped =
      let (some_uri, all_uris) = require_uris-eq-got d.redirect_uris uris in
      let (g, passes, scopes_is) = of_scopes-eq-got _ scopes scoped in
      let (allowed, _, _) =
        normalize_scopes_with_default-eq-passed d.scope policy.default_scopes policy.allowed_scopes
          g passes in
      record {
        id_is = refl;
        is_public = refl;
        no_secret = refl;
        auth_method = refl;
        some_uri = some_uri;
        uris = all_uris;
        grant_types =
            or_else-All supported_grant_types d.grant_types (refl, (refl, tt))
              (validate_all-eq-got _ _ d.grant_types grants);
        response_types =
            or_else-All supported_response_types d.response_types (refl, tt)
              (validate_all-eq-got _ _ d.response_types responses);
        scopes = rw (← scopes_is) allowed;
        audience = refl;
        name_le = document_name-le d.client_name;
      }

  -- A client that is made of a document has the identifier under which the document was looked
  -- up, which the document itself states; it is public and without a secret, has a redirect URI
  -- at least and none that registration would refuse, only supported grant and response types, only
  -- scopes that the policy allows, the audience of the policy, and a name of at most 200 bytes.
  pub client_from_document-IsWithin :
      (id : String) (d : ClientMetadataDocument) (c : Client)
      → client_from_document parse policy id d ≡ got c
      → (d.client_id ≡ id) × IsWithin id c
  unfolding client_from_document
  client_from_document-IsWithin id d c h =
      let (same, uris, grants, responses, _, _, _, (scopes, scoped, is)) =
        chain-eq-got (if d.client_id == id then got tt else failed client_id_mismatch)
          (require_uris parse policy d.redirect_uris) (validate_metadata_grant_types d.grant_types)
          (validate_metadata_response_types d.response_types)
          (validate_metadata_application_type d.application_type)
          (validate_metadata_auth_method d.token_endpoint_auth_method)
          (of_uri (validate_logo_uri parse d.logo_uri))
          (of_scopes
            (normalize_scopes_with_default d.scope policy.default_scopes policy.allowed_scopes))
          (client_of parse policy id d) c h in
      (claimed d.client_id id same, rw (← is) (made id d scopes uris grants responses scoped))
