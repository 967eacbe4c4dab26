-- ===== src/Cimd/Document.antt =====
-- `clientFromDocument` of oauth/cimd.go: the client that a document describes, or the reason why
-- there is none.
pub mod Policy
use mcp_kit.Prelude.{
  ℕ, String, Bool, true, false, not, Option, none, some, List, [], ◌∷◌, contains, length, take, ltb,
  ◌==◌, if◌then◌else◌,
}
use mcp_kit.Text.{trim_space, utf8, is_empty}
use mcp_kit.Storage.Types.{Client}
use mcp_kit.Register.Uris.{
  Url, Description, Checked, passed, rejected, validate_redirect_uri, validate_logo_uri,
}
use mcp_kit.Register.Scopes.{Granted, normalize_scopes_with_default}
use mcp_kit.Register.Handler.{
  or_else, default_client_name, max_client_name_len, supported_grant_types,
  supported_response_types, auth_method_none,
}

-- `clientMetadataDocument`
pub record ClientMetadataDocument : Type 0 where
  pub client_id : String
  pub client_name : String
  pub redirect_uris : List String
  pub grant_types : List String
  pub response_types : List String
  pub token_endpoint_auth_method : String
  pub scope : String
  pub application_type : String
  pub logo_uri : String

-- `ClientMetadataPolicy`
pub record ClientMetadataPolicy : Type 0 where
  pub audience : String
  pub allowed_scopes : List String
  pub default_scopes : List String

-- Why a client is not resolved.
pub data FetchError : Type 0 where
  request_not_built fetch_failed not_decoded : FetchError
  returned_status : ℕ → FetchError
  client_id_mismatch redirect_uris_required : FetchError
  uri_refused : Description → FetchError
  grant_type_unsupported response_type_unsupported application_type_unsupported :
      String → FetchError
  auth_method_unsupported : String → FetchError
  scope_refused : Description → FetchError

pub data Fetched {ℓ} (A : Type ℓ) : Type ℓ where
  got : A → Fetched A
  failed : FetchError → Fetched A

infixl 5 ◌>>=◌ ◌>>◌
abbrev pub ◌>>=◌ {ℓ κ} : {A : Type ℓ} {B : Type κ} → Fetched A → (A → Fetched B) → Fetched B
got a >>= f = f a
failed e >>= f = failed e

abbrev pub ◌>>◌ {ℓ} : {B : Type ℓ} → Fetched (Unit {0}) → Fetched B → Fetched B
m >> k = m >>= λ _. k

abbrev pub of_uri : Option Description → Fetched (Unit {0})
of_uri none = got tt
of_uri (some d) = failed (uri_refused d)

abbrev pub of_scopes : Checked Granted → Fetched (List String)
of_scopes (passed g) = got g.scopes
of_scopes (rejected r) = failed (scope_refused r.description)

-- The loops of `validateMetadataGrantTypes` and `validateMetadataResponseTypes`.
unfoldable pub validate_all : List String → (String → FetchError) → List String → Fetched (Unit {0})
unfolding contains
validate_all supported message [] = got tt
validate_all supported message (x ∷ xs) =
    let rest = validate_all supported message xs in
    if contains supported x then rest else failed (message x)

abbrev pub validate_metadata_grant_types : List String → Fetched (Unit {0})
validate_metadata_grant_types types =
    validate_all supported_grant_types grant_type_unsupported types

abbrev pub validate_metadata_response_types : List String → Fetched (Unit {0})
validate_metadata_response_types types =
    validate_all supported_response_types response_type_unsupported types

abbrev pub supported_application_types : List String
supported_application_types = "native" ∷ "web" ∷ []

unfoldable pub validate_metadata_application_type : String → Fetched (Unit {0})
unfolding contains
validate_metadata_application_type type =
    if type == ""
    then got tt
    else if contains supported_application_types type
    then got tt
    else failed (application_type_unsupported type)

unfoldable pub validate_metadata_auth_method : String → Fetched (Unit {0})
validate_metadata_auth_method method =
    if method == ""
    then got tt
    else if method == auth_method_none
    then got tt
    else failed (auth_method_unsupported method)

-- The name of the document, as its bytes: trimmed, cut, or the default.
unfoldable pub document_name : String → List ℕ
unfolding trim_space utf8
document_name name =
    let bytes = utf8 (trim_space name) in
    if trim_space name == ""
    then utf8 default_client_name
    else if ltb max_client_name_len (length bytes)
    then take max_client_name_len bytes
    else bytes

-- `audienceArguments`
abbrev pub audience_arguments : String → List String
audience_arguments audience = if audience == "" then [] else audience ∷ []

module _ (parse : String → Option Url) (policy : ClientMetadataPolicy) where
  -- The loop over the redirect URIs.
  unfoldable pub validate_uris : List String → Fetched (Unit {0})
  unfolding validate_redirect_uri
  validate_uris [] = got tt
  validate_uris (uri ∷ uris) = do of_uri (validate_redirect_uri parse uri); validate_uris uris

  unfoldable pub require_uris : List String → Fetched (Unit {0})
  unfolding validate_uris
  require_uris [] = failed redirect_uris_required
  require_uris (uri ∷ uris) = validate_uris (uri ∷ uris)

  abbrev pub client_of : String → ClientMetadataDocument → List String → Client
  client_of client_id d scopes = record {
    id = client_id;
    name = document_name d.client_name;
    redirect_uris = d.redirect_uris;
    grant_types = or_else d.grant_types supported_grant_types;
    response_types = or_else d.response_types supported_response_types;
    scopes = scopes;
    audience = audience_arguments policy.audience;
    is_public = true;
    client_secret_hash = "";
    token_auth_method = auth_method_none;
    logo_uri = d.logo_uri;
  }

  unfoldable pub client_from_document : String → ClientMetadataDocument → Fetched Client
  unfolding require_uris validate_all validate_metadata_application_type
      validate_metadata_auth_method validate_logo_uri normalize_scopes_with_default document_name
  client_from_document client_id d = do
    if d.client_id == client_id then got tt else failed client_id_mismatch
    require_uris d.redirect_uris
    validate_metadata_grant_types d.grant_types
    validate_metadata_response_types d.response_types
    validate_metadata_application_type d.application_type
    validate_metadata_auth_method d.token_endpoint_auth_method
    of_uri (validate_logo_uri parse d.logo_uri)
    scopes ←
        of_scopes
          (normalize_scopes_with_default d.scope policy.default_scopes policy.allowed_scopes)
    got (client_of client_id d scopes)
