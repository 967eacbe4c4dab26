-- ===== src/Storage/Types.antt =====
-- The types of oauth/storage/storage.go that both the stores and the adapter use.
use mcp_kit.Prelude.{ℕ, String, Bool, Option, List}
use mcp_kit.Storage.Json.{Fields}

pub record Client : Type 0 where
  pub id : String
  -- The bytes of the name: registration may cut it inside a character.
  pub name : List ℕ
  pub redirect_uris : List String
  pub grant_types : List String
  pub response_types : List String
  pub scopes : List String
  pub audience : List String
  pub is_public : Bool
  pub client_secret_hash : String
  pub token_auth_method : String
  pub logo_uri : String

-- The constants `SessionType…`, as the texts that they are.
abbrev pub session_type_authorization_code : String
session_type_authorization_code = "authorization_code"

abbrev pub session_type_access_token : String
session_type_access_token = "access_token"

abbrev pub session_type_refresh_token : String
session_type_refresh_token = "refresh_token"

abbrev pub session_type_pkce : String
session_type_pkce = "pkce"

abbrev pub session_type_oidc : String
session_type_oidc = "oidc"

pub record Session : Type 0 where
  pub kind : String
  pub signature : String
  pub client_id : String
  pub request_id : String
  pub scopes : List String
  pub stored : Fields
  pub active : Bool
  pub expires_at : Option ℕ

-- `ErrNotFound`, or any other failure of a store.
pub data StoreError : Type 0 where
  not_found : StoreError
  failed : String → StoreError

pub data Result {ℓ} (A : Type ℓ) : Type ℓ where
  ok : A → Result A
  err : StoreError → Result A

-- The interface `Store`, over its state. The reads change nothing.
pub record Store (S : Type 0) : Type 0 where
  pub get_client : String → S → Result Client
  pub save_client : Client → S → Result (Unit {0}) × S
  pub save_session : Session → S → Result (Unit {0}) × S
  pub get_session : String → String → S → Result Session
  pub set_session_active : String → String → Bool → S → Result (Unit {0}) × S
  pub delete_session : String → String → S → Result (Unit {0}) × S
  pub delete_sessions_by_request_id : String → String → S → Result (Unit {0}) × S
