-- ===== src/Storage/Adapter.antt =====
-- The adapter `Storage` of oauth/storage/storage.go, over any store, client metadata resolver and
-- session type. The text that a wrapping message adds to an error is left out.
pub mod Outcomes
pub mod Clients
pub mod Sessions
pub mod Rotation
use mcp_kit.Prelude.{
  ℕ, String, Bool, true, false, Option, none, some, List, [], ◌∷◌, nat_eq, ◌==◌, ◌||◌,
  if◌then◌else◌,
}
use mcp_kit.Storage.Json.{Fields}
use mcp_kit.Storage.Types.{
  Client, Session, StoreError, not_found, failed, Result, ok, err, Store,
  session_type_authorization_code, session_type_access_token, session_type_refresh_token,
  session_type_pkce, session_type_oidc,
}
use mcp_kit.Storage.Request.{
  TokenType, authorize_code, access_token, refresh_token, SessionType, Request, StoredRequestData,
  or_now, unmarshal_stored_request_data, marshal_request_data,
}

-- The engine's errors that the adapter returns, a store's own error, and data that is not read.
pub data Error : Type 0 where
  unknown invalid_client invalidated_authorize_code jti_known : Error
  store_error : StoreError → Error
  bad_data : Error

pub data Answer {ℓ} (A : Type ℓ) : Type ℓ where
  answer : A → Answer A
  refused : Error → Answer A

-- `GetSession` returns a request beside the error for an invalidated authorization code.
pub data Lookup (F : Type 0) : Type 0 where
  found : Request F → Lookup F
  invalidated : Request F → Lookup F
  missed : Error → Lookup F

-- What a `ClientMetadataResolver` returns.
pub data Resolution : Type 0 where
  resolved : Client → Resolution
  not_a_client_metadata_url unresolved : Resolution

-- `ClientAssertionJWTValid`, `SetClientAssertionJWT`: both fail closed.
pub client_assertion_jwt_valid : String → Answer (Unit {0})
client_assertion_jwt_valid jti = refused jti_known

pub set_client_assertion_jwt : String → ℕ → Answer (Unit {0})
set_client_assertion_jwt jti expires = refused invalid_client

pub session_token_type : String → TokenType
session_token_type kind =
    if kind == session_type_authorization_code
      || kind == session_type_pkce
      || kind == session_type_oidc
    then authorize_code
    else if kind == session_type_refresh_token
    then refresh_token
    else access_token

abbrev pub resolve : Resolution → Answer Client
resolve (resolved c) = answer c
resolve not_a_client_metadata_url = refused unknown
resolve unresolved = refused invalid_client

module _ {S : Type 0} (store : Store S) (resolver : Option (String → Resolution)) where
  abbrev resolve_client : Option (String → Resolution) → String → Answer Client
  resolve_client none id = refused unknown
  resolve_client (some f) id = resolve (f id)

  abbrev client_of : Result Client → String → Answer Client
  client_of (ok c) id = answer c
  client_of (err not_found) id = resolve_client resolver id
  client_of (err (failed e)) id = refused (store_error (failed e))

  unfoldable pub get_client : String → S → Answer Client
  get_client id s = client_of (store.get_client id s) id

abbrev done {ℓ} : {S : Type ℓ} → Result (Unit {0}) × S → Answer (Unit {0}) × S
done (ok tt, s) = (answer tt, s)
done (err e, s) = (refused (store_error e), s)

abbrev non_zero : ℕ → Option ℕ
non_zero t = if nat_eq t 0 then none else some t

abbrev pub if_empty : List String → List String → List String
if_empty [] other = other
if_empty (x ∷ xs) other = x ∷ xs

module _ {S : Type 0} (store : Store S) (resolver : Option (String → Resolution)) {F : Type 0}
    (session_type : SessionType F) where
  -- `sessionExpiresAt`
  unfoldable pub session_expires_at : String → Option F → ℕ
  unfolding session_token_type
  session_expires_at kind none = 0
  session_expires_at kind (some x) =
      let e = session_type.expires_at x (session_token_type kind) in
      if nat_eq e 0 then session_type.expires_at x access_token else e

  abbrev session_row : String → String → Request F → Fields → Session
  session_row kind signature r stored = record {
    kind = kind;
    signature = signature;
    client_id = r.client.id;
    request_id = r.id;
    scopes = r.granted_scopes;
    stored = stored;
    active = true;
    expires_at = non_zero (session_expires_at kind r.session);
  }

  abbrev saved : String → String → Request F → Option Fields → S → Answer (Unit {0}) × S
  saved kind signature r none s = (refused bad_data, s)
  saved kind signature r (some stored) s =
      done (store.save_session (session_row kind signature r stored) s)

  unfoldable pub create_session : String → String → ℕ → Request F → S → Answer (Unit {0}) × S
  unfolding session_expires_at
  create_session kind signature now r s =
      saved kind signature r (marshal_request_data session_type now r) s

  -- The session object of the caller, read from the stored session if both are there.
  abbrev filled : Option F → Option Fields → Answer (Option F)
  filled none stored = answer none
  filled (some x) none = answer (some x)
  filled (some x) (some fs) = elim (session_type.from_json fs x) [
    | none ↦ refused bad_data
    | some y ↦ answer (some y)
  ]

  abbrev rebuilt : ℕ → Session → StoredRequestData → Option F → Answer Client → Answer (Request F)
  rebuilt now row d x (refused e) = refused e
  rebuilt now row d x (answer c) =
      let granted = if_empty d.granted_scopes row.scopes in
      answer (record {
        id = row.request_id;
        requested_at = or_now now d.requested_at;
        client = c;
        session = x;
        granted_scopes = granted;
        requested_scopes = if_empty d.requested_scopes granted;
        requested_audience = d.requested_audience;
        granted_audience = d.granted_audience;
        form = d.form;
      })

  abbrev with_client : ℕ → Session → StoredRequestData → S → Answer (Option F) → Answer (Request F)
  with_client now row d s (refused e) = refused e
  with_client now row d s (answer x) =
      rebuilt now row d x (get_client store resolver row.client_id s)

  abbrev with_data : ℕ → Option F → Session → Option StoredRequestData → S → Answer (Request F)
  with_data now x row none s = refused bad_data
  with_data now x row (some d) s = with_client now row d s (filled x d.session)

  unfoldable pub row_to_requester : ℕ → Session → Option F → S → Answer (Request F)
  unfolding get_client
  row_to_requester now row x s = with_data now x row (unmarshal_stored_request_data row.stored) s

  abbrev by_activity : String → Bool → Answer (Request F) → Lookup F
  by_activity kind active (refused e) = missed e
  by_activity kind true (answer r) = found r
  by_activity kind false (answer r) =
      if kind == session_type_authorization_code then invalidated r else missed unknown

  abbrev of_row : ℕ → String → Option F → S → Result Session → Lookup F
  of_row now kind x s (err not_found) = missed unknown
  of_row now kind x s (err (failed e)) = missed (store_error (failed e))
  of_row now kind x s (ok row) = by_activity kind row.active (row_to_requester now row x s)

  unfoldable pub get_session : String → String → ℕ → Option F → S → Lookup F
  unfolding row_to_requester
  get_session kind signature now x s = of_row now kind x s (store.get_session kind signature s)

  unfoldable pub create_authorize_code_session : String → ℕ → Request F → S → Answer (Unit {0}) × S
  unfolding create_session
  create_authorize_code_session = create_session session_type_authorization_code

  unfoldable pub get_authorize_code_session : String → ℕ → Option F → S → Lookup F
  unfolding get_session
  get_authorize_code_session = get_session session_type_authorization_code

  unfoldable pub create_access_token_session : String → ℕ → Request F → S → Answer (Unit {0}) × S
  unfolding create_session
  create_access_token_session = create_session session_type_access_token

  unfoldable pub get_access_token_session : String → ℕ → Option F → S → Lookup F
  unfolding get_session
  get_access_token_session = get_session session_type_access_token

  unfoldable pub create_refresh_token_session : String → ℕ → Request F → S → Answer (Unit {0}) × S
  unfolding create_session
  create_refresh_token_session = create_session session_type_refresh_token

  unfoldable pub get_refresh_token_session : String → ℕ → Option F → S → Lookup F
  unfolding get_session
  get_refresh_token_session = get_session session_type_refresh_token

  unfoldable pub create_pkce_request_session : String → ℕ → Request F → S → Answer (Unit {0}) × S
  unfolding create_session
  create_pkce_request_session = create_session session_type_pkce

  unfoldable pub get_pkce_request_session : String → ℕ → Option F → S → Lookup F
  unfolding get_session
  get_pkce_request_session = get_session session_type_pkce

  unfoldable pub create_open_id_connect_session : String → ℕ → Request F → S → Answer (Unit {0}) × S
  unfolding create_session
  create_open_id_connect_session = create_session session_type_oidc

  -- The session object is that of the request which the caller passes.
  unfoldable pub get_open_id_connect_session : String → ℕ → Request F → S → Lookup F
  unfolding get_session
  get_open_id_connect_session code now r = get_session session_type_oidc code now r.session

module _ {S : Type 0} (store : Store S) where
  unfoldable pub invalidate_authorize_code_session : String → S → Answer (Unit {0}) × S
  invalidate_authorize_code_session code s =
      done (store.set_session_active session_type_authorization_code code false s)

  unfoldable pub delete_session : String → String → S → Answer (Unit {0}) × S
  delete_session kind signature s = done (store.delete_session kind signature s)

  unfoldable pub delete_access_token_session : String → S → Answer (Unit {0}) × S
  unfolding delete_session
  delete_access_token_session = delete_session session_type_access_token

  unfoldable pub delete_refresh_token_session : String → S → Answer (Unit {0}) × S
  unfolding delete_session
  delete_refresh_token_session = delete_session session_type_refresh_token

  unfoldable pub delete_pkce_request_session : String → S → Answer (Unit {0}) × S
  unfolding delete_session
  delete_pkce_request_session = delete_session session_type_pkce

  unfoldable pub delete_open_id_connect_session : String → S → Answer (Unit {0}) × S
  unfolding delete_session
  delete_open_id_connect_session = delete_session session_type_oidc

  unfoldable pub revoke_access_token : String → S → Answer (Unit {0}) × S
  revoke_access_token request_id s =
      done (store.delete_sessions_by_request_id session_type_access_token request_id s)

  unfoldable pub revoke_refresh_token : String → S → Answer (Unit {0}) × S
  revoke_refresh_token request_id s =
      done (store.delete_sessions_by_request_id session_type_refresh_token request_id s)

  unfoldable pub revoke_refresh_token_maybe_grace_period :
      String → String → S → Answer (Unit {0}) × S
  unfolding revoke_refresh_token
  revoke_refresh_token_maybe_grace_period request_id signature = revoke_refresh_token request_id

  abbrev then_refresh : String → Answer (Unit {0}) × S → Answer (Unit {0}) × S
  then_refresh request_id (refused e, s) = (refused e, s)
  then_refresh request_id (answer tt, s) =
      done (store.delete_sessions_by_request_id session_type_refresh_token request_id s)

  -- The refresh tokens are deleted only if the access tokens were.
  unfoldable pub rotate_refresh_token : String → String → S → Answer (Unit {0}) × S
  rotate_refresh_token request_id signature s =
      then_refresh request_id
        (done (store.delete_sessions_by_request_id session_type_access_token request_id s))
