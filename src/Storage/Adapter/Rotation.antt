-- ===== src/Storage/Adapter/Rotation.antt =====
-- What the rotation of a refresh token deletes.
use mcp_kit.Prelude.{String, Bool, ◌≡◌, refl, arith, ◌==◌, ◌∙◌, ap, ◌&&◌, ◌||◌, if◌then◌else◌}
use mcp_kit.Storage.Types.{
  Session, Result, ok, err, not_found, Store, session_type_access_token, session_type_refresh_token,
}
use mcp_kit.Storage.Memory.Laws.{IsSessionMap, kept}
use mcp_kit.Storage.Adapter.Outcomes.{done_of_ok}
use mcp_kit.Storage.Adapter.{answer, rotate_refresh_token}

-- A session that a rotation for `request_id` deletes.
abbrev pub is_rotated : String → String → Session → Bool
is_rotated request_id kind x =
    (kind == session_type_access_token || kind == session_type_refresh_token)
    && x.request_id == request_id

abbrev pub rotated : String → String → Result Session → Result Session
rotated request_id kind (err e) = err e
rotated request_id kind (ok x) = if is_rotated request_id kind x then err not_found else ok x

kept-kept :
    (request_id kind : String) (found : Result Session)
    → kept session_type_refresh_token request_id kind
        (kept session_type_access_token request_id kind found)
      ≡ rotated request_id kind found
kept-kept request_id kind (err e) = refl
kept-kept request_id kind (ok x) = ground arith

module _ {S : Type 0} (store : Store S) (sessions : IsSessionMap store) where
  -- Over a store that is a map of sessions, a rotation succeeds, and deletes exactly the access
  -- and refresh tokens of the request: every other session, of another request or of another
  -- type, is found as before.
  pub get_session-rotate_refresh_token :
      (request_id signature : String) (s : S) (kind sig : String)
      → ((rotate_refresh_token store request_id signature s).0 ≡ answer tt)
        × (store.get_session kind sig (rotate_refresh_token store request_id signature s).1
            ≡ rotated request_id kind (store.get_session kind sig s))
  unfolding rotate_refresh_token
  get_session-rotate_refresh_token request_id signature s kind sig =
      let p = store.delete_sessions_by_request_id session_type_access_token request_id s in
      let q = store.delete_sessions_by_request_id session_type_refresh_token request_id p.1 in
      let (p_ok, p_found) =
        sessions.delete_all_found session_type_access_token request_id s kind sig in
      let (q_ok, q_found) =
        sessions.delete_all_found session_type_refresh_token request_id p.1 kind sig in
      rw (done_of_ok p p_ok, done_of_ok q q_ok)
        (
          refl,
          q_found
              ∙ ap (kept session_type_refresh_token request_id kind) p_found
              ∙ kept-kept request_id kind (store.get_session kind sig s),
        )
