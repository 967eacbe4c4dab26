-- ===== src/Storage/Adapter/Sessions.antt =====
-- Sessions through the adapter: what is created is found, and an authorization code that is
-- invalidated stays so.
use mcp_kit.Prelude.{
  ℕ, ◌<◌, String, Bool, ◌≡◌, refl, arith, Option, some, List, [], ◌∷◌, true, false, eq_refl, ◌∙◌,
}
use mcp_kit.Storage.Json.{Json, Fields, field}
use mcp_kit.Storage.Types.{Client, ok, Store, session_type_authorization_code}
use mcp_kit.Storage.Memory.Laws.{IsSessionMap}
use mcp_kit.Storage.Request.{
  SessionType, Request, or_now, sanitize_request_form, unmarshal_stored_request_data,
}
use mcp_kit.Storage.Request.RoundTrip.{stored_of, unmarshal-marshal}
use mcp_kit.Storage.Adapter.Outcomes.{done-state, done_of_ok}
use mcp_kit.Storage.Adapter.{
  answer, found, invalidated, Resolution, get_client, if_empty, session_row, create_session,
  row_to_requester, get_session, invalidate_authorize_code_session,
}

-- A request as the adapter gives it back: less its sensitive fields, with the client that the
-- identifier stands for now, and with the granted scopes where none were requested.
abbrev pub restored : {F : Type 0} → ℕ → F → Client → Request F → Request F
restored now x c r = record {
  id = r.id;
  requested_at = or_now now r.requested_at;
  client = c;
  session = some x;
  granted_scopes = r.granted_scopes;
  requested_scopes = if_empty r.requested_scopes r.granted_scopes;
  requested_audience = r.requested_audience;
  granted_audience = r.granted_audience;
  form = sanitize_request_form r.form;
}

if_empty_self : (xs : List String) → if_empty xs xs ≡ xs
if_empty_self [] = refl
if_empty_self (x ∷ xs) = refl

or_now_twice : (now now' t : ℕ) → 0 < now → or_now now' (or_now now t) ≡ or_now now t
or_now_twice now now' t h = ground arith

module _ {S : Type 0} (store : Store S) (resolver : Option (String → Resolution)) {F : Type 0}
    (session_type : SessionType F) (sessions : IsSessionMap store) where
  -- What a caller supposes of a request: its session marshals to an object with a field, which
  -- the session object `blank` of a later caller is filled from.
  pub record IsStorable (r : Request F) (blank x : F) : Type 0 where
    pub session : F
    pub key : String
    pub value : Json
    pub rest : Fields
    pub has_session : r.session ≡ some session
    pub marshals : session_type.to_json session ≡ some (field key value rest)
    pub unmarshals : session_type.from_json (field key value rest) blank ≡ some x

  row_to_requester_of_session_row :
      (kind signature : String) (now now' : ℕ) (r : Request F) (blank x : F) (c : Client) (s : S)
      (active : Bool) (stored : Fields) (p : IsStorable r blank x)
      → 0 < now
      → get_client store resolver r.client.id s ≡ answer c
      → unmarshal_stored_request_data stored ≡ some (stored_of (field p.key p.value p.rest) now r)
      → row_to_requester store resolver session_type now'
          (record (session_row store resolver session_type kind signature r stored) {
            active = active;
          })
          (some blank)
          s
        ≡ answer (restored now x c r)
  unfolding row_to_requester
  row_to_requester_of_session_row kind signature now now' r blank x c s active stored p h g u =
      rw
        (u, p.unmarshals, g, if_empty_self r.granted_scopes, or_now_twice now now' r.requested_at h)

  get_client_unchanged :
      (id : String) (s s' : S)
      → store.get_client id s' ≡ store.get_client id s
      → get_client store resolver id s' ≡ get_client store resolver id s
  unfolding get_client
  get_client_unchanged id s s' h = rw h

  -- Over a store that is a map of sessions, when a request is stored whose session can be
  -- stored and whose client the adapter finds, at a time that is not zero, then storing it
  -- succeeds, and a lookup of its type and signature finds a request with its identifier, scopes,
  -- audiences and form, less the sensitive fields of the form. Its client is the one that the
  -- adapter finds, and its session is what the JSON of the stored one reads as. Where none were
  -- requested, the requested scopes are the granted ones, and where it had no time, its time is
  -- that of the storing.
  pub get_session-create_session :
      (kind signature : String) (now now' : ℕ) (r : Request F) (blank x : F) (c : Client) (s : S)
      → IsStorable r blank x
      → 0 < now
      → get_client store resolver r.client.id s ≡ answer c
      → ((create_session store resolver session_type kind signature now r s).0 ≡ answer tt)
        × (get_session store resolver session_type kind signature now'
              (some blank)
              (create_session store resolver session_type kind signature now r s).1
            ≡ found (restored now x c r))
  unfolding create_session get_session
  get_session-create_session kind signature now now' r blank x c s p h g =
      let (stored, written, read) =
        unmarshal-marshal session_type now r p.session p.key p.value p.rest p.has_session
          p.marshals in
      let row = session_row store resolver session_type kind signature r stored in
      let s' = (store.save_session row s).1 in
      let g' =
        get_client_unchanged r.client.id s s' (sessions.save_clients row s r.client.id) ∙ g in
      let back =
        row_to_requester_of_session_row kind signature now now' r blank x c s' true stored p h g'
          read in
      rw (written, done_of_ok (store.save_session row s) (sessions.save_ok row s))
        (refl, rw (sessions.save_found row s kind signature, eq_refl kind, eq_refl signature, back))

  -- Over a store that is a map of sessions, when an authorization code is created for a request
  -- whose session can be stored and whose client the adapter finds, at a time that is not zero,
  -- and is then invalidated, a lookup of the code returns the request beside the error that
  -- marks the code as used.
  pub get_session-invalidate_authorize_code_session :
      (code : String) (now now' : ℕ) (r : Request F) (blank x : F) (c : Client) (s : S)
      → IsStorable r blank x
      → 0 < now
      → get_client store resolver r.client.id s ≡ answer c
      → get_session store resolver session_type session_type_authorization_code code now'
          (some blank)
          (invalidate_authorize_code_session store code
            (create_session store resolver session_type session_type_authorization_code code now r
              s).1).1
        ≡ invalidated (restored now x c r)
  unfolding create_session get_session invalidate_authorize_code_session
  get_session-invalidate_authorize_code_session code now now' r blank x c s p h g =
      let kind = session_type_authorization_code in
      let (stored, written, read) =
        unmarshal-marshal session_type now r p.session p.key p.value p.rest p.has_session
          p.marshals in
      let row = session_row store resolver session_type kind code r stored in
      let s' = (store.save_session row s).1 in
      let in_s' : store.get_session kind code s' ≡ ok row =
        rw (sessions.save_found row s kind code, eq_refl kind, eq_refl code) in
      let (fine, changed, same_clients) = sessions.active_ok kind code false s' row in_s' in
      let s'' = (store.set_session_active kind code false s').1 in
      let g' =
        get_client_unchanged r.client.id s' s'' (same_clients r.client.id)
        ∙ get_client_unchanged r.client.id s s' (sessions.save_clients row s r.client.id)
        ∙ g in
      let back =
        row_to_requester_of_session_row kind code now now' r blank x c s'' false stored p h g'
          read in
      rw (
        written,
        done-state (store.save_session row s),
        done-state (store.set_session_active kind code false s'),
        changed,
        back,
      )
