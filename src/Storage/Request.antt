-- ===== src/Storage/Request.antt =====
-- The request state of oauth/storage/storage.go, and how it is stored in a session row. The
-- engine's session type is a parameter: its JSON object, and how an object is read into it.
pub mod RoundTrip
use mcp_kit.Prelude.{
  ℕ, String, Bool, true, false, Option, none, some, List, [], ◌∷◌, contains, nat_eq, if◌then◌else◌,
}
use mcp_kit.Storage.Types.{Client}
use mcp_kit.Storage.Json.{
  Json, null, time, array, object, Items, Fields, end, field, member, encode_texts,
  decode_text_list, Form, encode_form, decode_form, ◌>>=◌, is_empty,
}

-- `fosite.TokenType`, as far as the kit uses it.
pub data TokenType : Type 0 where
  authorize_code access_token refresh_token : TokenType

-- `fosite.Session`. A zero instant is 0.
pub record SessionType (F : Type 0) : Type 0 where
  pub to_json : F → Option Fields
  pub from_json : Fields → F → Option F
  pub expires_at : F → TokenType → ℕ
  pub subject : F → String

-- `fosite.Request`; a nil session is `none`.
pub record Request (F : Type 0) : Type 0 where
  pub id : String
  pub requested_at : ℕ
  pub client : Client
  pub session : Option F
  pub granted_scopes : List String
  pub requested_scopes : List String
  pub requested_audience : List String
  pub granted_audience : List String
  pub form : Form

pub record StoredRequestData : Type 0 where
  pub session : Option Fields
  pub form : Form
  pub requested_at : ℕ
  pub requested_scopes : List String
  pub granted_scopes : List String
  pub requested_audience : List String
  pub granted_audience : List String

abbrev pub sensitive : List String
sensitive = "client_secret" ∷ "code_verifier" ∷ "password" ∷ "refresh_token" ∷ "token" ∷ []

-- `sanitizeRequestForm`
unfoldable pub sanitize_request_form : Form → Form
sanitize_request_form [] = []
sanitize_request_form ((k, vs) ∷ f) =
    let rest = sanitize_request_form f in if contains sensitive k then rest else (k, vs) ∷ rest

abbrev pub or_now : ℕ → ℕ → ℕ
or_now now t = if nat_eq t 0 then now else t

-- A field of a list of texts, left out when it is empty.
abbrev put_texts : String → List String → Fields → Fields
put_texts name [] rest = rest
put_texts name (s ∷ ss) rest = field name (array (encode_texts (s ∷ ss))) rest

abbrev put_form : Form → Fields → Fields
put_form [] rest = rest
put_form (e ∷ f) rest = field "form" (object (encode_form (e ∷ f))) rest

abbrev put_session : Option Fields → Fields → Fields
put_session none rest = rest
put_session (some end) rest = rest
put_session (some (field k v fs)) rest = field "session" (object (field k v fs)) rest

-- The object that `storedRequestData` marshals to, by its tags.
unfoldable pub encode_stored : StoredRequestData → Fields
encode_stored d = put_session d.session (
    put_form d.form (
      field "requestedAt" (time d.requested_at) (
        put_texts "requestedScopes" d.requested_scopes (
          put_texts "grantedScopes" d.granted_scopes (
            put_texts "requestedAudience" d.requested_audience
              (put_texts "grantedAudience" d.granted_audience end))))))

abbrev texts_at : Option Json → Option (List String)
texts_at none = some []
texts_at (some v) = decode_text_list v

abbrev form_at : Option Json → Option Form
form_at none = some []
form_at (some (object fs)) = decode_form fs
form_at (some null) = some []
form_at (some _) = none

abbrev time_at : Option Json → Option ℕ
time_at none = some 0
time_at (some (time t)) = some t
time_at (some null) = some 0
time_at (some _) = none

abbrev session_at : Option Json → Option (Option Fields)
session_at none = some none
session_at (some (object fs)) = some (some fs)
session_at (some null) = some none
session_at (some _) = none

-- `json.Unmarshal` into `storedRequestData`.
unfoldable pub decode_stored : Fields → Option StoredRequestData
decode_stored fs = do
  session ← session_at (member "session" fs)
  form ← form_at (member "form" fs)
  requested_at ← time_at (member "requestedAt" fs)
  requested_scopes ← texts_at (member "requestedScopes" fs)
  granted_scopes ← texts_at (member "grantedScopes" fs)
  requested_audience ← texts_at (member "requestedAudience" fs)
  granted_audience ← texts_at (member "grantedAudience" fs)
  some (record {
    session = session;
    form = form;
    requested_at = requested_at;
    requested_scopes = requested_scopes;
    granted_scopes = granted_scopes;
    requested_audience = requested_audience;
    granted_audience = granted_audience;
  })

-- Stored data that is nothing but a session, as earlier versions wrote it.
abbrev pub only_session : Option Fields → StoredRequestData
only_session session = record {
  session = session;
  form = [];
  requested_at = 0;
  requested_scopes = [];
  granted_scopes = [];
  requested_audience = [];
  granted_audience = [];
}

abbrev with_session : Fields → Option Json → Option StoredRequestData
with_session fs none = some (only_session (some fs))
with_session fs (some v) = decode_stored fs

unfoldable pub unmarshal_stored_request_data : Fields → Option StoredRequestData
unfolding decode_stored member decode_text_list decode_form
unmarshal_stored_request_data fs =
    if is_empty fs then some (only_session none) else with_session fs (member "session" fs)

module _ {F : Type 0} (session_type : SessionType F) where
  abbrev session_json : Option F → Option (Option Fields)
  session_json none = some none
  session_json (some x) = do fs ← session_type.to_json x; some (some fs)

  -- `marshalRequestData`, with what `time.Now` returns in it.
  unfoldable pub marshal_request_data : ℕ → Request F → Option Fields
  unfolding sanitize_request_form encode_stored contains encode_texts encode_form
  marshal_request_data now r = do
    session ← session_json r.session
    some (
        encode_stored (record {
          session = session;
          form = sanitize_request_form r.form;
          requested_at = or_now now r.requested_at;
          requested_scopes = r.requested_scopes;
          granted_scopes = r.granted_scopes;
          requested_audience = r.requested_audience;
          granted_audience = r.granted_audience;
        }))
