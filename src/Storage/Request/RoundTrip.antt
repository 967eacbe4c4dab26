-- ===== src/Storage/Request/RoundTrip.antt =====
-- Stored request data is read back as it was written.
use mcp_kit.Prelude.{
  ℕ, String, ◌≡◌, refl, arith, false, Option, none, some, List, [], ◌∷◌, ◌==◌, contains, Bool-cases,
  inl, inr, eq_refl, eq_iff, if◌then◌else◌,
}
use mcp_kit.Storage.Json.{
  Json, time, Fields, end, field, member, decode_text_list-array, decode_form-encode_form, Form,
  is_empty,
}
use mcp_kit.Storage.Request.{
  StoredRequestData, sensitive, sanitize_request_form, put_texts, put_form, encode_stored, texts_at,
  form_at, unmarshal_stored_request_data, only_session, Request, SessionType, marshal_request_data,
  or_now,
}

member-put_texts :
    (name : String) (ss : List String) (rest : Fields) (key : String)
    → (name == key) ≡ false
    → member key (put_texts name ss rest) ≡ member key rest
unfolding member
member-put_texts name [] rest key h = refl
member-put_texts name (s ∷ ss) rest key h = ground arith

texts_at-put_texts :
    (name : String) (ss : List String) (rest : Fields)
    → member name rest ≡ none
    → texts_at (member name (put_texts name ss rest)) ≡ some ss
unfolding member
texts_at-put_texts name [] rest h = ground arith
texts_at-put_texts name (s ∷ ss) rest h =
    ground (arith, eq_refl name, decode_text_list-array (s ∷ ss))

member-put_form :
    (f : Form) (rest : Fields) (key : String)
    → ("form" == key) ≡ false
    → member key (put_form f rest) ≡ member key rest
unfolding member
member-put_form [] rest key h = refl
member-put_form (e ∷ f) rest key h = ground arith

form_at-put_form :
    (f : Form) (rest : Fields)
    → member "form" rest ≡ none
    → form_at (member "form" (put_form f rest)) ≡ some f
unfolding member
form_at-put_form [] rest h = ground arith
form_at-put_form (e ∷ f) rest h = decode_form-encode_form (e ∷ f)

-- The four lists, as they stand behind the instant of the request.
abbrev lists : List String → List String → List String → List String → Fields
lists a b c d = put_texts "requestedScopes" a (
    put_texts "grantedScopes" b
      (put_texts "requestedAudience" c (put_texts "grantedAudience" d end)))

member-lists :
    (a b c d : List String) (key : String)
    → ("requestedScopes" == key) ≡ false
    → ("grantedScopes" == key) ≡ false
    → ("requestedAudience" == key) ≡ false
    → ("grantedAudience" == key) ≡ false
    → member key (lists a b c d) ≡ none
unfolding member
member-lists a b c d key h i j k = rw (
  member-put_texts "requestedScopes" a _ key h,
  member-put_texts "grantedScopes" b _ key i,
  member-put_texts "requestedAudience" c _ key j,
  member-put_texts "grantedAudience" d _ key k,
)

texts_at-lists :
    (a b c d : List String)
    → (texts_at (member "requestedScopes" (lists a b c d)) ≡ some a)
      × (texts_at (member "grantedScopes" (lists a b c d)) ≡ some b)
      × (texts_at (member "requestedAudience" (lists a b c d)) ≡ some c)
      × (texts_at (member "grantedAudience" (lists a b c d)) ≡ some d)
unfolding member
texts_at-lists a b c d =
    let none_d : member "requestedAudience" (put_texts "grantedAudience" d end) ≡ none =
      rw (member-put_texts "grantedAudience" d end "requestedAudience" refl) in
    let none_c : member "grantedScopes"
          (put_texts "requestedAudience" c (put_texts "grantedAudience" d end))
        ≡ none =
      rw (
        member-put_texts "requestedAudience" c _ "grantedScopes" refl,
        member-put_texts "grantedAudience" d _ "grantedScopes" refl,
      ) in
    let none_b : member "requestedScopes" (
          put_texts "grantedScopes" b
            (put_texts "requestedAudience" c (put_texts "grantedAudience" d end)))
        ≡ none =
      rw (
        member-put_texts "grantedScopes" b _ "requestedScopes" refl,
        member-put_texts "requestedAudience" c _ "requestedScopes" refl,
        member-put_texts "grantedAudience" d _ "requestedScopes" refl,
      ) in
    (
      texts_at-put_texts "requestedScopes" a _ none_b,
      rw (member-put_texts "requestedScopes" a _ "grantedScopes" refl)
          (texts_at-put_texts "grantedScopes" b _ none_c),
      rw
          (
            member-put_texts "requestedScopes" a _ "requestedAudience" refl,
            member-put_texts "grantedScopes" b _ "requestedAudience" refl,
          )
          (texts_at-put_texts "requestedAudience" c _ none_d),
      rw
          (
            member-put_texts "requestedScopes" a _ "grantedAudience" refl,
            member-put_texts "grantedScopes" b _ "grantedAudience" refl,
            member-put_texts "requestedAudience" c _ "grantedAudience" refl,
          )
          (texts_at-put_texts "grantedAudience" d end refl),
    )

-- The values of a name in a form, and `none` where the form has no such name.
unfoldable pub values : String → Form → Option (List String)
values key [] = none
values key ((k, vs) ∷ f) = if k == key then some vs else values key f

-- What is stored with a session that has a field is read back as it was, whatever else it holds.
pub unmarshal_stored_request_data-encode_stored :
    (d : StoredRequestData) (k : String) (v : Json) (fs : Fields)
    → d.session ≡ some (field k v fs)
    → unmarshal_stored_request_data (encode_stored d) ≡ some d
unfolding unmarshal_stored_request_data encode_stored
unmarshal_stored_request_data-encode_stored d k v fs h =
    let (a, b, c, e) =
      texts_at-lists d.requested_scopes d.granted_scopes d.requested_audience d.granted_audience in
    let rest =
      field "requestedAt" (time d.requested_at)
        (lists d.requested_scopes d.granted_scopes d.requested_audience d.granted_audience) in
    let no_form : member "form" rest ≡ none = member-lists _ _ _ _ "form" refl refl refl refl in
    rw (
      h,
      form_at-put_form d.form rest no_form,
      member-put_form d.form rest "requestedAt" refl,
      member-put_form d.form rest "requestedScopes" refl,
      member-put_form d.form rest "grantedScopes" refl,
      member-put_form d.form rest "requestedAudience" refl,
      member-put_form d.form rest "grantedAudience" refl,
      a,
      b,
      c,
      e,
    )

-- No stored form has a field of a sensitive name, and the other fields are stored as they are.
pub sanitize_request_form_exact :
    (key : String) (f : Form)
    → values key (sanitize_request_form f) ≡ (if contains sensitive key then none else values key f)
unfolding sanitize_request_form values
sanitize_request_form_exact key [] = ground arith
sanitize_request_form_exact key ((k, vs) ∷ f) = elim (Bool-cases (k == key)) [
  | inl e ↦ rw ((eq_iff k key).0 e) (ground (arith, sanitize_request_form_exact key f, eq_refl key))
  | inr e ↦ ground (arith, sanitize_request_form_exact key f)
]

is_empty-put_form :
    (f : Form) (k : String) (v : Json) (rest : Fields)
    → is_empty (put_form f (field k v rest)) ≡ false
is_empty-put_form [] k v rest = refl
is_empty-put_form (e ∷ f) k v rest = refl

unmarshal_stored_request_data-encode_bare :
    (d : StoredRequestData)
    → d.session ≡ none
    → unmarshal_stored_request_data (encode_stored d) ≡ some (only_session (some (encode_stored d)))
unfolding unmarshal_stored_request_data encode_stored
unmarshal_stored_request_data-encode_bare d h =
    let four = lists d.requested_scopes d.granted_scopes d.requested_audience d.granted_audience in
    let rest = field "requestedAt" (time d.requested_at) four in
    let no_session : member "session" rest ≡ none =
      member-lists _ _ _ _ "session" refl refl refl refl in
    rw (
      h,
      is_empty-put_form d.form "requestedAt" (time d.requested_at) four,
      member-put_form d.form rest "session" refl,
      no_session,
    )

module _ {F : Type 0} where
  -- What `marshalRequestData` keeps of a request whose session marshals to `session`.
  abbrev pub stored_of : Fields → ℕ → Request F → StoredRequestData
  stored_of session now r = record {
    session = some session;
    form = sanitize_request_form r.form;
    requested_at = or_now now r.requested_at;
    requested_scopes = r.requested_scopes;
    granted_scopes = r.granted_scopes;
    requested_audience = r.requested_audience;
    granted_audience = r.granted_audience;
  }

  -- A request whose session marshals to an object with a field is stored, and what is stored is
  -- read back as the request was, less the sensitive fields of its form, with the present time
  -- for a zero time.
  pub unmarshal-marshal :
      (session_type : SessionType F) (now : ℕ) (r : Request F) (x : F) (k : String) (v : Json)
      (fs : Fields)
      → r.session ≡ some x
      → session_type.to_json x ≡ some (field k v fs)
      → (stored : Fields) × (marshal_request_data session_type now r ≡ some stored)
        × (unmarshal_stored_request_data stored ≡ some (stored_of (field k v fs) now r))
  unfolding marshal_request_data
  unmarshal-marshal session_type now r x k v fs h e = (
    encode_stored (stored_of (field k v fs) now r),
    rw (h, e),
    unmarshal_stored_request_data-encode_stored (stored_of (field k v fs) now r) k v fs refl,
  )

  abbrev bare : ℕ → Request F → StoredRequestData
  bare now r = record (stored_of end now r) { session = none }

  -- A request without a session is stored too, but what is stored is read back as if all of it
  -- were a session of an earlier version: the form, the scopes and the audience are lost.
  pub unmarshal-marshal_without_session :
      (session_type : SessionType F) (now : ℕ) (r : Request F)
      → r.session ≡ none
      → (stored : Fields) × (marshal_request_data session_type now r ≡ some stored)
        × (unmarshal_stored_request_data stored ≡ some (only_session (some stored)))
  unfolding marshal_request_data unmarshal_stored_request_data
  unmarshal-marshal_without_session session_type now r h = (
    encode_stored (bare now r),
    rw h,
    unmarshal_stored_request_data-encode_bare (bare now r) refl,
  )
