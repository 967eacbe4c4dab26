-- ===== src/Register/Handler/Stored.antt =====
-- What a registration stores, and what it answers.
use mathlib.Core.Path.{subst}
use mcp_kit.Prelude.{
  ◌≤◌, String, Bool, true, false, ◌≡◌, ◌≢◌, ◌↔◌, ◌⊎◌, inl, inr, refl, Option, none, some, [], ◌∷◌,
  contains, All, length, ◌==◌, eq_iff, Option-cases, Bool-cases,
}
use mcp_kit.Text.{utf8, join}
use mcp_kit.Storage.Types.{Client}
use mcp_kit.Register.Uris.{Url, Rejection, Checked, passed, rejected}
use mcp_kit.Register.Uris.Laws.{IsAccepted, IsLogo}
use mcp_kit.Register.Scopes.Laws.{IsAllowed, passed-injective, Checked-cases}
use mcp_kit.Register.Handler.{
  RegistrationHandler, RegistrationRequest, RegistrationResponse, Metadata, Drawn, auth_method_none,
  supported_grant_types, supported_response_types, supported_auth_methods, is_public, check,
  draw_secret, new_client, new_response, process, persist, saved, serve_http,
}
use mcp_kit.Register.Handler.Policy.{
  Supports, IsChecked, check-eq-passed, length-normalize_client_name-le,
}

-- What registration promises of a client, in the terms of the client.
pub record IsPermitted (parse : String → Option Url) (h : RegistrationHandler) (c : Client)
    : Type 0 where
  some_redirect : c.redirect_uris ≢ []
  redirects : All (IsAccepted parse) c.redirect_uris
  grants : Supports supported_grant_types c.grant_types
  responses : Supports supported_response_types c.response_types
  method : contains supported_auth_methods c.token_auth_method ≡ true
  public : (c.is_public ≡ true) ↔ (c.token_auth_method ≡ auth_method_none)
  scopes : All (IsAllowed h.allowed_scopes) c.scopes
  audience : c.audience ≡ h.audience ∷ []
  name : length c.name ≤ 200
  logo :
      (c.logo_uri ≡ "")
      ⊎ ((length (utf8 c.logo_uri) ≤ 2048) × ((u : Url) × (parse c.logo_uri ≡ some u) × IsLogo u))

-- The answer says what is stored, and the secret that it tells is the one whose hash is stored.
pub record Describes (hash_secret : String → Option String) (r : RegistrationResponse) (c : Client)
    : Type 0 where
  id : r.client_id ≡ c.id
  name : r.client_name ≡ c.name
  redirects : r.redirect_uris ≡ c.redirect_uris
  grants : r.grant_types ≡ c.grant_types
  responses : r.response_types ≡ c.response_types
  method : r.token_endpoint_auth_method ≡ c.token_auth_method
  scope : r.scope ≡ join " " c.scopes
  logo : r.logo_uri ≡ c.logo_uri
  secret :
      ((c.is_public ≡ true) × (r.client_secret ≡ "") × (c.client_secret_hash ≡ ""))
      ⊎ ((c.is_public ≡ false) × (hash_secret r.client_secret ≡ some c.client_secret_hash))

new_client-IsPermitted :
    (parse : String → Option Url) (h : RegistrationHandler) (req : RegistrationRequest)
    (m : Metadata) (d : Drawn) (hashed : String)
    → IsChecked parse h req m
    → IsPermitted parse h (new_client h req m d hashed)
unfolding new_client
new_client-IsPermitted parse h req m d hashed k = record {
  some_redirect = k.some_redirect;
  redirects = k.redirects;
  grants = k.grants;
  responses = k.responses;
  method = k.method;
  public = eq_iff m.auth_method auth_method_none;
  scopes = k.scopes;
  audience = refl;
  name = length-normalize_client_name-le req.client_name;
  logo = k.logo;
}

-- How the secret told and the hash stored belong together.
abbrev IsSecret : (String → Option String) → Metadata → String → String → Type 0
IsSecret hash_secret m raw hashed =
    ((is_public m ≡ true) × (raw ≡ "") × (hashed ≡ ""))
    ⊎ ((is_public m ≡ false) × (hash_secret raw ≡ some hashed))

draw_secret-eq-passed :
    (hash_secret : String → Option String) (m : Metadata) (d : Drawn) (raw hashed : String)
    → draw_secret hash_secret m d ≡ passed (raw, hashed)
    → IsSecret hash_secret m raw hashed
unfolding draw_secret
draw_secret-eq-passed hash_secret m d raw hashed e = elim (Bool-cases (is_public m)) [
  | inl p ↦ let both = passed-injective (rw p at e) in inl (p, cc, cc)
  | inr p ↦ elim (Option-cases (hash_secret d.secret)) [
    | inl q ↦ absurd (cc (rw q at (rw p at e)))
    | inr (x, q) ↦ let both = passed-injective (rw q at (rw p at e)) in inr (p, cc (q))
  ]
]

new_response-Describes :
    (hash_secret : String → Option String) (parse : String → Option Url) (h : RegistrationHandler)
    (req : RegistrationRequest) (m : Metadata) (d : Drawn) (raw hashed : String)
    → IsChecked parse h req m
    → IsSecret hash_secret m raw hashed
    → Describes hash_secret
        (new_response (new_client h req m d hashed) m d raw)
        (new_client h req m d hashed)
unfolding new_client new_response
new_response-Describes hash_secret parse h req m d raw hashed k is = record {
  id = refl;
  name = refl;
  redirects = refl;
  grants = refl;
  responses = refl;
  method = refl;
  scope = k.text;
  logo = refl;
  secret = is;
}

module _ (parse : String → Option Url) (hash_secret : String → Option String) {S : Type 0}
    (save_client : Client → S → Bool × S) (h : RegistrationHandler) where
  -- A client that is stored by one call of `SaveClient`, and that the answer describes.
  pub record IsRegistered (s after : S) (r : RegistrationResponse) : Type 0 where
    client : Client
    stored : save_client client s ≡ (true, after)
    permitted : IsPermitted parse h client
    described : Describes hash_secret r client

  saved-eq-passed :
      (a r : RegistrationResponse) (x : Bool × S) (after : S)
      → saved parse hash_secret save_client a x ≡ (passed r, after)
      → (x ≡ (true, after)) × (a ≡ r)
  saved-eq-passed a r (true, s) after e = (cc, cc)
  saved-eq-passed a r (false, s) after e = absurd (cc)

  persist-eq-passed :
      (req : RegistrationRequest) (m : Metadata) (d : Drawn) (x : Checked (String × String))
      (s after : S) (r : RegistrationResponse)
      → IsChecked parse h req m
      → draw_secret hash_secret m d ≡ x
      → persist parse hash_secret save_client h req m d x s ≡ (passed r, after)
      → IsRegistered s after r
  persist-eq-passed req m d (rejected e) s after r k dr is = absurd (cc)
  persist-eq-passed req m d (passed (raw, hashed)) s after r k dr is =
      let c = new_client h req m d hashed in
      let (stored, same) = saved-eq-passed (new_response c m d raw) r (save_client c s) after is in
      record {
        client = c;
        stored = stored;
        permitted = new_client-IsPermitted parse h req m d hashed k;
        described =
            subst (λ r. Describes hash_secret r c) same
              (new_response-Describes hash_secret parse h req m d raw hashed k
                (draw_secret-eq-passed hash_secret m d raw hashed dr));
      }

  -- A registration that is answered with a response has stored one client, by a call of
  -- `SaveClient` that succeeded, and left the store as that call did. The client has a redirect
  -- URI, and only redirect URIs that are accepted; only supported grant types, response types
  -- and authentication method; it is public just if that method is `none`; it has only allowed
  -- scopes, the handler's audience, a name of at most 200 bytes, and no logo or an https one of
  -- at most 2048 bytes. The response repeats what is stored; a public client has no secret, and
  -- otherwise the hash stored is that of the secret told.
  pub process-eq-passed :
      (req : RegistrationRequest) (d : Drawn) (s after : S) (r : RegistrationResponse)
      → process parse hash_secret save_client h req d s ≡ (passed r, after)
      → IsRegistered s after r
  unfolding process
  process-eq-passed req d s after r e = elim (Checked-cases (check parse h req)) [
    | inl (m, k) ↦
        persist-eq-passed req m d (draw_secret hash_secret m d) s after r
          (check-eq-passed parse h req m k) refl (rw k at e)
    | inr (x, k) ↦ absurd (cc (rw k at e))
  ]

  saved-eq-rejected :
      (a : RegistrationResponse) (x : Bool × S) (after : S) (e : Rejection)
      → saved parse hash_secret save_client a x ≡ (rejected e, after)
      → x ≡ (false, after)
  saved-eq-rejected a (true, s) after e is = absurd (cc)
  saved-eq-rejected a (false, s) after e is = cc

  -- The store is as it was, or the one thing that went wrong is `SaveClient`.
  abbrev pub IsRefused : S → S → Type 0
  IsRefused s after = (after ≡ s) ⊎ ((c : Client) × (save_client c s ≡ (false, after)))

  persist-eq-rejected :
      (req : RegistrationRequest) (m : Metadata) (d : Drawn) (x : Checked (String × String))
      (s after : S) (e : Rejection)
      → persist parse hash_secret save_client h req m d x s ≡ (rejected e, after)
      → IsRefused s after
  persist-eq-rejected req m d (rejected y) s after e is = inl (cc)
  persist-eq-rejected req m d (passed (raw, hashed)) s after e is =
      let c = new_client h req m d hashed in
      inr (c, saved-eq-rejected (new_response c m d raw) (save_client c s) after e is)

  process-eq-rejected :
      (req : RegistrationRequest) (d : Drawn) (s after : S) (e : Rejection)
      → process parse hash_secret save_client h req d s ≡ (rejected e, after)
      → IsRefused s after
  unfolding process
  process-eq-rejected req d s after e is = elim (Checked-cases (check parse h req)) [
    | inl (m, k) ↦ persist-eq-rejected req m d (draw_secret hash_secret m d) s after e (rw k at is)
    | inr (x, k) ↦ inl (cc (rw k at is))
  ]

  -- A request that is answered with an error has stored nothing: the store is as it was, unless
  -- `SaveClient` was called and reported a failure, when it is as that call left it.
  pub serve_http-eq-rejected :
      (method : String) (body : Option RegistrationRequest) (d : Drawn) (s after : S)
      (e : Rejection)
      → serve_http parse hash_secret save_client h method body d s ≡ (rejected e, after)
      → IsRefused s after
  unfolding serve_http
  serve_http-eq-rejected method none d s after e is = elim (Bool-cases (method == "POST")) [
    | inl p ↦ inl (cc (rw p at is))
    | inr p ↦ inl (cc (rw p at is))
  ]
  serve_http-eq-rejected method (some req) d s after e is = elim (Bool-cases (method == "POST")) [
    | inl p ↦ process-eq-rejected req d s after e (rw p at is)
    | inr p ↦ inl (cc (rw p at is))
  ]
