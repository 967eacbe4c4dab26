-- ===== src/Consent/Handler/Genuine.antt =====
-- Where the subjects of responses come from, over the HMAC store.
use mcp_kit.Prelude.{
  String, true, false, ◌≡◌, ◌⊎◌, inl, inr, refl, some, List, [], ◌∷◌, In, Option-cases,
}
use mcp_kit.Text.{has_char}
use mcp_kit.Storage.Json.{Form}
use mcp_kit.Consent.Params.{get, oauth_authorize_values}
use mcp_kit.Consent.Store.{Subject}
use mcp_kit.Consent.HmacStore.{HmacStore, Codec, new_store, hmac_store, issue}
use mcp_kit.Consent.HmacStore.Tokens.{IsCodec}
use mcp_kit.Consent.HmacStore.Genuine.{Issued, Reach, consume_genuine}
use mcp_kit.Consent.HmacStore.Genuine
use mcp_kit.Consent.Config.{Minted, HttpRequest, Config}
use mcp_kit.Consent.Handler.{serve_http}
use mcp_kit.Consent.Handler.Moves.{LoggedIn, serve_http-Moves}
use mcp_kit.Consent.Handler.Laws.{serve_http-Served}

-- A configuration with the HMAC store, which is the default.
abbrev pub with_store : Codec → Config HmacStore → Config HmacStore
with_store codec cfg = record cfg { approval_store = hmac_store codec }

module _ (codec : Codec) (is_codec : IsCodec codec) (base : Config HmacStore) where
  abbrev pub cfg : Config HmacStore
  cfg = with_store codec base

  -- The requests of a handler, from its start, the last one first. What they draw for a token is
  -- in base64, which has no bar.
  pub data Run : List HttpRequest → HmacStore → Type 0 where
    start : Run [] new_store
    served :
        {rs : List HttpRequest} {s : HmacStore} (r : HttpRequest)
        → Run rs s
        → ((nonce : String) → r.issue_inputs.random ≡ some nonce → has_char b'|' nonce ≡ false)
        → Run (r ∷ rs) (serve_http cfg r s).store

  -- Every token was issued to a subject that logged in.
  abbrev AllLoggedIn : List HttpRequest → List Issued → Type 0
  AllLoggedIn rs h =
      (x : Issued)
      → In x h
      → (q : HttpRequest) × (form : Form) × In q rs × LoggedIn cfg q form x.subject

  later :
      (r : HttpRequest) (rs : List HttpRequest) (h : List Issued)
      → AllLoggedIn rs h
      → AllLoggedIn (r ∷ rs) h
  later r rs h all x i = let (q, form, among, login) = all x i in (q, form, inr among, login)

  abbrev Known : List HttpRequest → HmacStore → Type 0
  Known rs s = (h : List Issued) × Reach codec h s × AllLoggedIn rs h

  issue-Known :
      (r : HttpRequest) (rs : List HttpRequest) (s : HmacStore) (form q : Form) (subject : Subject)
      → Known rs s
      → ((nonce : String) → r.issue_inputs.random ≡ some nonce → has_char b'|' nonce ≡ false)
      → LoggedIn cfg r form subject
      → Known (r ∷ rs) (issue codec r.issue_inputs subject q s).1
  unfolding issue
  issue-Known r rs s form q subject (h, reach, all) bars login =
      elim (Option-cases r.issue_inputs.random) [
        | inl e ↦ (h, rw e reach, later r rs h all)
        | inr (nonce, e) ↦ (
          _,
          Genuine.issued r.issue_inputs subject q nonce reach e (bars nonce e),
          λ x i. elim i [
            | inl same ↦ (r, form, inl refl, rw same login)
            | inr old ↦ later r rs h all x old
          ],
        )
      ]

  Run-Known : {rs : List HttpRequest} {s : HmacStore} → Run rs s → Known rs s
  Run-Known start = ([], Genuine.start, λ x i. absurd i)
  Run-Known (served {rs = rs} {s = s} r run bars) =
      let (h, reach, all) = Run-Known run in
      elim (serve_http-Moves cfg r s) [
        | inl e ↦ (h, rw e reach, later r rs h all)
        | inr (inl (t, q, e)) ↦
            (h, rw e (Genuine.consumed r.consume_inputs t q reach), later r rs h all)
        | inr (inr (form, subject, q, login, e)) ↦
            rw e (issue-Known r rs s form q subject (h, reach, all) bars login)
      ]

  -- A subject that a request logs in, and that need not be challenged.
  abbrev pub Admitted : List HttpRequest → Minted → Type 0
  Admitted rs m =
      (q : HttpRequest) × (form : Form) × (subject : Subject) × In q rs
      × LoggedIn cfg q form subject
      × (m.subject.id ≡ subject.id)

  -- The login of the request itself, whose consent the policy skips.
  abbrev pub Skipped : HttpRequest → Minted → Type 0
  Skipped r m =
      (form : Form) × (r.post_form ≡ some form)
      × (cfg.authenticate (get "username" form) (get "password" form) ≡ some m.subject)
      × (cfg.allows_skip m.requester m.subject m.requester.requested_scopes ≡ true)

  minted_is :
      (made : List Minted) (a m : Minted) (ms : List Minted) → made ≡ a ∷ [] → made ≡ m ∷ ms → m ≡ a
  minted_is made a m ms h k = cc

  -- With the HMAC store, in any sequence of requests from the start of the handler, a response is
  -- made only for a subject whose identifier is that of a subject that an earlier request logged in
  -- by name and password and that need not be challenged, or for the subject that the request
  -- itself logs in, whose consent the policy skips.
  pub serve_http_genuine :
      (r : HttpRequest) (rs : List HttpRequest) (s : HmacStore) (m : Minted) (ms : List Minted)
      → Run rs s
      → (serve_http cfg r s).minted ≡ m ∷ ms
      → Admitted rs m ⊎ Skipped r m
  serve_http_genuine r rs s m ms run h =
      let (is, reach, all) = Run-Known run in
      elim (serve_http-Served cfg r s) [
        | inl (no_response, _) ↦ absurd (cc)
        | inr (f, requester, _, posted, _, _, inl (_, no_response, _)) ↦ absurd (cc)
        | inr (f, requester, _, posted, _, _, inr (subject, at, inl (_, consumed), made)) ↦
            let (_, _, _, response, _, _) = made in
            let one = minted_is (serve_http cfg r s).minted _ m ms response h in
            let (x, among, _, who, _, _) =
              consume_genuine codec is_codec is s r.consume_inputs (get "approval_token" f)
                (oauth_authorize_values f) subject reach (rw consumed refl) in
            let (q, form, earlier, login) = all x among in
            inl (q, form, x.subject, earlier, login, rw (one, who) refl)
        | inr (f, requester, _, posted, _, _, inr (subject, at, inr (_, known, skip, _), made)) ↦
            let (_, _, _, response, _, _) = made in
            let one = minted_is (serve_http cfg r s).minted _ m ms response h in
            inr (f, posted, rw one known, rw one skip)
      ]
