-- ===== src/Consent/Tests.antt =====
-- Runs of the consent package, and the theorems at concrete inputs.
mod Setup
use text.Mathlib.TextLemmas.{cons-ne-nil}
use mcp_kit.Prelude.{
  ℕ, String, Bool, true, false, ◌≡◌, ◌≢◌, ◌⊎◌, inl, inr, refl, ap, arith, Option, none, some, List,
  [], ◌∷◌, ◌≤◌, ◌<◌, ◌+◌, ◌*◌, ◌==◌, if◌then◌else◌,
}
use mcp_kit.Text.{has_char, cut}
use mcp_kit.Consent.Params.{get, params_digest, oauth_authorize_values}
use mcp_kit.Consent.Store.{
  Subject, IssueInputs, ConsumeInputs, approved, token_invalid, IsSingleUse, approval_token_ttl,
}
use mcp_kit.Consent.Store.Once.{done, consume_once}
use mcp_kit.Consent.HmacStore.{
  new_store, hmac_store, is_issued, unix, second, subject_of, write, issue, consume, token_of,
  HmacStore,
}
use mcp_kit.Consent.HmacStore.Contract.{hmac_store-IsSingleUse}
use mcp_kit.Consent.HmacStore.Genuine.{
  Issued, Reach, start, issued, token_for, consume_genuine, consume-issue, consume-issue_bar,
}
use mcp_kit.Consent.SessionStore.{
  session_store, is_stored, new_memory_backend, MemoryItem, MemoryBackend, Entry,
}
use mcp_kit.Consent.SessionStore
use mcp_kit.Consent.SessionStore.Laws.{
  session_store-IsSingleUse, consume-issue_session, consume-eq-approved,
}
use mcp_kit.Consent.Config.{Minted, Config, HttpRequest}
use mcp_kit.Consent.Handler.{serve_http, handle_login, handle_approve}
use mcp_kit.Consent.Handler.Flow.{handle_approve-handle_login}
use mcp_kit.Consent.Handler.Laws.{Served, serve_http-Served}
use mcp_kit.Consent.Handler.Once.{serve_http_once}
use mcp_kit.Consent.Handler.Once as Requests
use mcp_kit.Consent.Handler.Genuine.{Admitted, Skipped, serve_http_genuine}
use mcp_kit.Consent.Handler.Genuine as Runs
use mcp_kit.Consent.Tests.Setup.{
  alice, piped, params, codec, codec-IsCodec, hash, drawn, early, form, request, requester, config,
}

hmac_store-IsSingleUse_example : IsSingleUse (hmac_store codec) (is_issued codec)
hmac_store-IsSingleUse_example = hmac_store-IsSingleUse codec

session_store-IsSingleUse_example : IsSingleUse (session_store hash) (is_stored hash)
session_store-IsSingleUse_example = session_store-IsSingleUse hash

abbrev issued_token : Issued
issued_token = record {
  subject = alice;
  params = params;
  expires_at = unix (drawn.now + approval_token_ttl);
  nonce = "n";
}

consume-issue_bar_example :
    consume codec early
      (token_of codec piped params (unix (drawn.now + approval_token_ttl)) "n")
      params
      (issue codec drawn piped params new_store).1
    ≡ (token_invalid, (issue codec drawn piped params new_store).1)
unfolding issue has_char
consume-issue_bar_example =
    consume-issue_bar codec codec-IsCodec drawn early piped params params "n"
      (token_of codec piped params (unix (drawn.now + approval_token_ttl)) "n") new_store
      (issue codec drawn piped params new_store).1 refl refl refl refl

is_approved :
    (consume codec early
      (token_for codec issued_token)
      params
      (issue codec drawn alice params new_store).1).0
    ≡ approved (subject_of codec alice.id)
unfolding has_char
is_approved =
    ap (λ r. r.0)
      (consume-issue codec codec-IsCodec drawn early alice params params "n" new_store refl refl
        refl refl (ground arith) (ground arith)).1

reached : Reach codec (issued_token ∷ []) (issue codec drawn alice params new_store).1
unfolding has_char
reached = issued drawn alice params "n" start refl refl

consume_genuine_example :
    (x : Issued) × ((x ≡ issued_token) ⊎ ⊥)
    × (token_for codec issued_token ≡ token_for codec x)
    × (subject_of codec alice.id ≡ subject_of codec x.subject.id)
    × (params_digest codec.hash params ≡ params_digest codec.hash x.params)
    × (6 < x.expires_at * second)
consume_genuine_example =
    consume_genuine codec codec-IsCodec (issued_token ∷ [])
      (issue codec drawn alice params new_store).1 early (token_for codec issued_token) params
      (subject_of codec alice.id) reached is_approved

serve_http-Served_example :
    Served
      (config (hmac_store codec))
      (request (form "login" ""))
      new_store
      (serve_http (config (hmac_store codec)) (request (form "login" "")) new_store)
serve_http-Served_example =
    serve_http-Served (config (hmac_store codec)) (request (form "login" "")) new_store

abbrev item : MemoryItem
item = record { entry = SessionStore.entry_of hash 0 alice params; expires_at = approval_token_ttl }

-- A backend with one entry, under the key "n".
abbrev backend : MemoryBackend
backend = record { items = λ k. if k == "n" then some item else none }

abbrev minted : Minted
minted = record {
  requester = requester;
  grants = record { scopes = "mcp.read" ∷ []; audience = "https://mcp.example.com/mcp" ∷ [] };
  subject = alice;
}

abbrev approval : HttpRequest
approval = request (form "approve" "n.digest")

abbrev session_handler : Config MemoryBackend
session_handler = config (session_store hash)

approval_minted : (serve_http session_handler approval backend).minted ≡ minted ∷ []
unfolding serve_http params_digest get SessionStore.consume
approval_minted = refl

serve_http_once_example :
    (serve_http session_handler approval (serve_http session_handler approval backend).store).minted
    ≡ []
unfolding get
serve_http_once_example =
    serve_http_once session_handler (is_stored hash) (session_store-IsSingleUse hash) approval
      approval (form "approve" "n.digest") (form "approve" "n.digest") "n.digest" backend
      (serve_http session_handler approval backend).store minted [] (refl, refl, refl)
      approval_minted Requests.start (refl, refl, refl)

abbrev login : HttpRequest
login = request (form "login" "")

abbrev hmac_handler : Config HmacStore
hmac_handler = config (hmac_store codec)

abbrev after_login : HmacStore
after_login = (serve_http hmac_handler login new_store).store

abbrev hmac_approval : HttpRequest
hmac_approval = request (form "approve" (token_for codec issued_token))

hmac_approval_minted :
    (serve_http hmac_handler hmac_approval after_login).minted
    ≡ record minted { subject = subject_of codec "alice" } ∷ []
unfolding serve_http consume issue get params_digest has_char
hmac_approval_minted = refl

bars : (nonce : String) → drawn.random ≡ some nonce → has_char b'|' nonce ≡ false
unfolding has_char
bars nonce h = let is : "n" ≡ nonce = cc in rw (← is) refl

serve_http_genuine_example :
    Admitted codec codec-IsCodec hmac_handler
      (login ∷ [])
      (record minted { subject = subject_of codec "alice" })
    ⊎ Skipped codec codec-IsCodec hmac_handler hmac_approval
        (record minted { subject = subject_of codec "alice" })
serve_http_genuine_example =
    serve_http_genuine codec codec-IsCodec hmac_handler hmac_approval (login ∷ []) after_login
      (record minted { subject = subject_of codec "alice" }) [] (Runs.served login Runs.start bars)
      hmac_approval_minted

handle_approve-handle_login_example :
    (handle_approve hmac_handler hmac_approval
      (form "approve" (token_for codec issued_token))
      requester
      params
      (handle_login hmac_handler login (form "login" "") requester params new_store).store).minted
    ≡ record minted { subject = subject_of codec "alice" } ∷ []
unfolding has_char get
handle_approve-handle_login_example =
    handle_approve-handle_login codec hmac_handler codec-IsCodec login hmac_approval
      (form "login" "") (form "approve" (token_for codec issued_token)) requester params params
      (("code", "c" ∷ []) ∷ []) alice "n" "https://mcp.example.com/mcp" new_store refl refl refl
      refl refl refl refl refl refl refl refl (omega arith) (ground arith) refl refl refl
