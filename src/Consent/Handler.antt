-- ===== src/Consent/Handler.antt =====
-- `Handler` of oauth/consent/handler.go, with validate.go, request.go and audit.go. The engine, the
-- hooks of the configuration and the parts of a request that Go's library reads are parameters. An
-- outcome keeps the reply, the approval tokens, the events, and what the engine made a response for.
pub mod Completion
pub mod Laws
pub mod Moves
pub mod Once
pub mod Genuine
pub mod Flow
use Prim.Native.String
use mcp_kit.Prelude.{
  ℕ, String, Bool, true, false, not, ◌||◌, Option, none, some, List, [], ◌∷◌, ◌++◌, ◌==◌,
  if◌then◌else◌,
}
use mcp_kit.Text.{join}
use mcp_kit.Audit.{Event}
use mcp_kit.Storage.Json.{Form, end}
use mcp_kit.Consent.Params.{get, clone_and_set, oauth_authorize_values, resources_from_values}
use mcp_kit.Consent.Page.{
  Page, page_login, page_consent, page_redirect_bridge, PageData, Url, Requester,
  client_name_from_requester, hidden_inputs, redirect_url_from_responder,
}
use mcp_kit.Consent.Store.{
  Subject, IssueInputs, ConsumeInputs, Consumed, approved, token_invalid, store_failed,
  ApprovalTokenStore,
}
use mcp_kit.Consent.Config.{
  Grants, Begun, begun, challenge_required, begin_failed, Denial, request_refused, invalid_mcp_host,
  access_denied, server_error, response_refused, Reply, http_error, page, authorize_error, found,
  authorize_response, ConsentMetadata, Minted, Outcome, HttpRequest, Config, client_ip, nobody,
  validate_resource_indicators,
}

module _ {S : Type 0} (cfg : Config S) (r : HttpRequest) where
  -- `buildAuthorizeRequest`, whose headers the engine does not depend on here.
  abbrev pub build_authorize_request : Form → Option Requester
  build_authorize_request params =
      cfg.new_authorize_request (
        String.◌++◌ cfg.public_url
          (String.◌++◌ cfg.form_path (String.◌++◌ "?" (cfg.encode params))))

  -- The event of `emitConsentEvent`.
  abbrev pub consent_event : String → Requester → Subject → String → Form → Event ConsentMetadata
  consent_event action requester subject decision params =
      let client_id : String = elim requester.client [ none ↦ "" | some c ↦ c.id ] in
      record {
        entity_type = "oauth_authorize";
        entity_id = client_id;
        action = action;
        actor_user_id = if subject.id == "" then none else cfg.parse_uuid subject.id;
        client_id = client_id;
        scope = join " " requester.requested_scopes;
        metadata = record {
          client_name = elim requester.client [
            | none ↦ ""
            | some c ↦ client_name_from_requester requester
          ];
          decision = decision;
          ip = client_ip r;
          user_agent = r.user_agent;
          resources = resources_from_values params;
        };
        timestamp = r.now;
      }

  abbrev pub plain : Reply → S → Outcome S
  plain reply s = record { reply = reply; store = s; emitted = []; minted = [] }

  abbrev pub render_login : Form → String → Reply
  render_login params msg = page page_login (record {
    authenticated = false;
    display_name = "";
    client_name = "your MCP client";
    scopes = [];
    resources = resources_from_values params;
    hidden_inputs = hidden_inputs params;
    form_action = cfg.form_path;
    error = msg;
    redirect_url = "";
  })

  abbrev pub render_login_with_challenge : Form → String → Reply
  render_login_with_challenge params challenge_id = page page_login (record {
    authenticated = false;
    display_name = "";
    client_name = "";
    scopes = [];
    resources = [];
    hidden_inputs = hidden_inputs (clone_and_set params "challenge_id" challenge_id);
    form_action = cfg.form_path;
    error = "additional verification required";
    redirect_url = "";
  })

  -- How the browser is sent back to the client.
  abbrev sent_back : Requester → Form → String → Reply
  sent_back requester parameters url =
      let shown : PageData = record {
        authenticated = true;
        display_name = "";
        client_name = client_name_from_requester requester;
        scopes = [];
        resources = [];
        hidden_inputs = [];
        form_action = "";
        error = "";
        redirect_url = url;
      } in
      if url == ""
      then authorize_response parameters
      else if cfg.writes shown
      then page page_redirect_bridge shown
      else found url

  abbrev responded : Requester → Form → Subject → Grants → S → Option Form → Outcome S
  responded requester params subject grants s none = plain (authorize_error response_refused) s
  responded requester params subject grants s (some parameters) =
      let all =
        if cfg.issuer == "" then parameters else cfg.add_parameter "iss" cfg.issuer parameters in
      record {
        reply = sent_back requester all (redirect_url_from_responder cfg.print requester all);
        store = s;
        emitted = consent_event "oauth.consent.approved" requester subject "approved" params ∷ [];
        minted = record { requester = requester; grants = grants; subject = subject } ∷ [];
      }

  abbrev granted : Requester → Form → Subject → S → Option String → Outcome S
  granted requester params subject s none = plain (authorize_error invalid_mcp_host) s
  granted requester params subject s (some resource) =
      let grants : Grants = record {
        scopes = requester.requested_scopes;
        audience = resource ∷ [];
      } in
      responded requester params subject grants s (cfg.respond requester grants subject)

  unfoldable pub complete_approve : Requester → Form → Subject → S → Outcome S
  complete_approve requester params subject s =
      if not (cfg.validate_scopes subject requester.requested_scopes)
      then plain (authorize_error access_denied) s
      else granted requester params subject s r.resource_url

  abbrev issued : Requester → Form → Subject → Option String × S → Outcome S
  issued requester params subject (none, s) = plain (authorize_error server_error) s
  issued requester params subject (some token, s) =
      let with_token = clone_and_set params "approval_token" token in
      plain
        (page page_consent (record {
          authenticated = true;
          display_name = subject.email;
          client_name = client_name_from_requester requester;
          scopes = requester.requested_scopes;
          resources = resources_from_values with_token;
          hidden_inputs = hidden_inputs with_token;
          form_action = cfg.form_path;
          error = "";
          redirect_url = "";
        }))
        s

  abbrev challenged : Requester → Form → Subject → S → Begun → Outcome S
  challenged requester params subject s begun =
      issued requester params subject (cfg.approval_store.issue r.issue_inputs subject params s)
  challenged requester params subject s (challenge_required id) =
      plain (render_login_with_challenge params id) s
  challenged requester params subject s begin_failed = plain (authorize_error server_error) s

  abbrev pub begin : Option (Subject → Begun) → Subject → Begun
  begin none subject = begun
  begin (some f) subject = f subject

  abbrev authenticated : Requester → Form → S → Option Subject → Outcome S
  authenticated requester params s none = plain (render_login params "invalid email or password") s
  authenticated requester params s (some subject) =
      if not (cfg.validate_scopes subject requester.requested_scopes)
      then plain (authorize_error access_denied) s
      else if cfg.allows_skip requester subject requester.requested_scopes
      then complete_approve requester params subject s
      else challenged requester params subject s (begin cfg.challenge subject)

  unfoldable pub handle_login : Form → Requester → Form → S → Outcome S
  unfolding complete_approve get
  handle_login form requester params s =
      if get "username" form == "" || get "password" form == ""
      then plain (render_login params "username and password are required") s
      else authenticated requester params s
          (cfg.authenticate (get "username" form) (get "password" form))

  abbrev consumed : Requester → Form → Consumed × S → Outcome S
  consumed requester params (approved subject, s) = complete_approve requester params subject s
  consumed requester params (token_invalid, s) =
      plain (render_login params "approval expired; sign in again") s
  consumed requester params (store_failed, s) =
      plain (render_login params "approval expired; sign in again") s

  unfoldable pub handle_approve : Form → Requester → Form → S → Outcome S
  unfolding complete_approve get
  handle_approve form requester params s =
      consumed requester params
        (cfg.approval_store.consume r.consume_inputs (get "approval_token" form) params s)

  unfoldable pub handle_deny : Form → Requester → Form → S → Outcome S
  unfolding get
  handle_deny form requester params s = record {
    reply = authorize_error access_denied;
    store = (cfg.approval_store.consume r.consume_inputs (get "approval_token" form) params s).1;
    emitted = consent_event "oauth.consent.denied" requester nobody "denied" params ∷ [];
    minted = [];
  }

  abbrev act : Form → Requester → Form → S → Outcome S
  act form requester params s =
      if get "action" form == "login"
      then handle_login form requester params s
      else if get "action" form == "approve"
      then handle_approve form requester params s
      else if get "action" form == "deny"
      then handle_deny form requester params s
      else plain (render_login params "unknown authorization action") s

  abbrev checked : Form → Requester → Form → S → Option Denial → Outcome S
  checked form requester params s none = act form requester params s
  checked form requester params s (some denial) = plain (authorize_error denial) s

  abbrev built : Form → Form → S → Option Requester → Outcome S
  built form params s none = plain (authorize_error request_refused) s
  built form params s (some requester) =
      checked form requester params s (validate_resource_indicators r.resource_url params)

  unfoldable pub handle_post : S → Option Form → Outcome S
  unfolding handle_login handle_approve handle_deny validate_resource_indicators
  handle_post s none = plain (http_error 400 "invalid form body") s
  handle_post s (some form) =
      let params = oauth_authorize_values form in
      built form params s (build_authorize_request params)

  unfoldable pub serve_http : S → Outcome S
  unfolding handle_post
  serve_http s =
      if r.method == "GET"
      then plain (render_login r.query "") s
      else if r.method == "POST"
      then handle_post s r.post_form
      else plain (http_error 405 "method not allowed") s
