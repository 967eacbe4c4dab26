-- ===== src/Consent/Config.antt =====
-- What the consent handler works on: the requests, the replies and the configuration of
-- oauth/consent/config.go, and the checks of validate.go.
use mcp_kit.Prelude.{ℕ, String, Bool, Option, none, some, List, [], ◌∷◌, ◌==◌, if◌then◌else◌}
use mcp_kit.Audit.{Event}
use mcp_kit.Storage.Json.{Form, end}
use mcp_kit.Consent.Params.{resources_from_values}
use mcp_kit.Consent.Page.{Page, PageData, Url, Requester}
use mcp_kit.Consent.Store.{Subject, IssueInputs, ConsumeInputs, ApprovalTokenStore}

-- What is granted to a requester before the engine makes its response.
pub record Grants : Type 0 where
  pub scopes : List String
  pub audience : List String

-- What `ChallengeProvider.Begin` returns.
pub data Begun : Type 0 where
  begun : Begun
  challenge_required : String → Begun
  begin_failed : Begun

-- The errors that a reply carries to the client or its page.
pub data Denial : Type 0 where
  request_refused invalid_mcp_host resource_mismatch access_denied server_error : Denial
  response_refused : Denial

pub data Reply : Type 0 where
  http_error : ℕ → String → Reply
  page : Page → PageData → Reply
  authorize_error : Denial → Reply
  found : String → Reply
  -- `WriteAuthorizeResponse` of the engine, with the parameters of its response.
  authorize_response : Form → Reply

-- The metadata of a consent event.
pub record ConsentMetadata : Type 0 where
  pub client_name : String
  pub decision : String
  pub ip : String
  pub user_agent : String
  pub resources : List String

-- A response that the engine makes for a requester, what it is granted, and a subject.
pub record Minted : Type 0 where
  pub requester : Requester
  pub grants : Grants
  pub subject : Subject

pub record Outcome (S : Type 0) : Type 0 where
  pub reply : Reply
  pub store : S
  pub emitted : List (Event ConsentMetadata)
  pub minted : List Minted

-- What the handler reads of a request. `post_form` is `none` where the form is not parsed, too
-- large a body included; `resource_url` is what the configured function yields for the request,
-- and `host` what `net.SplitHostPort` does for `remote_addr`.
pub record HttpRequest : Type 0 where
  pub method : String
  pub query : Form
  pub post_form : Option Form
  pub resource_url : Option String
  pub remote_addr : String
  pub host : Option String
  pub user_agent : String
  pub now : ℕ
  pub issue_inputs : IssueInputs
  pub consume_inputs : ConsumeInputs

-- The configuration with its hooks. `new_authorize_request` takes the address that the handler puts
-- together, `respond` yields the parameters of a response, and `writes` says whether the renderer
-- writes something for the page that leads back to the client.
pub record Config (S : Type 0) : Type 0 where
  pub public_url : String
  pub form_path : String
  pub issuer : String
  pub approval_store : ApprovalTokenStore S
  pub authenticate : String → String → Option Subject
  pub validate_scopes : Subject → List String → Bool
  pub allows_skip : Requester → Subject → List String → Bool
  pub challenge : Option (Subject → Begun)
  pub encode : Form → String
  pub new_authorize_request : String → Option Requester
  pub respond : Requester → Grants → Subject → Option Form
  pub add_parameter : String → String → Form → Form
  pub print : Url → String
  pub writes : PageData → Bool
  pub parse_uuid : String → Option String

abbrev pub check_resources : Option String → List String → Option Denial
check_resources none resources = some invalid_mcp_host
check_resources (some expected) (r ∷ []) = if r == expected then none else some resource_mismatch
check_resources (some expected) _ = some resource_mismatch

abbrev pub check_indicators : Option String → List String → Option Denial
check_indicators expected [] = none
check_indicators expected (r ∷ rs) = check_resources expected (r ∷ rs)

-- `validateResourceIndicators`
unfoldable pub validate_resource_indicators : Option String → Form → Option Denial
unfolding resources_from_values
validate_resource_indicators expected params =
    check_indicators expected (resources_from_values params)

-- `clientIP`
abbrev pub client_ip : HttpRequest → String
client_ip r = elim r.host [ none ↦ r.remote_addr | some h ↦ h ]

-- `oauth.Subject{}`
abbrev pub nobody : Subject
nobody = record { id = ""; email = ""; granted_scopes = []; extra = end }
