-- ===== src/Consent/Page.antt =====
-- What the consent pages show and where the client is sent: oauth/consent/page.go and redirect.go.
use mcp_kit.Prelude.{String, Bool, Option, none, some, List, [], ◌∷◌, ◌++◌, ◌==◌, if◌then◌else◌}
use mcp_kit.Text.{trim_space}
use mcp_kit.Storage.Json.{Form}
use mcp_kit.Consent.Params.{add_all}

pub data Page : Type 0 where
  page_login page_consent page_redirect_bridge : Page

pub record HiddenInput : Type 0 where
  pub name : String
  pub value : String

pub record PageData : Type 0 where
  pub authenticated : Bool
  pub display_name : String
  pub client_name : String
  pub scopes : List String
  pub resources : List String
  pub hidden_inputs : List HiddenInput
  pub form_action : String
  pub error : String
  pub redirect_url : String

-- An address that the engine has parsed: its query, and all else.
pub record Url : Type 0 where
  pub rest : String
  pub query : Form

-- What is read of the engine's client; `name` is `none` for a client without `GetName`.
pub record ClientView : Type 0 where
  pub id : String
  pub name : Option String

-- What is read of the engine's requester.
pub record Requester : Type 0 where
  pub client : Option ClientView
  pub requested_scopes : List String
  pub redirect_uri : Option Url

abbrev no_name : String
no_name = "your MCP client"

-- A text that is trimmed, or another where nothing is left.
abbrev trimmed_or : String → String → String
trimmed_or other s = if trim_space s == "" then other else trim_space s

abbrev client_name : Option ClientView → String
client_name none = no_name
client_name (some c) = elim c.name [
  | none ↦ trimmed_or no_name c.id
  | some n ↦ trimmed_or (trimmed_or no_name c.id) n
]

-- `ClientNameFromRequester`
unfoldable pub client_name_from_requester : Requester → String
unfolding trim_space
client_name_from_requester r = client_name r.client

abbrev inputs_of : String → List String → List HiddenInput
inputs_of name [] = []
inputs_of name (v ∷ vs) = record { name = name; value = v } ∷ inputs_of name vs

-- `HiddenInputs`
unfoldable pub hidden_inputs : Form → List HiddenInput
hidden_inputs [] = []
hidden_inputs ((k, vs) ∷ f) = inputs_of k vs ++ hidden_inputs f

abbrev pub delete_key : String → Form → Form
delete_key key [] = []
delete_key key ((k, vs) ∷ f) =
    let rest = delete_key key f in if k == key then rest else (k, vs) ∷ rest

-- The loop of `RedirectURLFromResponder`: each parameter replaces the key of the query.
unfoldable pub with_parameters : Form → Form → Form
with_parameters [] query = query
with_parameters ((k, vs) ∷ ps) query = with_parameters ps (add_all k vs (delete_key k query))

-- `RedirectURLFromResponder`; `print` puts an address together.
abbrev pub redirect_url_from_responder : (Url → String) → Requester → Form → String
redirect_url_from_responder print r parameters = elim r.redirect_uri [
  | none ↦ ""
  | some u ↦ print (record u { query = with_parameters parameters u.query })
]
