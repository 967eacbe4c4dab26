-- ===== src/Cimd/Tests.antt =====
-- Runs of the resolution of clients, and the theorems at concrete inputs.
use mcp_kit.Prelude.{
  ◌≤◌, String, true, false, ◌≡◌, refl, Option, none, some, List, [], ◌∷◌, All, length, contains,
  ◌==◌, if◌then◌else◌,
}
use mcp_kit.Text.{fields, trim_space, utf8, is_space}
use mcp_kit.Prelude.Int.{pos}
use mcp_kit.Storage.Types.{Client}
use mcp_kit.Storage.Memory.{new_memory_store, memory_store}
use mcp_kit.Storage.Memory
use mcp_kit.Storage.Adapter.{answer, get_client}
use mcp_kit.Register.Uris.{Url, validate_redirect_uri, validate_logo_uri}
use mcp_kit.Register.Scopes.{normalize_scopes_with_default}
use mcp_kit.Cimd.Url.{MetadataUrl, IsDocumentUrl}
use mcp_kit.Cimd.Document.{
  ClientMetadataDocument, ClientMetadataPolicy, got, client_of, client_from_document,
}
use mcp_kit.Cimd.Document.Policy.{IsWithin, client_from_document-IsWithin}
use mcp_kit.Cimd.Cache.{Cache, StoreInputs, store}
use mcp_kit.Cimd.Fetcher.{
  ClientIdMetadataFetcher, Inputs, Libraries, response, resolve_client, to_resolution,
}
use mcp_kit.Cimd.Fetcher.Laws.{
  Reach, start, stored, Reach-le, resolve_client-eq-got, get_client-resolve_client,
}
use mcp_kit.Cimd.Dial.{
  client_metadata_target_allowed, Ip, connected, dial_context, dial_context-Answers, IsTarget,
  first_target,
}

abbrev id : String
id = "https://app.example.com/client.json"

abbrev redirect : String
redirect = "https://app.example.com/cb"

abbrev address : MetadataUrl
address = record {
  scheme = "https";
  host = "app.example.com";
  hostname = "app.example.com";
  path = "/client.json";
  fragment = "";
  has_user = false;
}

abbrev parse_metadata : String → Option MetadataUrl
parse_metadata s = if s == id then some address else none

abbrev parse : String → Option Url
parse s =
    if s == redirect
    then some
        (record { scheme = "https"; hostname = "app.example.com"; fragment = ""; has_user = false })
    else none

abbrev document : ClientMetadataDocument
document = record {
  client_id = id;
  client_name = "App";
  redirect_uris = redirect ∷ [];
  grant_types = [];
  response_types = [];
  token_endpoint_auth_method = "";
  scope = "mcp.read";
  application_type = "";
  logo_uri = "";
}

abbrev policy : ClientMetadataPolicy
policy = record {
  audience = "https://mcp.example.com/mcp";
  allowed_scopes = "mcp.read" ∷ [];
  default_scopes = [];
}

abbrev app : Client
app = client_of parse policy id document ("mcp.read" ∷ [])

described : client_from_document parse policy id document ≡ got app
unfolding client_from_document fields is_space trim_space utf8 contains validate_redirect_uri
    validate_logo_uri normalize_scopes_with_default
described = refl

client_from_document-IsWithin_example : (document.client_id ≡ id) × IsWithin parse policy id app
client_from_document-IsWithin_example =
    client_from_document-IsWithin parse policy id document app described

abbrev libraries : Libraries
libraries = record {
  parse = parse;
  parse_metadata = parse_metadata;
  parsers = record {
    to_lower = λ s. s;
    parse_duration = λ s. some (pos 60);
    parse_time = λ s. none;
  };
}

abbrev fetcher : ClientIdMetadataFetcher
fetcher = record { allow_loopback = false; cache_ttl = 300; policy = policy }

abbrev store_inputs : StoreInputs
store_inputs = record { evicted_at = 10; stored_at = 10; first = 0 }

abbrev cache : Cache
cache = store store_inputs id app 60 []

reached : Reach libraries fetcher cache
reached = stored store_inputs id document app 60 start described

Reach-le_example : length cache ≤ 256
Reach-le_example = Reach-le libraries fetcher cache reached

abbrev inputs : Inputs
inputs = record {
  looked_at = 5;
  response = response 200 (record { cache_control = ""; expires = "" }) (some document);
  fetched_at = 6;
  store_inputs = store_inputs;
}

resolved_to : (resolve_client libraries fetcher inputs id []).0 ≡ some (got app)
unfolding resolve_client client_from_document fields is_space trim_space utf8 contains
    validate_redirect_uri validate_logo_uri normalize_scopes_with_default
resolved_to = refl

resolve_client-eq-got_example :
    IsWithin parse policy id app
    × ((u : MetadataUrl) × (parse_metadata id ≡ some u) × IsDocumentUrl false u)
resolve_client-eq-got_example =
    resolve_client-eq-got libraries fetcher inputs id [] app start resolved_to

answered :
    get_client memory_store
      (some (λ x. to_resolution (resolve_client libraries fetcher inputs x []).0))
      id
      new_memory_store
    ≡ answer app
unfolding get_client resolve_client Memory.get_client client_from_document fields is_space
    trim_space utf8 contains validate_redirect_uri validate_logo_uri normalize_scopes_with_default
answered = refl

get_client-resolve_client_example : IsWithin parse policy id app
unfolding Memory.get_client
get_client-resolve_client_example =
    get_client-resolve_client libraries fetcher memory_store inputs id [] new_memory_store app start
      refl answered

abbrev public_ip : Ip
public_ip = record {
  text = "203.0.113.7";
  is_loopback = false;
  is_private = false;
  is_link_local_unicast = false;
  is_link_local_multicast = false;
  is_interface_local_multicast = false;
  is_multicast = false;
  is_unspecified = false;
}

abbrev loopback_ip : Ip
loopback_ip = record public_ip { text = "127.0.0.1"; is_loopback = true }

abbrev lookup : String → Option (List Ip)
lookup host = some (loopback_ip ∷ public_ip ∷ [])

dial_context-Answers_example :
    ((dial_context false (λ ip. true) lookup (some "app.example.com")).0 ≡ connected public_ip)
    × All
        (IsTarget false (λ ip. true))
        (dial_context false (λ ip. true) lookup (some "app.example.com")).1
unfolding first_target client_metadata_target_allowed
dial_context-Answers_example =
    dial_context-Answers false (λ ip. true) lookup (some "app.example.com")
