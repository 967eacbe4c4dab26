-- ===== src/Consent/Tests/Setup.antt =====
-- The subjects, the encodings and the requests that the runs use.
use text.Mathlib.TextLemmas.{cons-ne-nil}
use mcp_kit.Prelude.{
  ℕ, zero, suc, String, true, false, ◌≡◌, refl, ap, Option, none, some, [], ◌∷◌, ◌==◌,
  if◌then◌else◌,
}
use mcp_kit.Prelude.Int.{pos}
use mcp_kit.Text.{has_char}
use mcp_kit.Storage.Json.{Form, end}
use mcp_kit.Consent.Store.{Subject, IssueInputs, ConsumeInputs, ApprovalTokenStore}
use mcp_kit.Consent.Page.{Requester}
use mcp_kit.Consent.HmacStore.{Codec}
use mcp_kit.Consent.HmacStore.Tokens.{IsCodec}
use mcp_kit.Consent.Config.{Config, HttpRequest}

abbrev pub alice : Subject
alice = record { id = "alice"; email = "alice@example.com"; granted_scopes = []; extra = end }

-- A subject with a bar in its identifier.
abbrev pub piped : Subject
piped = record alice { id = "idp|alice" }

abbrev pub params : Form
params = ("client_id", "app" ∷ []) ∷ []

abbrev pub hash : Form → String
hash f = "digest"

abbrev unary : ℕ → String
unary zero = String.[]
unary (suc n) = String.◌∷◌ "i" (unary n)

abbrev count : String → ℕ
count String.[] = 0
count (String.◌∷◌ c s) = suc (count s)

abbrev strip : String → Option String
strip String.[] = none
strip (String.◌∷◌ c s) = some s

-- Encodings in place of base64, HMAC and decimal numbers.
abbrev pub codec : Codec
codec = record {
  encode = λ s. String.◌∷◌ "e" s;
  decode = strip;
  sign = λ s. "mac";
  format_int = unary;
  parse_int = λ s. some (pos (count s));
  hash = hash;
}

count-unary : (n : ℕ) → count (unary n) ≡ n
count-unary zero = refl
count-unary (suc n) = ap suc (count-unary n)

unary_bar : (n : ℕ) → has_char b'|' (unary n) ≡ false
unfolding has_char
unary_bar zero = refl
unary_bar (suc n) = rw (unary_bar n) refl

pub codec-IsCodec : IsCodec codec
unfolding has_char
codec-IsCodec = record {
  decode_encode = λ s. refl;
  encode_empty = λ s h. absurd (cons-ne-nil "e" s h);
  parse_format = λ n. rw (count-unary n) refl;
  sign_bar = λ s. refl;
  format_bar = unary_bar;
  hash_bar = λ f. refl;
}

-- An issue at the start of the clock, and a consumption before and after its expiry.
abbrev pub drawn : IssueInputs
drawn = record { random = some "n"; now = 0; stored_at = 0 }

abbrev pub early : ConsumeInputs
early = record { first = 5; second = 6 }

abbrev pub requester : Requester
requester = record {
  client = some (record { id = "app"; name = none });
  requested_scopes = "mcp.read" ∷ [];
  redirect_uri = some (record { rest = "https://app.example.com/cb"; query = [] });
}

abbrev pub form : String → String → Form
form action token =
    ("action", action ∷ [])
    ∷ ("username", "alice" ∷ [])
    ∷ ("password", "pw" ∷ [])
    ∷ ("approval_token", token ∷ [])
    ∷ params

abbrev pub request : Form → HttpRequest
request f = record {
  method = "POST";
  query = [];
  post_form = some f;
  resource_url = some "https://mcp.example.com/mcp";
  remote_addr = "192.0.2.1:4000";
  host = some "192.0.2.1";
  user_agent = "browser";
  now = 5;
  issue_inputs = drawn;
  consume_inputs = early;
}

-- A handler that knows one password, and whose engine accepts every request.
abbrev pub config : {S : Type 0} → ApprovalTokenStore S → Config S
config store = record {
  public_url = "https://mcp.example.com";
  form_path = "/oauth/authorize";
  issuer = "https://mcp.example.com";
  approval_store = store;
  authenticate = λ u p. if p == "pw" then some alice else none;
  validate_scopes = λ s scopes. true;
  allows_skip = λ r s scopes. false;
  challenge = none;
  encode = λ f. "client_id=app";
  new_authorize_request = λ u. some requester;
  respond = λ r g s. some (("code", "c" ∷ []) ∷ []);
  add_parameter = λ k v f. (k, v ∷ []) ∷ f;
  print = λ u. u.rest;
  writes = λ p. true;
  parse_uuid = λ s. none;
}
