-- ===== src/Consent/HmacStore.antt =====
-- oauth/consent/hmacstore/store.go, of which default_store.go is a copy. Base64, HMAC and the
-- decimal numbers of `strconv` are parameters. `Unix` is the second that an instant lies in.
pub mod Contract
pub mod Tokens
pub mod Genuine
use Prim.Native.String
use mcp_kit.Prelude.{
  ℕ, ◌+◌, ◌*◌, ◌/◌, String, Bool, true, false, not, Option, none, some, List, [], ◌∷◌, ltb, is_some,
  ◌==◌, if◌then◌else◌,
}
use mcp_kit.Prelude.Int.{ℤ, pos, ltb_ℤ}
use mcp_kit.Text.{split, join}
use mcp_kit.Storage.Json.{Form, end}
use mcp_kit.Consent.Params.{params_digest}
use mcp_kit.Consent.Store.{
  Subject, IssueInputs, ConsumeInputs, Consumed, approved, token_invalid, ApprovalTokenStore,
  approval_token_ttl,
}

-- `issued`, as the function that looks a token up.
pub record HmacStore : Type 0 where
  pub issued : String → Option ℕ

abbrev pub new_store : HmacStore
new_store = record { issued = λ _. none }

abbrev pub second : ℕ
second = 1_000_000_000

-- `Time.Unix`
abbrev pub unix : ℕ → ℕ
unix t = t / second

abbrev pub write : String → Option ℕ → HmacStore → HmacStore
write token v s = record s { issued = λ t. if token == t then v else s.issued t }

-- The parts of a token that `Consume` reads.
pub record Parsed : Type 0 where
  pub id : String
  pub expires_at : String
  pub digest : String
  pub payload : String
  pub signature : String

abbrev pub parse_parts : List String → Option Parsed
parse_parts (a ∷ b ∷ c ∷ d ∷ []) = some (record {
  id = a;
  expires_at = b;
  digest = c;
  payload = join "|" (a ∷ b ∷ c ∷ []);
  signature = d;
})
parse_parts (a ∷ b ∷ c ∷ d ∷ e ∷ []) = some (record {
  id = a;
  expires_at = b;
  digest = c;
  payload = join "|" (a ∷ b ∷ c ∷ d ∷ []);
  signature = e;
})
parse_parts _ = none

-- The encodings that the store uses: base64, the HMAC under its key, decimal numbers, and the
-- digest of an encoded form.
pub record Codec : Type 0 where
  pub encode : String → String
  pub decode : String → Option String
  pub sign : String → String
  pub format_int : ℕ → String
  pub parse_int : String → Option ℤ
  pub hash : Form → String

module _ (codec : Codec) where
  unfoldable pub payload_of : Subject → Form → ℕ → String → String
  unfolding join params_digest
  payload_of subject params expires_at nonce =
      join "|"
        (subject.id ∷ codec.format_int expires_at ∷ params_digest codec.hash params ∷ nonce ∷ [])

  unfoldable pub token_of : Subject → Form → ℕ → String → String
  unfolding payload_of
  token_of subject params expires_at nonce =
      let payload = payload_of subject params expires_at nonce in
      codec.encode (String.◌++◌ payload (String.◌++◌ "|" (codec.sign payload)))

  abbrev issue_with : Option String → ℕ → Subject → Form → HmacStore → Option String × HmacStore
  issue_with none expires_at subject params s = (none, s)
  issue_with (some nonce) expires_at subject params s =
      let token = token_of subject params expires_at nonce in
      (some token, write token (some (expires_at * second)) s)

  unfoldable pub issue : IssueInputs → Subject → Form → HmacStore → Option String × HmacStore
  unfolding token_of
  issue i subject params s =
      issue_with i.random (unix (i.now + approval_token_ttl)) subject params s

  -- What remains of a token, and the subject where it was still stored.
  abbrev consume_stored : ℕ → String → Subject → HmacStore → Option ℕ → Consumed × HmacStore
  consume_stored now token subject s none = (token_invalid, s)
  consume_stored now token subject s (some expires_at) =
      (if ltb now expires_at then approved subject else token_invalid, write token none s)

  -- `oauth.Subject{ID: id}`
  abbrev pub subject_of : String → Subject
  subject_of id = record { id = id; email = ""; granted_scopes = []; extra = end }

  abbrev consume_until :
      ConsumeInputs → String → Form → HmacStore → Parsed → Option ℤ → Consumed × HmacStore
  consume_until i token params s p none = (token_invalid, s)
  consume_until i token params s p (some expires_at) =
      if ltb_ℤ expires_at (pos (unix i.first))
      then (token_invalid, write token none s)
      else if not (p.digest == params_digest codec.hash params)
      then (token_invalid, s)
      else consume_stored i.second token (subject_of p.id) s (s.issued token)

  abbrev consume_parsed :
      ConsumeInputs → String → Form → HmacStore → Option Parsed → Consumed × HmacStore
  consume_parsed i token params s none = (token_invalid, s)
  consume_parsed i token params s (some p) =
      if not (p.signature == codec.sign p.payload)
      then (token_invalid, s)
      else consume_until i token params s p (codec.parse_int p.expires_at)

  abbrev consume_decoded :
      ConsumeInputs → String → Form → HmacStore → Option String → Consumed × HmacStore
  consume_decoded i token params s none = (token_invalid, s)
  consume_decoded i token params s (some text) =
      consume_parsed i token params s (parse_parts (split b'|' text))

  unfoldable pub consume : ConsumeInputs → String → Form → HmacStore → Consumed × HmacStore
  unfolding split params_digest join
  consume i token params s =
      if token == ""
      then (token_invalid, s)
      else consume_decoded i token params s (codec.decode token)

  abbrev pub hmac_store : ApprovalTokenStore HmacStore
  hmac_store = record { issue = issue; consume = consume }

  abbrev pub is_issued : HmacStore → String → Bool
  is_issued s token = is_some (s.issued token)
