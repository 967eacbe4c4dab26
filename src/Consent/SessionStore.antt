-- ===== src/Consent/SessionStore.antt =====
-- oauth/consent/sessionstore: the store of approval tokens over the in-memory backend of
-- backend.go. The random key and the digest of an encoded form are inputs.
pub mod Laws
use Prim.Native.String
use mcp_kit.Prelude.{
  ℕ, ◌+◌, String, Bool, true, false, not, ◌&&◌, ◌||◌, Option, none, some, List, ltb, ◌==◌,
  if◌then◌else◌,
}
use mcp_kit.Text.{Pieces, cut}
use mcp_kit.Storage.Json.{Form, Fields}
use mcp_kit.Consent.Params.{params_digest}
use mcp_kit.Consent.Store.{
  Subject, IssueInputs, ConsumeInputs, Consumed, approved, token_invalid, ApprovalTokenStore,
  approval_token_ttl,
}

pub record Entry : Type 0 where
  pub subject_id : String
  pub subject_email : String
  pub subject_extra : Fields
  pub params : Form
  pub expires_at : ℕ

-- `memoryItem`
pub record MemoryItem : Type 0 where
  pub entry : Entry
  pub expires_at : ℕ

-- `items`, as the function that looks a key up.
pub record MemoryBackend : Type 0 where
  pub items : String → Option MemoryItem

abbrev pub new_memory_backend : MemoryBackend
new_memory_backend = record { items = λ _. none }

abbrev pub write : String → Option MemoryItem → MemoryBackend → MemoryBackend
write key v b = record b { items = λ k. if key == k then v else b.items k }

-- `Put`, at an instant.
unfoldable pub put : ℕ → String → Entry → ℕ → MemoryBackend → MemoryBackend
put now key entry ttl b = write key (some (record { entry = entry; expires_at = now + ttl })) b

abbrev pulled : ℕ → String → MemoryBackend → Option MemoryItem → Option Entry × MemoryBackend
pulled now key b none = (none, b)
pulled now key b (some item) =
    (if ltb item.expires_at now then none else some item.entry, write key none b)

-- `Pull`, at an instant; `ErrNotFound` is `none`.
unfoldable pub pull : ℕ → String → MemoryBackend → Option Entry × MemoryBackend
pull now key b = pulled now key b (b.items key)

module _ (hash : Form → String) where
  abbrev pub entry_of : ℕ → Subject → Form → Entry
  entry_of now subject params = record {
    subject_id = subject.id;
    subject_email = subject.email;
    subject_extra = subject.extra;
    params = params;
    expires_at = now + approval_token_ttl;
  }

  abbrev pub token_of : String → Form → String
  token_of key params = String.◌++◌ key (String.◌++◌ "." (params_digest hash params))

  abbrev pub issue_with :
      Option String → IssueInputs → Subject → Form → MemoryBackend → Option String × MemoryBackend
  issue_with none i subject params b = (none, b)
  issue_with (some key) i subject params b = (
    some (token_of key params),
    put i.stored_at key (entry_of i.now subject params) approval_token_ttl b,
  )

  unfoldable pub issue :
      IssueInputs → Subject → Form → MemoryBackend → Option String × MemoryBackend
  unfolding put params_digest
  issue i subject params b = issue_with i.random i subject params b

  abbrev pub subject_of : Entry → Subject
  subject_of e = record {
    id = e.subject_id;
    email = e.subject_email;
    granted_scopes = List.[];
    extra = e.subject_extra;
  }

  -- The checks of an entry that was pulled.
  abbrev pub consume_entry : ℕ → String → Option Entry → Consumed
  consume_entry now digest none = token_invalid
  consume_entry now digest (some e) =
      if ltb e.expires_at now
      then token_invalid
      else if not (params_digest hash e.params == digest)
      then token_invalid
      else approved (subject_of e)

  abbrev pub consume_pulled : ℕ → String → Option Entry × MemoryBackend → Consumed × MemoryBackend
  consume_pulled now digest (e, b) = (consume_entry now digest e, b)

  abbrev pub consume_cut : ConsumeInputs → Pieces → Form → MemoryBackend → Consumed × MemoryBackend
  consume_cut i p params b =
      if not p.cut || p.before == "" || p.behind == ""
      then (token_invalid, b)
      else if not (p.behind == params_digest hash params)
      then (token_invalid, b)
      else consume_pulled i.second p.behind (pull i.first p.before b)

  unfoldable pub consume : ConsumeInputs → String → Form → MemoryBackend → Consumed × MemoryBackend
  unfolding cut pull params_digest
  consume i token params b = consume_cut i (cut b'.' token) params b

  abbrev pub session_store : ApprovalTokenStore MemoryBackend
  session_store = record { issue = issue; consume = consume }

  -- Whether an entry is that of a token with a digest.
  abbrev pub is_of : String → Option MemoryItem → Bool
  is_of digest none = false
  is_of digest (some item) = params_digest hash item.entry.params == digest

  -- The tokens that are stored: those whose key is, with their digest.
  abbrev pub is_stored : MemoryBackend → String → Bool
  is_stored b t = (cut b'.' t).cut && is_of (cut b'.' t).behind (b.items (cut b'.' t).before)
