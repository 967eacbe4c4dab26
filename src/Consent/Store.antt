-- ===== src/Consent/Store.antt =====
-- The interface `ApprovalTokenStore` of oauth/consent/store.go, its contract, and what follows from
-- the contract for every store.
pub mod Once
use mcp_kit.Prelude.{
  ℕ, String, Bool, true, false, ◌≡◌, ◌≢◌, ◌⊎◌, Option, none, some, List, ◌==◌, if◌then◌else◌,
}
use mcp_kit.Storage.Json.{Form, Fields}

-- `oauth.Subject`
pub record Subject : Type 0 where
  pub id : String
  pub email : String
  pub granted_scopes : List String
  pub extra : Fields

-- The constant `approvalTokenTTL`, in nanoseconds.
abbrev pub approval_token_ttl : ℕ
approval_token_ttl = 300_000_000_000

-- What an issue draws and reads: the random text, `none` where it fails, and the clock, twice.
pub record IssueInputs : Type 0 where
  pub random : Option String
  pub now : ℕ
  pub stored_at : ℕ

-- The readings of the clock in a consumption.
pub record ConsumeInputs : Type 0 where
  pub first : ℕ
  pub second : ℕ

-- `ErrApprovalTokenInvalid`, or the failure of a store behind.
pub data Consumed : Type 0 where
  approved : Subject → Consumed
  token_invalid : Consumed
  store_failed : Consumed

-- A token that is issued is `some`.
pub record ApprovalTokenStore (S : Type 0) : Type 0 where
  pub issue : IssueInputs → Subject → Form → S → Option String × S
  pub consume : ConsumeInputs → String → Form → S → Consumed × S

-- The contract: what is approved was outstanding and is so no more, a consumption makes no token
-- outstanding, and an issue at most the one that it returns.
pub record IsSingleUse {S : Type 0} (store : ApprovalTokenStore S) (outstanding : S → String → Bool)
    : Type 0 where
  pub consume_outstanding :
      (i : ConsumeInputs) (t : String) (p : Form) (s : S) (subject : Subject)
      → (store.consume i t p s).0 ≡ approved subject
      → (outstanding s t ≡ true) × (outstanding (store.consume i t p s).1 t ≡ false)
  pub consume_kept :
      (i : ConsumeInputs) (t u : String) (p : Form) (s : S)
      → outstanding s u ≡ false
      → outstanding (store.consume i t p s).1 u ≡ false
  pub issue_kept :
      (i : IssueInputs) (subject : Subject) (p : Form) (s : S) (u : String)
      → outstanding s u ≡ false
      → (store.issue i subject p s).0 ≢ some u
      → outstanding (store.issue i subject p s).1 u ≡ false
