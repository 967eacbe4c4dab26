-- ===== src/Consent/Store/Once.antt =====
-- No token is approved twice, whatever the store.
use mcp_kit.Prelude.{String, Bool, false, ◌≡◌, ◌≢◌, some}
use mcp_kit.Storage.Json.{Form}
use mcp_kit.Consent.Store.{
  Subject, IssueInputs, ConsumeInputs, approved, ApprovalTokenStore, IsSingleUse,
}

-- Calls of the store, none of which issues the token `t`.
pub data Steps {S : Type 0} (store : ApprovalTokenStore S) (t : String) (s : S) : S → Type 0 where
  done : Steps store t s s
  issued :
      {r : S} (i : IssueInputs) (subject : Subject) (p : Form)
      → Steps store t s r
      → (store.issue i subject p r).0 ≢ some t
      → Steps store t s (store.issue i subject p r).1
  consumed :
      {r : S} (i : ConsumeInputs) (u : String) (p : Form)
      → Steps store t s r
      → Steps store t s (store.consume i u p r).1

module _ {S : Type 0} (store : ApprovalTokenStore S) (outstanding : S → String → Bool)
    (once : IsSingleUse store outstanding) where
  Steps-spent :
      (t : String) {s r : S} → Steps store t s r → outstanding s t ≡ false → outstanding r t ≡ false
  Steps-spent t done h = h
  Steps-spent t (issued i subject p ss ne) h =
      once.issue_kept i subject p _ t (Steps-spent t ss h) ne
  Steps-spent t (consumed i u p ss) h = once.consume_kept i u t p _ (Steps-spent t ss h)

  -- Over a store that keeps the contract, after a token is approved, it is not approved again,
  -- whatever is issued and consumed in between, unless an issue returns the same token.
  pub consume_once :
      (i j : ConsumeInputs) (t : String) (p q : Form) (s r : S) (subject again : Subject)
      → (store.consume i t p s).0 ≡ approved subject
      → Steps store t (store.consume i t p s).1 r
      → (store.consume j t q r).0 ≢ approved again
  consume_once i j t p q s r subject again h ss twice =
      let spent = Steps-spent t ss (once.consume_outstanding i t p s subject h).1 in
      cc (spent, (once.consume_outstanding j t q r again twice).0)
