-- ===== src/Consent/HmacStore/Genuine.antt =====
-- What an approved token says: that it was issued, to whom, for which parameters and until when.
use mcp_kit.Prelude.{
  ℕ, ◌+◌, ◌*◌, ◌≤◌, ◌<◌, String, true, false, ◌≡◌, ◌⊎◌, inl, inr, refl, sym, arith, none, some,
  List, [], ◌∷◌, In, lt→ltb, ltb, ◌==◌, eq_iff, eq_refl, Bool-cases, Option-cases,
}
use mcp_kit.Prelude.Int.{pos, ltb_ℤ}
use mcp_kit.Storage.Json.{Form}
use mcp_kit.Text.{has_char}
use mcp_kit.Consent.Params.{params_digest}
use mcp_kit.Consent.Store.{
  Subject, IssueInputs, ConsumeInputs, approved, token_invalid, approval_token_ttl,
}
use mcp_kit.Consent.HmacStore.Contract.{still_issued, hmac_store-IsSingleUse}
use mcp_kit.Consent.HmacStore.{
  HmacStore, Codec, new_store, unix, second, subject_of, write, issue, token_of, consume,
}
use mcp_kit.Consent.HmacStore.Tokens.{IsCodec, bar_refused, consume-plain, rest-eq-approved}

-- A token that the store has issued, by what it was made of.
pub record Issued : Type 0 where
  pub subject : Subject
  pub params : Form
  pub expires_at : ℕ
  pub nonce : String

-- The calls of a store that starts empty, with what it has issued. The random text is in base64,
-- which has no bar.
pub data Reach (codec : Codec) : List Issued → HmacStore → Type 0 where
  start : Reach codec [] new_store
  issued :
      {h : List Issued} {s : HmacStore} (i : IssueInputs) (subject : Subject) (params : Form)
      (nonce : String)
      → Reach codec h s
      → i.random ≡ some nonce
      → has_char b'|' nonce ≡ false
      → Reach codec
          (record {
            subject = subject;
            params = params;
            expires_at = unix (i.now + approval_token_ttl);
            nonce = nonce;
          }
            ∷ h)
          (issue codec i subject params s).1
  consumed :
      {h : List Issued} {s : HmacStore} (i : ConsumeInputs) (t : String) (q : Form)
      → Reach codec h s
      → Reach codec h (consume codec i t q s).1

module _ (codec : Codec) where
  abbrev pub token_for : Issued → String
  token_for x = token_of codec x.subject x.params x.expires_at x.nonce

  -- A stored token was issued, and is stored with its time.
  abbrev IsKnown : List Issued → String → ℕ → Type 0
  IsKnown h t e =
      (x : Issued) × In x h
      × (t ≡ token_for x)
      × (e ≡ x.expires_at * second)
      × (has_char b'|' x.nonce ≡ false)

  IsKnown-later :
      (x : Issued) (h : List Issued) (t : String) (e : ℕ) → IsKnown h t e → IsKnown (x ∷ h) t e
  IsKnown-later x h t e (y, i, same, at, bar) = (y, inr i, same, at, bar)

  issued_consume :
      (i : ConsumeInputs) (t u : String) (q : Form) (s : HmacStore) (e : ℕ)
      → (consume codec i t q s).1.issued u ≡ some e
      → s.issued u ≡ some e
  issued_consume i t u q s e h = still_issued codec i t u q s e h

  issued_issue :
      (i : IssueInputs) (subject : Subject) (params : Form) (nonce u : String) (s : HmacStore)
      (e : ℕ)
      → i.random ≡ some nonce
      → (issue codec i subject params s).1.issued u ≡ some e
      → ((u ≡ token_of codec subject params (unix (i.now + approval_token_ttl)) nonce)
          × (e ≡ unix (i.now + approval_token_ttl) * second))
        ⊎ (s.issued u ≡ some e)
  unfolding issue
  issued_issue i subject params nonce u s e r h =
      let t = token_of codec subject params (unix (i.now + approval_token_ttl)) nonce in
      elim (Bool-cases (t == u)) [
        | inl same ↦ inl (sym ((eq_iff t u).0 same), cc (rw (r, same) at h))
        | inr other ↦ inr (rw (r, other) at h)
      ]

  Reach-IsKnown :
      {h : List Issued} {s : HmacStore}
      → Reach codec h s
      → (t : String) (e : ℕ) → s.issued t ≡ some e
      → IsKnown h t e
  Reach-IsKnown start t e is = absurd (cc)
  Reach-IsKnown (issued i subject params nonce r random bar) t e is =
      elim (issued_issue i subject params nonce t _ e random is) [
        | inl (same, at) ↦ (_, inl refl, same, at, bar)
        | inr old ↦ IsKnown-later _ _ t e (Reach-IsKnown r t e old)
      ]
  Reach-IsKnown (consumed i u q r) t e is = Reach-IsKnown r t e (issued_consume i u t q _ e is)

module _ (codec : Codec) (is_codec : IsCodec codec) where
  consume-known :
      (i : ConsumeInputs) (x : Issued) (q : Form) (s : HmacStore) (to : Subject)
      → has_char b'|' x.nonce ≡ false
      → s.issued (token_for codec x) ≡ some (x.expires_at * second)
      → (consume codec i (token_for codec x) q s).0 ≡ approved to
      → (to ≡ subject_of codec x.subject.id)
        × (params_digest codec.hash q ≡ params_digest codec.hash x.params)
        × (i.second < x.expires_at * second)
  consume-known i x q s to bar held h = elim (Bool-cases (has_char b'|' x.subject.id)) [
    | inl b ↦ absurd (
        cc (
          rw (bar_refused codec is_codec x.subject x.params x.expires_at x.nonce bar i q s b) at h))
    | inr b ↦
        rest-eq-approved codec is_codec x.subject x.params x.expires_at x.nonce bar i q s to
          (x.expires_at * second) held
          (rw (consume-plain codec is_codec x.subject x.params x.expires_at x.nonce bar i q s b) at
            h)
  ]

  -- Whatever calls a store has had, a token that it approves is one that it has issued; the subject
  -- approved has the identifier for which the token was issued, the parameters that are presented
  -- have the digest of those for which it was issued, and the time of its expiry is not reached.
  pub consume_genuine :
      (h : List Issued) (s : HmacStore) (i : ConsumeInputs) (t : String) (q : Form) (to : Subject)
      → Reach codec h s
      → (consume codec i t q s).0 ≡ approved to
      → (x : Issued) × In x h
        × (t ≡ token_for codec x)
        × (to ≡ subject_of codec x.subject.id)
        × (params_digest codec.hash q ≡ params_digest codec.hash x.params)
        × (i.second < x.expires_at * second)
  consume_genuine h s i t q to r is =
      let there = ((hmac_store-IsSingleUse codec).consume_outstanding i t q s to is).0 in
      elim (Option-cases (s.issued t)) [
        | inl e ↦ absurd (cc (rw e at there))
        | inr (e, held) ↦
            let (x, among, same, at, bar) = Reach-IsKnown codec r t e held in
            let (who, what, when) =
              consume-known i x q s to bar (rw (← same, ← at) held) (rw (← same) is) in
            (x, among, same, who, what, when)
      ]

  -- A token that is issued to a subject without a bar in its identifier is approved for that subject
  -- when it comes back with parameters of the same digest before its expiry, and is then spent.
  pub consume-issue :
      (i : IssueInputs) (j : ConsumeInputs) (subject : Subject) (p q : Form) (nonce : String)
      (s : HmacStore)
      → i.random ≡ some nonce
      → has_char b'|' nonce ≡ false
      → has_char b'|' subject.id ≡ false
      → params_digest codec.hash q ≡ params_digest codec.hash p
      → j.first ≤ j.second
      → j.second < unix (i.now + approval_token_ttl) * second
      → let t = token_of codec subject p (unix (i.now + approval_token_ttl)) nonce in
        ((issue codec i subject p s).0 ≡ some t)
        × (consume codec j t q (issue codec i subject p s).1
            ≡ (approved (subject_of codec subject.id), write t none (issue codec i subject p s).1))
  unfolding issue
  consume-issue i j subject p q nonce s r bar plain same order early =
      let e = unix (i.now + approval_token_ttl) in
      let t = token_of codec subject p e nonce in
      let stored = write t (some (e * second)) s in
      let fresh : ltb_ℤ (pos e) (pos (unix j.first)) ≡ false = ground arith in
      let before : ltb j.second (e * second) ≡ true = lt→ltb j.second (e * second) early in
      (
        rw r refl,
        rw
            (
              r,
              consume-plain codec is_codec subject p e nonce bar j q stored plain,
              fresh,
              same,
              eq_refl (params_digest codec.hash p),
              eq_refl t,
              before,
            )
            refl,
      )

  -- A token that is issued to a subject with a bar in its identifier is never approved.
  pub consume-issue_bar :
      (i : IssueInputs) (j : ConsumeInputs) (subject : Subject) (p q : Form) (nonce t : String)
      (s r : HmacStore)
      → i.random ≡ some nonce
      → has_char b'|' nonce ≡ false
      → has_char b'|' subject.id ≡ true
      → (issue codec i subject p s).0 ≡ some t
      → consume codec j t q r ≡ (token_invalid, r)
  unfolding issue
  consume-issue_bar i j subject p q nonce t s r drawn bar in_id is =
      let e = unix (i.now + approval_token_ttl) in
      let same : token_of codec subject p e nonce ≡ t = cc (rw drawn at is) in
      rw (← same) (bar_refused codec is_codec subject p e nonce bar j q r in_id)
