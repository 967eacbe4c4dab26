-- ===== src/Consent/HmacStore/Contract.antt =====
-- The HMAC store keeps the contract of an approval token store.
use mcp_kit.Prelude.{
  ℕ, String, true, false, ◌≡◌, ◌≢◌, ◌⊎◌, inl, inr, refl, arith, Option, none, some, is_some, ◌==◌,
  eq_iff, eq_refl, Bool-cases,
}
use mcp_kit.Storage.Json.{Form}
use mcp_kit.Text.{split}
use mcp_kit.Consent.Store.{Subject, ConsumeInputs, Consumed, approved, token_invalid, IsSingleUse}
use mcp_kit.Prelude.Int.{ℤ, pos, ltb_ℤ}
use mcp_kit.Consent.Params.{params_digest}
use mcp_kit.Consent.HmacStore.{
  unix, subject_of, HmacStore, Codec, Parsed, parse_parts, write, issue, issue_with, token_of,
  consume, consume_decoded, consume_parsed, consume_until, consume_stored, hmac_store, is_issued,
}

-- A consumption refuses and leaves the store alone, or takes the token out, and then it refuses
-- unless the token was issued.
abbrev Outcome : String → HmacStore → Consumed × HmacStore → Type 0
Outcome token s r =
    ((r.0 ≡ token_invalid) × (r.1 ≡ s))
    ⊎ ((r.1 ≡ write token none s) × ((r.0 ≡ token_invalid) ⊎ (is_some (s.issued token) ≡ true)))

module _ (codec : Codec) (i : ConsumeInputs) (token : String) (params : Form) (s : HmacStore) where
  consume_stored-Outcome :
      (subject : Subject) (o : Option ℕ)
      → s.issued token ≡ o
      → Outcome token s (consume_stored codec i.second token subject s o)
  consume_stored-Outcome subject none h = inl (refl, refl)
  consume_stored-Outcome subject (some e) h = inr (refl, inr (rw h refl))

  consume_until-Outcome :
      (p : Parsed) (o : Option ℤ) → Outcome token s (consume_until codec i token params s p o)
  consume_until-Outcome p none = inl (refl, refl)
  consume_until-Outcome p (some e) = elim (Bool-cases (ltb_ℤ e (pos (unix i.first)))) [
    | inl late ↦ rw late (inr (refl, inl refl))
    | inr fresh ↦ elim (Bool-cases (p.digest == params_digest codec.hash params)) [
      | inl same ↦
          rw (fresh, same) (consume_stored-Outcome (subject_of codec p.id) (s.issued token) refl)
      | inr other ↦ rw (fresh, other) (inl (refl, refl))
    ]
  ]

  consume_parsed-Outcome :
      (o : Option Parsed) → Outcome token s (consume_parsed codec i token params s o)
  consume_parsed-Outcome none = inl (refl, refl)
  consume_parsed-Outcome (some p) = elim (Bool-cases (p.signature == codec.sign p.payload)) [
    | inl good ↦ rw good (consume_until-Outcome p (codec.parse_int p.expires_at))
    | inr bad ↦ rw bad (inl (refl, refl))
  ]

  consume_decoded-Outcome :
      (o : Option String) → Outcome token s (consume_decoded codec i token params s o)
  consume_decoded-Outcome none = inl (refl, refl)
  consume_decoded-Outcome (some text) = consume_parsed-Outcome (parse_parts (split b'|' text))

  consume-Outcome : Outcome token s (consume codec i token params s)
  unfolding consume
  consume-Outcome = elim (Bool-cases (token == "")) [
    | inl e ↦ rw e (inl (refl, refl))
    | inr e ↦ rw e (consume_decoded-Outcome (codec.decode token))
  ]

spent :
    (codec : Codec) (i : ConsumeInputs) (t : String) (p : Form) (s : HmacStore) (subject : Subject)
    → (r : Consumed × HmacStore) → r.0 ≡ approved subject
    → Outcome t s r
    → (is_some (s.issued t) ≡ true) × (is_some (r.1.issued t) ≡ false)
spent codec i t p s subject r h (inl (e, f)) = absurd (cc)
spent codec i t p s subject r h (inr (e, inl f)) = absurd (cc)
spent codec i t p s subject r h (inr (e, inr f)) = (f, rw (e, eq_refl t) refl)

kept :
    (t u : String) (s : HmacStore) (r : Consumed × HmacStore)
    → Outcome t s r
    → is_some (s.issued u) ≡ false
    → is_some (r.1.issued u) ≡ false
kept t u s r (inl (e, f)) h = rw f h
kept t u s r (inr (e, f)) h = rw e (ground (arith, eq_iff t u))

issue_with_kept :
    (codec : Codec) (random : Option String) (expires_at : ℕ) (subject : Subject) (p : Form)
    (s : HmacStore) (u : String)
    → is_some (s.issued u) ≡ false
    → (issue_with codec random expires_at subject p s).0 ≢ some u
    → is_some ((issue_with codec random expires_at subject p s).1.issued u) ≡ false
issue_with_kept codec none expires_at subject p s u h ne = h
issue_with_kept codec (some nonce) expires_at subject p s u h ne =
    ground (arith, eq_iff (token_of codec subject p expires_at nonce) u)

-- The HMAC store is a store whose outstanding tokens are those that it has issued and not yet
-- taken out: what is approved is among them before and not afterwards, consuming adds none, and
-- issuing only the token that it returns.
pub hmac_store-IsSingleUse : (codec : Codec) → IsSingleUse (hmac_store codec) (is_issued codec)
unfolding issue
hmac_store-IsSingleUse codec = record {
  consume_outstanding = λ i t p s subject h.
      spent codec i t p s subject (consume codec i t p s) h (consume-Outcome codec i t p s);
  consume_kept =
      λ i t u p s h. kept t u s (consume codec i t p s) (consume-Outcome codec i t p s) h;
  issue_kept = λ i subject p s u h ne. issue_with_kept codec i.random _ subject p s u h ne;
}

-- A token that is stored after a consumption was stored before it.
pub still_issued :
    (codec : Codec) (i : ConsumeInputs) (t u : String) (p : Form) (s : HmacStore) (e : ℕ)
    → (consume codec i t p s).1.issued u ≡ some e
    → s.issued u ≡ some e
still_issued codec i t u p s e h = elim (consume-Outcome codec i t p s) [
  | inl (_, same) ↦ rw same at h
  | inr (taken, _) ↦ elim (Bool-cases (t == u)) [
    | inl is ↦ absurd (cc (rw (taken, is) at h))
    | inr other ↦ rw (taken, other) at h
  ]
]
