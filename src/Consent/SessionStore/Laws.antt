-- ===== src/Consent/SessionStore/Laws.antt =====
-- The session store keeps the contract of an approval token store, and what it approves.
use mcp_kit.Prelude.{
  ◌+◌, ◌≤◌, String, true, false, not, ◌||◌, ◌≡◌, ◌≢◌, ◌⊎◌, inl, inr, refl, arith, Option, none,
  some, List, ltb, ◌==◌, eq_iff, eq_refl, Bool-cases,
}
use mcp_kit.Text.{Pieces, cut, has_char}
use mcp_kit.Text.Laws.{cut_dot, cut_dot-eq}
use mcp_kit.Storage.Json.{Form}
use mcp_kit.Consent.Params.{params_digest}
use mcp_kit.Consent.Store.{
  Subject, IssueInputs, ConsumeInputs, Consumed, approved, token_invalid, IsSingleUse,
  approval_token_ttl,
}
use mcp_kit.Consent.SessionStore.{
  MemoryItem, MemoryBackend, write, put, pull, token_of, issue, issue_with, subject_of, consume,
  consume_cut, session_store, is_stored,
}

module _ (hash : Form → String) where
  -- A consumption refuses and leaves the backend alone, or takes the key out, and then what it
  -- approves is the subject of the entry, whose parameters have the token's digest.
  abbrev Outcome : Pieces → Form → ConsumeInputs → MemoryBackend → Consumed × MemoryBackend → Type 0
  Outcome p params i b r =
      ((r.0 ≡ token_invalid) × (r.1 ≡ b))
      ⊎ ((r.1 ≡ write p.before none b)
          × ((r.0 ≡ token_invalid)
              ⊎ ((item : MemoryItem) × (b.items p.before ≡ some item)
                  × (p.cut ≡ true)
                  × (p.behind ≡ params_digest hash params)
                  × (params_digest hash item.entry.params ≡ p.behind)
                  × (i.second ≤ item.entry.expires_at)
                  × (i.first ≤ item.expires_at)
                  × (r.0 ≡ approved (subject_of hash item.entry)))))

  consume_item :
      (p : Pieces) (params : Form) (i : ConsumeInputs) (b : MemoryBackend) (o : Option MemoryItem)
      → b.items p.before ≡ o
      → Outcome p params i b (consume_cut hash i p params b)
  unfolding pull
  consume_item p params i b none held =
      elim (Bool-cases (not p.cut || p.before == "" || p.behind == "")) [
        | inl e ↦ rw e (inl (refl, refl))
        | inr e ↦ elim (Bool-cases (p.behind == params_digest hash params)) [
          | inr other ↦ rw (e, other) (inl (refl, refl))
          | inl same ↦ rw (e, same, held) (inl (refl, refl))
        ]
      ]
  consume_item p params i b (some item) held =
      elim (Bool-cases (not p.cut || p.before == "" || p.behind == "")) [
        | inl e ↦ rw e (inl (refl, refl))
        | inr e ↦ elim (Bool-cases (p.behind == params_digest hash params)) [
          | inr other ↦ rw (e, other) (inl (refl, refl))
          | inl same ↦ elim (Bool-cases (ltb item.expires_at i.first)) [
            | inl late ↦ rw (e, same, held, late) (inr (refl, inl refl))
            | inr in_time ↦ elim (Bool-cases (ltb item.entry.expires_at i.second)) [
              | inl late ↦ rw (e, same, held, in_time, late) (inr (refl, inl refl))
              | inr fresh ↦ elim (Bool-cases (params_digest hash item.entry.params == p.behind)) [
                | inr off ↦ rw (e, same, held, in_time, fresh, off) (inr (refl, inl refl))
                | inl on ↦
                    let is_cut : p.cut ≡ true = ground arith in
                    let given : p.behind ≡ params_digest hash params =
                      (eq_iff p.behind (params_digest hash params)).0 same in
                    let stored : params_digest hash item.entry.params ≡ p.behind =
                      (eq_iff (params_digest hash item.entry.params) p.behind).0 on in
                    rw (e, same, held, in_time, fresh, on)
                      (inr (
                        refl,
                        inr (item, refl, is_cut, given, stored, ground arith, ground arith, refl),
                      ))
              ]
            ]
          ]
        ]
      ]

  consume-Outcome :
      (i : ConsumeInputs) (t : String) (params : Form) (b : MemoryBackend)
      → Outcome (cut b'.' t) params i b (consume hash i t params b)
  unfolding consume
  consume-Outcome i t params b =
      consume_item (cut b'.' t) params i b (b.items (cut b'.' t).before) refl

  is_of_kept :
      (i : ConsumeInputs) (t u : String) (params : Form) (b : MemoryBackend)
      → is_stored hash b u ≡ false
      → is_stored hash (consume hash i t params b).1 u ≡ false
  is_of_kept i t u params b h = elim (consume-Outcome i t params b) [
    | inl (_, same) ↦ rw same h
    | inr (taken, _) ↦ elim (Bool-cases ((cut b'.' t).before == (cut b'.' u).before)) [
      | inl e ↦ rw (taken, e) (ground arith)
      | inr e ↦ rw (taken, e) h
    ]
  ]

  spent :
      (i : ConsumeInputs) (t : String) (params : Form) (b : MemoryBackend) (subject : Subject)
      → (consume hash i t params b).0 ≡ approved subject
      → (is_stored hash b t ≡ true) × (is_stored hash (consume hash i t params b).1 t ≡ false)
  spent i t params b subject h = elim (consume-Outcome i t params b) [
    | inl (e, _) ↦ absurd (cc)
    | inr (_, inl e) ↦ absurd (cc)
    | inr (taken, inr (item, held, is_cut, given, stored, _, _, is)) ↦ (
      rw (is_cut, held, stored, eq_refl (cut b'.' t).behind) refl,
      rw (taken, eq_refl (cut b'.' t).before) (ground arith),
    )
  ]

  issue_with_kept :
      (random : Option String) (i : IssueInputs) (subject : Subject) (p : Form) (b : MemoryBackend)
      (u : String)
      → is_stored hash b u ≡ false
      → (issue_with hash random i subject p b).0 ≢ some u
      → is_stored hash (issue_with hash random i subject p b).1 u ≡ false
  unfolding put
  issue_with_kept none i subject p b u h ne = h
  issue_with_kept (some key) i subject p b u h ne = elim (Bool-cases (key == (cut b'.' u).before)) [
    | inr e ↦ rw e h
    | inl e ↦ elim (Bool-cases (cut b'.' u).cut) [
      | inr plain ↦ rw plain refl
      | inl dotted ↦ elim (Bool-cases (params_digest hash p == (cut b'.' u).behind)) [
        | inr off ↦ rw (e, dotted, off) refl
        | inl on ↦
            let key_is = (eq_iff key (cut b'.' u).before).0 e in
            let digest_is = (eq_iff (params_digest hash p) (cut b'.' u).behind).0 on in
            let whole = cut_dot-eq u dotted in absurd (ne (rw (key_is, digest_is, ← whole) refl))
      ]
    ]
  ]

  -- The session store over the in-memory backend is a store whose outstanding tokens are those
  -- whose key is stored with parameters of the digest in the token: what is approved is among
  -- them before and not afterwards, consuming adds none, and issuing only the token that it
  -- returns.
  pub session_store-IsSingleUse : IsSingleUse (session_store hash) (is_stored hash)
  unfolding issue
  session_store-IsSingleUse = record {
    consume_outstanding = λ i t p b subject h. spent i t p b subject h;
    consume_kept = λ i t u p b h. is_of_kept i t u p b h;
    issue_kept = λ i subject p b u h ne. issue_with_kept i.random i subject p b u h ne;
  }

  -- A token that the session store issues under a key without a dot is approved for its subject,
  -- with the email and the extra claims, when it comes back with parameters of the same digest no
  -- later than its expiry, and its key is then gone from the backend.
  pub consume-issue_session :
      (i : IssueInputs) (j : ConsumeInputs) (subject : Subject) (p q : Form) (key : String)
      (b : MemoryBackend)
      → i.random ≡ some key
      → key ≢ ""
      → has_char b'.' key ≡ false
      → params_digest hash p ≢ ""
      → params_digest hash q ≡ params_digest hash p
      → j.first ≤ i.stored_at + approval_token_ttl
      → j.second ≤ i.now + approval_token_ttl
      → ((issue hash i subject p b).0 ≡ some (token_of hash key p))
        × ((consume hash j (token_of hash key p) q (issue hash i subject p b).1).0
            ≡ approved (record subject { granted_scopes = List.[] }))
        × ((consume hash j (token_of hash key p) q (issue hash i subject p b).1).1.items key ≡ none)
  unfolding issue consume put pull
  consume-issue_session i j subject p q key b r some_key dot some_digest same first second =
      let no_key : (key == "") ≡ false = ground (arith, eq_iff key "") in
      let no_digest : (params_digest hash p == "") ≡ false =
        ground (arith, eq_iff (params_digest hash p) "") in
      let stored : ltb (i.stored_at + approval_token_ttl) j.first ≡ false = ground arith in
      let fresh : ltb (i.now + approval_token_ttl) j.second ≡ false = ground arith in
      let is = cut_dot key (params_digest hash p) dot in
      (
        rw r refl,
        rw
            (
              r,
              is,
              no_key,
              no_digest,
              same,
              eq_refl (params_digest hash p),
              eq_refl key,
              stored,
              fresh,
            )
            (rw (eq_refl (params_digest hash p)) refl),
        rw (r, is, no_key, no_digest, same, eq_refl (params_digest hash p), eq_refl key)
            (rw (eq_refl key) refl),
      )

  -- What the session store approves is the subject of an entry that it held under the key of the
  -- token, and the parameters that are presented have the digest of those in the entry.
  pub consume-eq-approved :
      (i : ConsumeInputs) (t : String) (q : Form) (b : MemoryBackend) (to : Subject)
      → (consume hash i t q b).0 ≡ approved to
      → (item : MemoryItem) × (b.items (cut b'.' t).before ≡ some item)
        × (to ≡ subject_of hash item.entry)
        × (params_digest hash q ≡ params_digest hash item.entry.params)
        × (i.second ≤ item.entry.expires_at)
  consume-eq-approved i t q b to h = elim (consume-Outcome i t q b) [
    | inl (e, _) ↦ absurd (cc)
    | inr (_, inl e) ↦ absurd (cc)
    | inr (_, inr (item, held, _, given, stored, fresh, _, is)) ↦
        (item, held, cc (rw is at h), cc (given, stored), fresh)
  ]
