-- ===== src/Consent/HmacStore/Tokens.antt =====
-- How the HMAC store's own tokens are read back: the text of a token, and what a consumption of it
-- does.
use Prim.Native.String
use text.Mathlib.TextLemmas.{nil-append, cons-append, append_assoc, cons-ne-nil}
use mcp_kit.Prelude.{
  ℕ, ◌<◌, String, true, false, ◌≡◌, ◌≢◌, inl, inr, refl, sym, arith, none, some, List, [], ◌∷◌,
  ◌++◌, not, ltb→lt, ltb, ◌==◌, eq_iff, eq_refl, Bool-cases, if◌then◌else◌,
}
use mcp_kit.Prelude.Int.{pos, ltb_ℤ}
use mcp_kit.Storage.Json.{Form}
use mcp_kit.Text.{split, join, has_char}
use mcp_kit.Text.Laws.{split_whole, split-append_bar, split_two}
use mcp_kit.Consent.Params.{params_digest, oauth_authorize_values}
use mcp_kit.Consent.Store.{Subject, ConsumeInputs, Consumed, approved, token_invalid}
use mcp_kit.Consent.HmacStore.{
  HmacStore, Codec, parse_parts, unix, subject_of, write, payload_of, token_of, consume,
  consume_parsed, consume_stored,
}

-- What is documented of the encodings: base64 is read back, and is empty only for an empty text; a
-- decimal number is read back; neither such numbers nor signatures nor digests contain a bar.
pub record IsCodec (codec : Codec) : Type 0 where
  pub decode_encode : (s : String) → codec.decode (codec.encode s) ≡ some s
  pub encode_empty : (s : String) → codec.encode s ≡ "" → s ≡ ""
  pub parse_format : (n : ℕ) → codec.parse_int (codec.format_int n) ≡ some (pos n)
  pub sign_bar : (s : String) → has_char b'|' (codec.sign s) ≡ false
  pub format_bar : (n : ℕ) → has_char b'|' (codec.format_int n) ≡ false
  pub hash_bar : (f : Form) → has_char b'|' (codec.hash f) ≡ false

bar_ne : (w s : String) → String.◌++◌ w (String.◌++◌ "|" s) ≢ ""
bar_ne String.[] s h =
    cons-ne-nil "|" s
      (rw (nil-append (String.◌++◌ "|" s), cons-append "|" String.[] s, nil-append s) at h)
bar_ne (String.◌∷◌ c w) s h =
    cons-ne-nil c (String.◌++◌ w (String.◌++◌ "|" s))
      (rw (cons-append c w (String.◌++◌ "|" s)) at h)

-- Four parts behind two others are too many.
parse_parts_long :
    (a b : String) (r : List String) (w x y z : String)
    → parse_parts ((a ∷ b ∷ r) ++ w ∷ x ∷ y ∷ z ∷ []) ≡ none
parse_parts_long a b [] w x y z = refl
parse_parts_long a b (c ∷ []) w x y z = refl
parse_parts_long a b (c ∷ d ∷ []) w x y z = refl
parse_parts_long a b (c ∷ d ∷ e ∷ []) w x y z = refl
parse_parts_long a b (c ∷ d ∷ e ∷ f ∷ r) w x y z = refl

module _ (codec : Codec) (is_codec : IsCodec codec) (subject : Subject) (params : Form)
    (expires_at : ℕ) (nonce : String) (nonce_bar : has_char b'|' nonce ≡ false) where
  abbrev payload : String
  payload = payload_of codec subject params expires_at nonce

  -- The text that a token encodes.
  abbrev signed : String
  signed = String.◌++◌ payload (String.◌++◌ "|" (codec.sign payload))

  -- The parts behind the subject's identifier.
  abbrev tail : List String
  tail =
      codec.format_int expires_at
      ∷ params_digest codec.hash params
      ∷ nonce
      ∷ codec.sign payload
      ∷ []

  split-signed : split b'|' signed ≡ split b'|' subject.id ++ tail
  unfolding payload_of join params_digest
  split-signed = simp (
    append_assoc,
    split-append_bar,
    split_whole b'|' (codec.format_int expires_at) (is_codec.format_bar expires_at),
    split_whole b'|' (codec.hash (oauth_authorize_values params))
        (is_codec.hash_bar (oauth_authorize_values params)),
    split_whole b'|' nonce nonce_bar,
    split_whole b'|' (codec.sign payload) (is_codec.sign_bar payload),
  )

  -- How `Consume` reads a token whose subject has no bar in its identifier.
  parsed_is :
      has_char b'|' subject.id ≡ false
      → parse_parts (split b'|' signed)
        ≡ some (record {
          id = subject.id;
          expires_at = codec.format_int expires_at;
          digest = params_digest codec.hash params;
          payload = payload;
          signature = codec.sign payload;
        })
  unfolding payload_of
  parsed_is h = rw (split-signed, split_whole b'|' subject.id h) refl

  parsed_bar : has_char b'|' subject.id ≡ true → parse_parts (split b'|' signed) ≡ none
  parsed_bar h =
      let (a, (b, (r, e))) = split_two subject.id h in
      rw (split-signed, e)
        (parse_parts_long a b r (codec.format_int expires_at) (params_digest codec.hash params)
          nonce (codec.sign payload))

  abbrev token : String
  token = token_of codec subject params expires_at nonce

  token-ne : token ≢ ""
  unfolding token_of
  token-ne h = bar_ne payload (codec.sign payload) (is_codec.encode_empty signed h)

  -- What a consumption of the token does, whatever its subject.
  consume-token :
      (i : ConsumeInputs) (q : Form) (s : HmacStore)
      → consume codec i token q s
        ≡ consume_parsed codec i token q s (parse_parts (split b'|' signed))
  unfolding consume token_of
  consume-token i q s =
      let ne : (token == "") ≡ false = ground (arith, eq_iff token "", token-ne) in
      rw (ne, is_codec.decode_encode signed) refl

  -- A subject with a bar in its identifier never has a token approved, whatever is stored.
  pub bar_refused :
      (i : ConsumeInputs) (q : Form) (s : HmacStore)
      → has_char b'|' subject.id ≡ true
      → consume codec i token q s ≡ (token_invalid, s)
  bar_refused i q s h = rw (consume-token i q s, parsed_bar h) refl

  -- The rest of `Consume`, on a token that is read.
  abbrev pub rest : ConsumeInputs → Form → HmacStore → Consumed × HmacStore
  rest i q s =
      if ltb_ℤ (pos expires_at) (pos (unix i.first))
      then (token_invalid, write token none s)
      else if not (params_digest codec.hash params == params_digest codec.hash q)
      then (token_invalid, s)
      else consume_stored codec i.second token (subject_of codec subject.id) s (s.issued token)

  pub consume-plain :
      (i : ConsumeInputs) (q : Form) (s : HmacStore)
      → has_char b'|' subject.id ≡ false
      → consume codec i token q s ≡ rest i q s
  consume-plain i q s h =
      rw
        (
          consume-token i q s,
          parsed_is h,
          eq_refl (codec.sign payload),
          is_codec.parse_format expires_at,
        )
        refl

  -- What an approval establishes.
  pub rest-eq-approved :
      (i : ConsumeInputs) (q : Form) (s : HmacStore) (to : Subject) (e : ℕ)
      → s.issued token ≡ some e
      → (rest i q s).0 ≡ approved to
      → (to ≡ subject_of codec subject.id)
        × (params_digest codec.hash q ≡ params_digest codec.hash params)
        × (i.second < e)
  rest-eq-approved i q s to e held h =
      elim (Bool-cases (ltb_ℤ (pos expires_at) (pos (unix i.first)))) [
        | inl late ↦ absurd (cc (rw late at h))
        | inr fresh ↦
            elim (Bool-cases (params_digest codec.hash params == params_digest codec.hash q)) [
              | inr other ↦ absurd (cc (rw (fresh, other) at h))
              | inl same ↦ elim (Bool-cases (ltb i.second e)) [
                | inl before ↦
                    let is : approved (subject_of codec subject.id) ≡ approved to =
                      rw (fresh, same, held, before) at h in
                    (
                      cc,
                      sym (
                          (eq_iff (params_digest codec.hash params) (params_digest codec.hash q)).0
                            same),
                      ltb→lt i.second e before,
                    )
                | inr behind ↦ absurd (cc (rw (fresh, same, held, behind) at h))
              ]
            ]
      ]
