-- ===== src/Mcpmw/Envelope/Errors.antt =====
-- What reaches the client for an error response of a handler behind the envelope.
use mcp_kit.Prelude.{
  ℕ, String, true, false, ◌&&◌, ◌||◌, ◌≡◌, ◌⊎◌, ◌≤◌, refl, inl, inr, arith, Option, none, some,
  List, [], ◌∷◌, ◌++◌, ltb, nat_eq, ◌==◌, eq_iff, if◌then◌else◌, Bool-cases, Option-cases,
}
use mcp_kit.Prelude.Int.{ℤ, negsuc}
use mcp_kit.Text.{trim_space, has_prefix, has_part}
use mcp_kit.Mcpmw.Envelope.{
  Call, set_header, del_header, write_header, write, Header, get, copy, streams, flush_buffer,
  on_write_header, on_call, should_rewrite, SdkError, map_sdk_error, Payload, extract_id, finish,
  envelope,
}
use mcp_kit.Mcpmw.Envelope.Writer.{
  Heading, headings, assigned, Piece, pieces, written, held, on_calls-pieces,
}
use mcp_kit.Mcpmw.Envelope.Laws.{on_calls_begun}

streams-false :
    (n : ℕ) (h : Header)
    → 400 ≤ n
    → has_prefix (get "Content-Type" h) "text/event-stream" ≡ false
    → streams n h ≡ false
unfolding streams
streams-false n h high e = let f : ltb n 400 ≡ false = ground arith in rw (f, e) refl

on_write_header-held :
    (n : ℕ) (h : Header) → streams n h ≡ false → on_write_header n (held 0 h "") ≡ held n h ""
unfolding on_write_header
on_write_header-held n h s = rw s refl

module _ (probe_id : String → Option String) (marshal : Payload → Option String)
    (body : String) where
  -- The response as the handler wrote it, in one piece.
  abbrev pub whole : Header → ℕ → String → List Call
  whole h n text = copy h ++ write_header n ∷ [] ++ (if text == "" then [] else write text ∷ [])

  -- A text of the SDK with the code and the message of its JSON-RPC error.
  abbrev pub Reports : String → ℤ → String → Type 0
  Reports text code message =
      ((has_prefix text "malformed payload:" ≡ true)
        × (code ≡ negsuc 32699)
        × (message ≡ "Parse error"))
      ⊎ ((has_prefix text "malformed payload:" ≡ false)
          × (((has_part text "JSON RPC not handled" ≡ true)
                × (code ≡ negsuc 32600)
                × (message ≡ "Method not found"))
              ⊎ ((has_part text "JSON RPC not handled" ≡ false)
                  × ((has_part text "missing required"
                        || has_part text "missing id"
                        || has_part text "unexpected id")
                      ≡ true)
                  × (code ≡ negsuc 32599)
                  × (message ≡ "Invalid request"))))

  -- A text that is no error of the SDK.
  abbrev pub IsOther : String → Type 0
  IsOther text =
      (has_prefix text "malformed payload:" ≡ false)
      × (has_part text "JSON RPC not handled" ≡ false)
      × ((has_part text "missing required"
            || has_part text "missing id"
            || has_part text "unexpected id")
          ≡ false)

  -- The identifier of the answer: that of the request, or null where it has none.
  abbrev pub Identifies : String → Type 0
  Identifies id =
      (((probe_id body ≡ none) ⊎ (probe_id body ≡ some "")) × (id ≡ "null"))
      ⊎ ((probe_id body ≡ some id) × ((id == "") ≡ false))

  -- The JSON-RPC answer to an error, with status 200, or that it cannot be marshalled.
  abbrev pub Rewrites : String → Option String → Type 0
  Rewrites text payload =
      (id : String) × (code : ℤ) × (message : String) × Identifies id
      × Reports text code message
      × (marshal (record {
        id = id;
        error = record { code = code; message = message };
        error_data = text;
      })
          ≡ payload)

  abbrev pub json : String → List Call
  json payload =
      del_header "Content-Type"
      ∷ del_header "Content-Length"
      ∷ del_header "X-Content-Type-Options"
      ∷ set_header "Content-Type" ("application/json" ∷ [])
      ∷ write_header 200
      ∷ write payload
      ∷ []

  -- What is sent for an error response.
  abbrev pub Answers : Header → ℕ → String → List Call → Type 0
  Answers h n text sent =
      ((sent ≡ whole h n text)
        × (((nat_eq n 400 && has_prefix (get "Content-Type" h) "text/plain") ≡ false)
            ⊎ (IsOther (trim_space text) ⊎ Rewrites (trim_space text) none)))
      ⊎ ((payload : String) × (n ≡ 400)
          × (has_prefix (get "Content-Type" h) "text/plain" ≡ true)
          × Rewrites (trim_space text) (some payload)
          × (sent ≡ json payload))

  map_sdk_error-cases :
      (text : String)
      → ((map_sdk_error text ≡ none) × IsOther text)
        ⊎ ((e : SdkError) × (map_sdk_error text ≡ some e) × Reports text e.code e.message)
  unfolding map_sdk_error
  map_sdk_error-cases text = elim (Bool-cases (has_prefix text "malformed payload:")) [
    | inl a ↦ inr (_, rw a refl, inl (a, refl, refl))
    | inr a ↦ elim (Bool-cases (has_part text "JSON RPC not handled")) [
      | inl b ↦ inr (_, rw (a, b) refl, inr (a, inl (b, refl, refl)))
      | inr b ↦
          elim (Bool-cases (
            has_part text "missing required"
            || has_part text "missing id"
            || has_part text "unexpected id")) [
              | inl c ↦ inr (_, rw (a, b, c) refl, inr (a, inr (b, c, refl, refl)))
              | inr c ↦ inl (rw (a, b, c) refl, (a, b, c))
            ]
    ]
  ]

  extract_id-Identifies : Identifies (extract_id probe_id marshal body)
  unfolding extract_id
  extract_id-Identifies = elim (Option-cases (probe_id body)) [
    | inl e ↦ rw e (inl (inl refl, refl))
    | inr (id, e) ↦ elim (Bool-cases (id == "")) [
      | inl f ↦
          let empty = (eq_iff id "").0 f in
          let null : extract_id probe_id marshal body ≡ "null" = rw (e, f) refl in
          inl (inr (rw (e, empty) refl), null)
      | inr f ↦
          let same : extract_id probe_id marshal body ≡ id = rw (e, f) refl in
          inr (rw same e, rw same f)
    ]
  ]

  finish-Answers :
      (h : Header) (n : ℕ) (text : String)
      → nat_eq n 0 ≡ false
      → Answers h n text (finish probe_id marshal body (held n h text))
  unfolding finish should_rewrite flush_buffer
  finish-Answers h n text z =
      elim (Bool-cases (nat_eq n 400 && has_prefix (get "Content-Type" h) "text/plain")) [
        | inr c ↦ inl (rw (c, z) refl, inl c)
        | inl c ↦ elim (map_sdk_error-cases (trim_space text)) [
          | inl (m, other) ↦ inl (rw (c, m, z) refl, inr (inl other))
          | inr (e, m, reports) ↦
              let id = extract_id probe_id marshal body in
              let p : Payload = record { id = id; error = e; error_data = trim_space text } in
              elim (Option-cases (marshal p)) [
                | inl k ↦ inl (
                  rw (c, m, k, z) refl,
                  inr (inr (id, e.code, e.message, extract_id-Identifies, reports, k)),
                )
                | inr (payload, k) ↦
                    let at_400 : n ≡ 400 = ground arith in
                    let plain : has_prefix (get "Content-Type" h) "text/plain" ≡ true =
                      ground arith in
                    inr (
                      payload,
                      at_400,
                      plain,
                      (id, e.code, e.message, extract_id-Identifies, reports, k),
                      rw (c, m, k) refl,
                    )
              ]
        ]
      ]

  -- A response with a status from 400 on that is no event stream reaches the client when the handler
  -- is done, its body in one piece, whatever it flushes and sets in between. If the status is 400,
  -- the type is plain text, the text is a protocol error of the SDK and the JSON-RPC error for it can
  -- be marshalled, the answer is that JSON-RPC error with status 200, under the identifier of the
  -- request, with the text as its data; in every other case it is the response as it was written.
  pub envelope_error :
      (hs : List Heading) (n : ℕ) (xs : List Piece)
      → 400 ≤ n
      → has_prefix (get "Content-Type" (assigned hs [])) "text/event-stream" ≡ false
      → Answers
          (assigned hs [])
          n
          (written "" xs)
          (envelope probe_id marshal "POST" (some body) (headings hs ++ write_header n ∷ pieces xs))
  unfolding envelope on_call
  envelope_error hs n xs high plain =
      let z : nat_eq n 0 ≡ false = ground arith in
      rw
        (
          on_calls_begun hs (write_header n) (pieces xs),
          on_write_header-held n (assigned hs []) (streams-false n (assigned hs []) high plain),
          on_calls-pieces xs n (assigned hs []) "" z,
        )
        (finish-Answers (assigned hs []) n (written "" xs) z)
