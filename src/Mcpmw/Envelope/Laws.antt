-- ===== src/Mcpmw/Envelope/Laws.antt =====
-- What reaches the client of a handler whose response is not held back.
use mathlib.Core.List.{append-nil, append_assoc}
use mcp_kit.Prelude.{
  ℕ, String, true, false, ◌≡◌, ◌≢◌, ◌⊎◌, ◌<◌, refl, inl, inr, arith, Option, some, List, [], ◌∷◌,
  ◌++◌, ltb, nat_eq, Bool-cases,
}
use mcp_kit.Text.{has_prefix}
use mcp_kit.Mcpmw.Envelope.{
  Call, write_header, write, Header, get, copy, new_writer, streams, flush_buffer, on_write_header,
  on_write, on_call, on_calls, should_rewrite, Payload, finish, envelope,
}
use mcp_kit.Mcpmw.Envelope.Writer.{
  Heading, headings, assigned, on_calls-append, held, passing, on_calls-passing, on_calls-headings,
}

pub on_calls_begun :
    (hs : List Heading) (call : Call) (rest : List Call)
    → on_calls (headings hs ++ call ∷ rest) new_writer
      ≡ on_calls rest (on_call call (held 0 (assigned hs []) ""))
unfolding on_calls
on_calls_begun hs call rest =
    rw (on_calls-append (headings hs) (call ∷ rest) new_writer, on_calls-headings hs []) refl

abbrev IsEventStream : Header → Type 0
IsEventStream h = has_prefix (get "Content-Type" h) "text/event-stream" ≡ true

streams-true : (n : ℕ) (h : Header) → (n < 400) ⊎ IsEventStream h → streams n h ≡ true
unfolding streams
streams-true n h (inl low) = let e : ltb n 400 ≡ true = ground arith in rw e refl
streams-true n h (inr e) = elim (Bool-cases (ltb n 400)) [
  | inl f ↦ rw f refl
  | inr f ↦ rw (f, e) refl
]

on_write_header-passing :
    (n : ℕ) (h : Header)
    → n ≢ 0
    → streams n h ≡ true
    → on_write_header n (held 0 h "") ≡ passing (copy h ++ write_header n ∷ []) n h
unfolding on_write_header flush_buffer
on_write_header-passing n h z s =
    let nz : nat_eq n 0 ≡ false = ground arith in
    rw (s, nz, append-nil (copy h ++ write_header n ∷ [])) refl

on_write-passing :
    (p : String) (h : Header)
    → on_write p (held 0 h "") ≡ passing ((copy h ++ write_header 200 ∷ []) ++ write p ∷ []) 200 h
unfolding on_write on_write_header flush_buffer streams
on_write-passing p h = rw (append-nil (copy h ++ write_header 200 ∷ [])) refl

module _ (probe_id : String → Option String) (marshal : Payload → Option String)
    (body : String) where
  -- What is sent where the status is set: the header and the status reach the client's writer, and
  -- then every further call of the handler.
  abbrev pub Passes : List Call → Header → ℕ → List Call → Type 0
  Passes sent h n rest = sent ≡ (copy h ++ write_header n ∷ []) ++ rest

  explicit_status :
      (hs : List Heading) (n : ℕ) (rest : List Call)
      → n ≢ 0
      → (n < 400) ⊎ IsEventStream (assigned hs [])
      → Passes
          (envelope probe_id marshal "POST" (some body) (headings hs ++ write_header n ∷ rest))
          (assigned hs [])
          n
          rest
  unfolding envelope finish should_rewrite flush_buffer on_call
  explicit_status hs n rest z s =
      rw
        (
          on_calls_begun hs (write_header n) rest,
          on_write_header-passing n (assigned hs []) z (streams-true n (assigned hs []) s),
          on_calls-passing rest (copy (assigned hs []) ++ write_header n ∷ []) n (assigned hs []),
        )
        refl

  implicit_status :
      (hs : List Heading) (p : String) (rest : List Call)
      → Passes
          (envelope probe_id marshal "POST" (some body) (headings hs ++ write p ∷ rest))
          (assigned hs [])
          200
          (write p ∷ rest)
  unfolding envelope finish should_rewrite flush_buffer on_call
  implicit_status hs p rest =
      let first = copy (assigned hs []) ++ write_header 200 ∷ [] in
      rw
        (
          on_calls_begun hs (write p) rest,
          on_write-passing p (assigned hs []),
          on_calls-passing rest (first ++ write p ∷ []) 200 (assigned hs []),
          append_assoc first (write p ∷ []) rest,
        )
        refl

  -- However the handler changes the header and flushes before it sets a status: if the status is
  -- below 400 or the type is that of an event stream, then header and status reach the client's
  -- writer at once, and then every further call of the handler, in its order; and if it writes
  -- without a status, then so do the header, status 200, the text and every further call. A flush
  -- before the status is dropped.
  pub envelope-streams :
      (hs : List Heading) (n : ℕ) (p : String) (rest : List Call)
      → n ≢ 0
      → (n < 400) ⊎ (has_prefix (get "Content-Type" (assigned hs [])) "text/event-stream" ≡ true)
      → Passes
          (envelope probe_id marshal "POST" (some body) (headings hs ++ write_header n ∷ rest))
          (assigned hs [])
          n
          rest
        × Passes
            (envelope probe_id marshal "POST" (some body) (headings hs ++ write p ∷ rest))
            (assigned hs [])
            200
            (write p ∷ rest)
  envelope-streams hs n p rest z s = (explicit_status hs n rest z s, implicit_status hs p rest)
