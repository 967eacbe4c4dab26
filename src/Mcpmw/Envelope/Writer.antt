-- ===== src/Mcpmw/Envelope/Writer.antt =====
-- How the buffer of the envelope takes calls.
use Prim.Native.String
use mathlib.Core.List.{append-nil, append_assoc}
use mcp_kit.Prelude.{ℕ, String, true, false, ◌≡◌, refl, ap, ◌∙◌, List, [], ◌∷◌, ◌++◌, nat_eq}
use mcp_kit.Mcpmw.Envelope.{
  Call, set_header, write_header, write, del_header, flush, Header, put, del,
  BufferedResponseWriter, on_write_header, on_write, on_call, on_calls,
}

-- What a handler does before a status: it changes the header, or flushes.
pub data Heading : Type 0 where
  sets : String → List String → Heading
  deletes : String → Heading
  flushes : Heading

abbrev pub heading_call : Heading → Call
heading_call (sets k vs) = set_header k vs
heading_call (deletes k) = del_header k
heading_call flushes = flush

abbrev pub headings : List Heading → List Call
headings [] = []
headings (x ∷ xs) = heading_call x ∷ headings xs

-- The header that this leaves.
abbrev pub assigned : List Heading → Header → Header
assigned [] h = h
assigned (sets k vs ∷ rest) h = assigned rest (put k vs h)
assigned (deletes k ∷ rest) h = assigned rest (del k h)
assigned (flushes ∷ rest) h = assigned rest h

-- What it does after the status of a response that is held back: it writes, flushes, or sets a
-- status again.
pub data Piece : Type 0 where
  adds : String → Piece
  flushes_again : Piece
  status_again : ℕ → Piece

abbrev pub piece_call : Piece → Call
piece_call (adds p) = write p
piece_call flushes_again = flush
piece_call (status_again n) = write_header n

abbrev pub pieces : List Piece → List Call
pieces [] = []
pieces (x ∷ xs) = piece_call x ∷ pieces xs

-- The text after the pieces of a list.
abbrev pub written : String → List Piece → String
written s [] = s
written s (adds p ∷ ps) = written (String.◌++◌ s p) ps
written s (flushes_again ∷ ps) = written s ps
written s (status_again n ∷ ps) = written s ps

pub on_calls-append :
    (xs ys : List Call) (b : BufferedResponseWriter)
    → on_calls (xs ++ ys) b ≡ on_calls ys (on_calls xs b)
unfolding on_calls
on_calls-append [] ys b = refl
on_calls-append (x ∷ xs) ys b = on_calls-append xs ys (on_call x b)

-- A buffer that holds a response back, and one that passes calls on.
abbrev pub held : ℕ → Header → String → BufferedResponseWriter
held n h text = record {
  underlying = [];
  header = h;
  status_code = n;
  body = text;
  passthrough = false;
}

abbrev pub passing : List Call → ℕ → Header → BufferedResponseWriter
passing calls n h = record {
  underlying = calls;
  header = h;
  status_code = n;
  body = "";
  passthrough = true;
}

on_call-passing :
    (call : Call) (sent : List Call) (n : ℕ) (h : Header)
    → on_call call (passing sent n h) ≡ passing (sent ++ call ∷ []) n h
unfolding on_call on_write on_write_header
on_call-passing (set_header k vs) sent n h = refl
on_call-passing (del_header k) sent n h = refl
on_call-passing (write_header m) sent n h = refl
on_call-passing (write p) sent n h = refl
on_call-passing flush sent n h = refl

-- Once calls pass, all that follow reach the writer, in their order.
pub on_calls-passing :
    (calls sent : List Call) (n : ℕ) (h : Header)
    → on_calls calls (passing sent n h) ≡ passing (sent ++ calls) n h
unfolding on_calls
on_calls-passing [] sent n h = rw (append-nil sent) refl
on_calls-passing (call ∷ calls) sent n h =
    rw
      (
        on_call-passing call sent n h,
        on_calls-passing calls (sent ++ call ∷ []) n h,
        append_assoc sent (call ∷ []) calls,
      )
      refl

pub on_calls-headings :
    (hs : List Heading) (h : Header)
    → on_calls (headings hs) (held 0 h "") ≡ held 0 (assigned hs h) ""
unfolding on_calls on_call
on_calls-headings [] h = refl
on_calls-headings (sets k vs ∷ hs) h = on_calls-headings hs (put k vs h)
on_calls-headings (deletes k ∷ hs) h = on_calls-headings hs (del k h)
on_calls-headings (flushes ∷ hs) h = on_calls-headings hs h

on_call-piece :
    (x : Piece) (n : ℕ) (h : Header) (s : String)
    → nat_eq n 0 ≡ false
    → on_call (piece_call x) (held n h s) ≡ held n h (written s (x ∷ []))
unfolding on_call on_write on_write_header
on_call-piece (adds p) n h s z = rw z refl
on_call-piece flushes_again n h s z = refl
on_call-piece (status_again m) n h s z = rw z refl

pub on_calls-pieces :
    (xs : List Piece) (n : ℕ) (h : Header) (s : String)
    → nat_eq n 0 ≡ false
    → on_calls (pieces xs) (held n h s) ≡ held n h (written s xs)
unfolding on_calls
on_calls-pieces [] n h s z = refl
on_calls-pieces (adds p ∷ xs) n h s z =
    ap (on_calls (pieces xs)) (on_call-piece (adds p) n h s z)
    ∙ on_calls-pieces xs n h (String.◌++◌ s p) z
on_calls-pieces (flushes_again ∷ xs) n h s z =
    ap (on_calls (pieces xs)) (on_call-piece flushes_again n h s z) ∙ on_calls-pieces xs n h s z
on_calls-pieces (status_again m ∷ xs) n h s z =
    ap (on_calls (pieces xs)) (on_call-piece (status_again m) n h s z) ∙ on_calls-pieces xs n h s z
