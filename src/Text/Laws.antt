-- ===== src/Text/Laws.antt =====
-- Laws of the functions on texts.
use text.Mathlib.TextEquality.{Char-path}
use text.Mathlib.TextLemmas.{nil-append, cons-append}
use Prim.Native.Char.{Char, code}
use Prim.Native.String
use mcp_kit.Prelude.{
  List, [], ◌∷◌, ◌++◌, ℕ, nat_eq, true, false, String, ◌≡◌, refl, ap, arith, Bool-cases, inl, inr,
}
use mcp_kit.Text.{onto_first, split, has_char, cut, is_space, trim_left, trim_right, trim_space}

trim_right_idem : (s : String) → trim_right (trim_right s) ≡ trim_right s
unfolding trim_right
trim_right_idem String.[] = refl
trim_right_idem (String.◌∷◌ c s) = ground (arith, trim_right_idem s)

trim_left-trim_right-trim_left :
    (s : String) → trim_left (trim_right (trim_left s)) ≡ trim_right (trim_left s)
unfolding trim_left trim_right
trim_left-trim_right-trim_left String.[] = refl
trim_left-trim_right-trim_left (String.◌∷◌ c s) = elim (Bool-cases (is_space (code c))) [
  | inl e ↦ rw e (trim_left-trim_right-trim_left s)
  | inr e ↦ ground arith
]

-- A text that is trimmed stays as it is when it is trimmed again.
pub trim_space_idem : (s : String) → trim_space (trim_space s) ≡ trim_space s
unfolding trim_space
trim_space_idem s = rw (trim_left-trim_right-trim_left s, trim_right_idem (trim_left s))

-- A text in front of a bar, where the text has none, is the first part.
pub split_bar :
    (w s : String)
    → has_char b'|' w ≡ false
    → split b'|' (String.◌++◌ w (String.◌++◌ "|" s)) ≡ w ∷ split b'|' s
unfolding split has_char
split_bar String.[] s h =
    rw (nil-append (String.◌++◌ "|" s), cons-append "|" String.[] s, nil-append s) refl
split_bar (String.◌∷◌ c w) s h =
    rw (cons-append c w (String.◌++◌ "|" s), split_bar w s (ground arith)) (ground arith)

pub split_whole : (x : ℕ) (w : String) → has_char x w ≡ false → split x w ≡ w ∷ []
unfolding split has_char
split_whole x String.[] h = refl
split_whole x (String.◌∷◌ c w) h = rw (split_whole x w (ground arith)) (ground arith)

-- A text with a dot behind a part that has none is cut there.
pub cut_dot :
    (w s : String)
    → has_char b'.' w ≡ false
    → cut b'.' (String.◌++◌ w (String.◌++◌ "." s)) ≡ record { before = w; behind = s; cut = true }
unfolding cut has_char
cut_dot String.[] s h =
    rw (nil-append (String.◌++◌ "." s), cons-append "." String.[] s, nil-append s) refl
cut_dot (String.◌∷◌ c w) s h =
    rw (cons-append c w (String.◌++◌ "." s), cut_dot w s (ground arith)) (ground arith)

dot_of : (c : Char) → nat_eq (code c) b'.' ≡ true → c ≡ "."
dot_of c h = Char-path c "." (ground arith)

-- What is cut at a dot is put together again with one.
pub cut_dot-eq :
    (s : String)
    → (cut b'.' s).cut ≡ true
    → s ≡ String.◌++◌ (cut b'.' s).before (String.◌++◌ "." (cut b'.' s).behind)
unfolding cut
cut_dot-eq String.[] h = absurd (cc)
cut_dot-eq (String.◌∷◌ c s) h = elim (Bool-cases (nat_eq (code c) b'.')) [
  | inl e ↦
      rw (e, dot_of c e, nil-append (String.◌++◌ "." s), cons-append "." String.[] s, nil-append s)
        refl
  | inr e ↦
      let rest = cut_dot-eq s (rw e at h) in
      rw (e, cons-append c (cut b'.' s).before (String.◌++◌ "." (cut b'.' s).behind))
        (ap (String.◌∷◌ c) rest)
]

-- The parts of a text, of which there is one at least.
pub split-cons : (x : ℕ) (w : String) → (p : String) × ((ps : List String) × (split x w ≡ p ∷ ps))
unfolding split
split-cons x String.[] = (String.[], ([], refl))
split-cons x (String.◌∷◌ c w) =
    let (p, (ps, e)) = split-cons x w in
    elim (Bool-cases (nat_eq (code c) x)) [
      | inl bar ↦ (String.[], (split x w, rw bar refl))
      | inr other ↦ (String.◌∷◌ c p, (ps, rw (other, e) refl))
    ]

onto_first-append :
    (c : Char) (p : String) (ps ys : List String)
    → onto_first c ((p ∷ ps) ++ ys) ≡ onto_first c (p ∷ ps) ++ ys
onto_first-append c p ps ys = refl

-- The parts of two texts with a bar between them are those of the first and those of the second.
pub split-append_bar :
    (w s : String) → split b'|' (String.◌++◌ w (String.◌++◌ "|" s)) ≡ split b'|' w ++ split b'|' s
unfolding split
split-append_bar String.[] s =
    rw (nil-append (String.◌++◌ "|" s), cons-append "|" String.[] s, nil-append s) refl
split-append_bar (String.◌∷◌ c w) s =
    let (p, (ps, e)) = split-cons b'|' w in
    elim (Bool-cases (nat_eq (code c) b'|')) [
      | inl bar ↦ rw (cons-append c w (String.◌++◌ "|" s), split-append_bar w s, bar) refl
      | inr other ↦ rw (cons-append c w (String.◌++◌ "|" s), split-append_bar w s, other, e) refl
    ]

-- A text with a bar has two parts at least.
pub split_two :
    (w : String)
    → has_char b'|' w ≡ true
    → (p : String) × ((q : String) × ((ps : List String) × (split b'|' w ≡ p ∷ q ∷ ps)))
unfolding split has_char
split_two String.[] h = absurd (cc)
split_two (String.◌∷◌ c w) h = elim (Bool-cases (nat_eq (code c) b'|')) [
  | inl bar ↦ let (p, (ps, e)) = split-cons b'|' w in (String.[], (p, (ps, rw (bar, e) refl)))
  | inr other ↦
      let (p, (q, (ps, e))) = split_two w (ground arith) in
      (String.◌∷◌ c p, (q, (ps, rw (other, e) refl)))
]
