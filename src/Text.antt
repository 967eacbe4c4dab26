-- ===== src/Text.antt =====
-- The functions of Go's package `strings` that the kit calls, over texts as sequences of code
-- points. A text that is not valid UTF-8 is not a value here.
pub mod Laws
use Prim.Native.Char.{Char, code}
use Prim.Native.String
use mcp_kit.Prelude.{
  ℕ, suc, ◌+◌, ◌*◌, ◌/◌, ◌%◌, ◌-◌, String, Bool, true, false, ◌&&◌, ◌||◌, List, [], ◌∷◌, ◌++◌, leb,
  nat_eq, ltb, if◌then◌else◌,
}

abbrev pub is_empty : String → Bool
is_empty String.[] = true
is_empty (String.◌∷◌ c s) = false

-- `unicode.IsSpace`
unfoldable pub is_space : ℕ → Bool
is_space c =
    (leb 9 c && leb c 13)
    || nat_eq c 32
    || nat_eq c 0x85
    || nat_eq c 0xA0
    || nat_eq c 0x1680
    || (leb 0x2000 c && leb c 0x200A)
    || nat_eq c 0x2028
    || nat_eq c 0x2029
    || nat_eq c 0x202F
    || nat_eq c 0x205F
    || nat_eq c 0x3000

unfoldable pub trim_left : String → String
unfolding is_space
trim_left String.[] = String.[]
trim_left (String.◌∷◌ c s) =
    let rest = trim_left s in if is_space (code c) then rest else String.◌∷◌ c s

unfoldable pub trim_right : String → String
unfolding is_space
trim_right String.[] = String.[]
trim_right (String.◌∷◌ c s) =
    let rest = trim_right s in
    if is_empty rest && is_space (code c) then String.[] else String.◌∷◌ c rest

-- `strings.TrimSpace`
unfoldable pub trim_space : String → String
unfolding trim_left trim_right
trim_space s = trim_right (trim_left s)

pub record Pieces : Type 0 where
  pub before : String
  pub behind : String
  pub cut : Bool

abbrev behind_char : Char → Pieces → Pieces
behind_char c p = record p { before = String.◌∷◌ c p.before }

-- `strings.Cut` at a separator of one ASCII character.
unfoldable pub cut : ℕ → String → Pieces
cut sep String.[] = record { before = String.[]; behind = String.[]; cut = false }
cut sep (String.◌∷◌ c s) =
    let rest = cut sep s in
    if nat_eq (code c) sep
    then (record { before = String.[]; behind = s; cut = true })
    else behind_char c rest

abbrev lower : ℕ → ℕ
lower c = if leb 65 c && leb c 90 then c + 32 else c

-- `strings.EqualFold` with a text of ASCII letters among which are no k and no s: no character
-- beyond ASCII folds to another letter.
unfoldable pub equal_fold : String → String → Bool
equal_fold String.[] String.[] = true
equal_fold String.[] (String.◌∷◌ d t) = false
equal_fold (String.◌∷◌ c s) String.[] = false
equal_fold (String.◌∷◌ c s) (String.◌∷◌ d t) =
    nat_eq (lower (code c)) (lower (code d)) && equal_fold s t

-- The words of a text from its start, with the part of the first word that is already read.
unfoldable pub fields_from : String → String → List String
unfolding is_space
fields_from word String.[] = if is_empty word then [] else word ∷ []
fields_from word (String.◌∷◌ c s) =
    let longer = fields_from (String.◌++◌ word (String.◌∷◌ c String.[])) s in
    let next = fields_from String.[] s in
    if is_space (code c) then (if is_empty word then next else word ∷ next) else longer

-- `strings.Fields`
unfoldable pub fields : String → List String
unfolding fields_from
fields s = fields_from String.[] s

-- `strings.Join` with a separator.
unfoldable pub join : String → List String → String
join sep [] = String.[]
join sep (w ∷ []) = w
join sep (w ∷ v ∷ ws) = String.◌++◌ w (String.◌++◌ sep (join sep (v ∷ ws)))

-- `strings.TrimRight` with one ASCII character for its set.
unfoldable pub trim_right_char : ℕ → String → String
trim_right_char x String.[] = String.[]
trim_right_char x (String.◌∷◌ c s) =
    let rest = trim_right_char x s in
    if is_empty rest && nat_eq (code c) x then String.[] else String.◌∷◌ c rest

-- The bytes of a character in UTF-8.
abbrev pub utf8_char : ℕ → List ℕ
utf8_char c =
    if ltb c 0x80
    then c ∷ []
    else if ltb c 0x800
    then (0xC0 + c / 64) ∷ (0x80 + c % 64) ∷ []
    else if ltb c 0x10000
    then (0xE0 + c / 4096) ∷ (0x80 + c / 64 % 64) ∷ (0x80 + c % 64) ∷ []
    else (0xF0 + c / 262144) ∷ (0x80 + c / 4096 % 64) ∷ (0x80 + c / 64 % 64) ∷ (0x80 + c % 64) ∷ []

-- The bytes of a text, which Go's `len` counts.
unfoldable pub utf8 : String → List ℕ
utf8 String.[] = []
utf8 (String.◌∷◌ c s) = utf8_char (code c) ++ utf8 s

-- `strings.HasPrefix`
unfoldable pub has_prefix : String → String → Bool
has_prefix s String.[] = true
has_prefix String.[] (String.◌∷◌ d p) = false
has_prefix (String.◌∷◌ c s) (String.◌∷◌ d p) = nat_eq (code c) (code d) && has_prefix s p

-- `strings.Contains`
unfoldable pub has_part : String → String → Bool
unfolding has_prefix
has_part String.[] p = has_prefix String.[] p
has_part (String.◌∷◌ c s) p = has_prefix (String.◌∷◌ c s) p || has_part s p

-- Whether a text has an ASCII character.
unfoldable pub has_char : ℕ → String → Bool
has_char x String.[] = false
has_char x (String.◌∷◌ c s) = nat_eq (code c) x || has_char x s

abbrev pub onto_first : Char → List String → List String
onto_first c [] = String.◌∷◌ c String.[] ∷ []
onto_first c (w ∷ ws) = String.◌∷◌ c w ∷ ws

-- `strings.Split` at a separator of one ASCII character.
unfoldable pub split : ℕ → String → List String
split x String.[] = String.[] ∷ []
split x (String.◌∷◌ c s) =
    let rest = split x s in if nat_eq (code c) x then String.[] ∷ rest else onto_first c rest
