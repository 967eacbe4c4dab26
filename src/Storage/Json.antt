-- ===== src/Storage/Json.antt =====
-- The JSON values that oauth/storage/storage.go writes and reads: `map[string]any` is `Fields`,
-- whose keys are taken to be distinct where a Go map made it.
use mcp_kit.Prelude.{
  ℕ, String, Bool, true, false, ◌≡◌, refl, arith, Option, none, some, List, [], ◌∷◌, ◌==◌,
  if◌then◌else◌,
}

mutual
  pub data Json : Type 0 where
    null : Json
    boolean : Bool → Json
    number : String → Json
    text : String → Json
    -- The text that an instant marshals to.
    time : ℕ → Json
    array : Items → Json
    object : Fields → Json

  pub data Items : Type 0 where
    nil : Items
    cons : Json → Items → Items

  pub data Fields : Type 0 where
    end : Fields
    field : String → Json → Fields → Fields

abbrev pub is_empty : Fields → Bool
is_empty end = true
is_empty (field k v fs) = false

-- `m[key]`
unfoldable pub member : String → Fields → Option Json
member key end = none
member key (field k v fs) = if k == key then some v else member key fs

infixl 5 ◌>>=◌
abbrev pub ◌>>=◌ {ℓ κ} : {A : Type ℓ} {B : Type κ} → Option A → (A → Option B) → Option B
none >>= f = none
some a >>= f = f a

unfoldable pub encode_texts : List String → Items
encode_texts [] = nil
encode_texts (s ∷ ss) = cons (text s) (encode_texts ss)

-- An element `null` leaves the zero value.
abbrev decode_text : Json → Option String
decode_text (text s) = some s
decode_text null = some ""
decode_text _ = none

unfoldable pub decode_texts : Items → Option (List String)
decode_texts nil = some []
decode_texts (cons v vs) = do some ((← decode_text v) ∷ (← decode_texts vs))

-- A value at a field of type `[]string`; `null` leaves it nil.
unfoldable pub decode_text_list : Json → Option (List String)
unfolding decode_texts
decode_text_list (array vs) = decode_texts vs
decode_text_list null = some []
decode_text_list _ = none

-- `url.Values`, a list of texts for each name.
abbrev pub Form : Type 0
Form = List (String × List String)

unfoldable pub encode_form : Form → Fields
unfolding encode_texts
encode_form [] = end
encode_form ((k, vs) ∷ f) = field k (array (encode_texts vs)) (encode_form f)

unfoldable pub decode_form : Fields → Option Form
unfolding decode_text_list
decode_form end = some []
decode_form (field k v fs) = do some ((k, (← decode_text_list v)) ∷ (← decode_form fs))

decode_texts-encode_texts : (ss : List String) → decode_texts (encode_texts ss) ≡ some ss
unfolding decode_texts encode_texts
decode_texts-encode_texts [] = refl
decode_texts-encode_texts (s ∷ ss) = ground (arith, decode_texts-encode_texts ss)

-- A list of texts is read back as it was written.
pub decode_text_list-array :
    (ss : List String) → decode_text_list (array (encode_texts ss)) ≡ some ss
unfolding decode_text_list
decode_text_list-array ss = decode_texts-encode_texts ss

-- A form is read back as it was written.
pub decode_form-encode_form : (f : Form) → decode_form (encode_form f) ≡ some f
unfolding decode_form encode_form
decode_form-encode_form [] = refl
decode_form-encode_form ((k, vs) ∷ f) =
    ground (arith, decode_text_list-array vs, decode_form-encode_form f)
