-- ===== src/Consent/Params.antt =====
-- oauth/consent/params.go, and the readers of form values in redirect.go. A form is the list of its
-- keys with their values; the base64 text of the SHA-256 of an encoded form is a parameter.
use mcp_kit.Prelude.{String, List, [], ◌∷◌, contains, ◌==◌, if◌then◌else◌}
use mcp_kit.Text.{trim_space}
use mcp_kit.Storage.Json.{Form}

-- The first value of a key, or the empty text: `url.Values.Get`.
unfoldable pub get : String → Form → String
get key [] = ""
get key ((k, []) ∷ f) = let rest = get key f in if k == key then "" else rest
get key ((k, v ∷ vs) ∷ f) = let rest = get key f in if k == key then v else rest

-- All values of a key.
unfoldable pub values_of : String → Form → List String
values_of key [] = []
values_of key ((k, vs) ∷ f) = let rest = values_of key f in if k == key then vs else rest

-- `url.Values.Set` on a copy: `cloneAndSet`.
unfoldable pub clone_and_set : Form → String → String → Form
clone_and_set [] key value = (key, value ∷ []) ∷ []
clone_and_set ((k, vs) ∷ f) key value =
    let rest = clone_and_set f key value in
    if k == key then (key, value ∷ []) ∷ f else (k, vs) ∷ rest

abbrev pub reserved : List String
reserved =
    "username" ∷ "password" ∷ "action" ∷ "approval_token" ∷ "challenge_id" ∷ "challenge_response"
    ∷ []

-- `Add` of each value of a key; a key without values is never added.
abbrev pub add_all : String → List String → Form → Form
add_all k [] f = f
add_all k (v ∷ vs) f = (k, v ∷ vs) ∷ f

-- `oauthAuthorizeValues`
unfoldable pub oauth_authorize_values : Form → Form
unfolding contains
oauth_authorize_values [] = []
oauth_authorize_values ((k, vs) ∷ f) =
    let rest = oauth_authorize_values f in if contains reserved k then rest else add_all k vs rest

unfoldable pub params_digest : (Form → String) → Form → String
unfolding oauth_authorize_values
params_digest hash params = hash (oauth_authorize_values params)

-- The loop of `normalizeOAuthStringSlice`, with what it has put out.
unfoldable pub normalize_from : List String → List String → List String
unfolding trim_space contains
normalize_from seen [] = []
normalize_from seen (v ∷ vs) =
    let skip = normalize_from seen vs in
    let more = trim_space v ∷ normalize_from (trim_space v ∷ seen) vs in
    if trim_space v == "" then skip else if contains seen (trim_space v) then skip else more

unfoldable pub normalize_oauth_string_slice : List String → List String
unfolding normalize_from
normalize_oauth_string_slice vs = normalize_from [] vs

-- `ResourcesFromValues`
unfoldable pub resources_from_values : Form → List String
unfolding normalize_oauth_string_slice values_of
resources_from_values params = normalize_oauth_string_slice (values_of "resource" params)
