-- ===== src/Cliauth/Credstore.antt =====
-- `CredStore` of cliauth/credstore.go: the credentials of hosts in one file. Whether the system
-- writes or removes the file is an input; a write replaces the file at once or not at all.
pub mod Laws
pub mod Current
use Prim.Native.Char.{Char, code}
use Prim.Native.String
use mcp_kit.Prelude.{
  ℕ, ◌+◌, String, Bool, true, false, Option, none, some, List, [], ◌∷◌, ltb, leb, nat_eq, ◌==◌,
  if◌then◌else◌,
}

-- `refreshBuffer`, in nanoseconds.
abbrev pub refresh_buffer : ℕ
refresh_buffer = 30_000_000_000

-- `expires_at` is `none` for a zero time.
pub record Credentials : Type 0 where
  pub issuer : String
  pub client_id : String
  pub redirect_uris : List String
  pub access_token : String
  pub refresh_token : String
  pub expires_at : Option ℕ
  pub scope : String

-- `Credentials{}`
abbrev pub no_credentials : Credentials
no_credentials = record {
  issuer = "";
  client_id = "";
  redirect_uris = [];
  access_token = "";
  refresh_token = "";
  expires_at = none;
  scope = "";
}

-- `NeedsRefresh`, at an instant.
abbrev expires_soon : ℕ → Option ℕ → Bool
expires_soon now none = true
expires_soon now (some at) = leb at (now + refresh_buffer)

unfoldable pub needs_refresh : ℕ → Credentials → Bool
needs_refresh now c = expires_soon now c.expires_at

abbrev pub Hosts : Type 0
Hosts = List (String × Credentials)

-- `store`, with its map of hosts.
pub record Contents : Type 0 where
  pub current : String
  pub hosts : Hosts

-- The file: missing, not read, not decoded, decoded without a map of hosts, or with one.
pub data File : Type 0 where
  absent unreadable unparsable without_hosts : File
  holding : Contents → File

pub data Error : Type 0 where
  not_logged_in read_failed parse_failed host_is_empty write_failed remove_failed : Error
  host_not_found : String → Error
  issuer_is_invalid endpoints_unknown endpoint_refused : Error
  registration_failed token_failed issuer_mismatch refresh_impossible : Error

pub data Result {ℓ} (A : Type ℓ) : Type ℓ where
  ok : A → Result A
  err : Error → Result A

unfoldable pub load_all : File → Result Contents
load_all absent = err not_logged_in
load_all unreadable = err read_failed
load_all unparsable = err parse_failed
load_all without_hosts = err not_logged_in
load_all (holding c) = ok c

-- `write`
abbrev pub write : Bool → Contents → File → Result (Unit {0}) × File
write true c f = (ok tt, holding c)
write false c f = (err write_failed, f)

-- `removeFile`: that there is no file is no error.
abbrev pub remove_file : Bool → File → Result (Unit {0}) × File
remove_file true f = (ok tt, absent)
remove_file false absent = (ok tt, absent)
remove_file false f = (err remove_failed, f)

unfoldable pub find : String → Hosts → Option Credentials
find host [] = none
find host ((h, c) ∷ hs) = let rest = find host hs in if h == host then some c else rest

-- The assignment to a key of the map.
unfoldable pub put : String → Credentials → Hosts → Hosts
put host c [] = (host, c) ∷ []
put host c ((h, d) ∷ hs) =
    let rest = put host c hs in if h == host then (host, c) ∷ hs else (h, d) ∷ rest

unfoldable pub delete : String → Hosts → Hosts
delete host [] = []
delete host ((h, d) ∷ hs) = let rest = delete host hs in if h == host then rest else (h, d) ∷ rest

-- The order of Go's strings.
unfoldable pub before : String → String → Bool
before String.[] t = true
before (String.◌∷◌ c s) String.[] = false
before (String.◌∷◌ c s) (String.◌∷◌ d t) =
    let rest = before s t in
    if ltb (code c) (code d) then true else if nat_eq (code c) (code d) then rest else false

unfoldable pub insert : String → List String → List String
unfolding before
insert s [] = s ∷ []
insert s (t ∷ ts) = let rest = insert s ts in if before s t then s ∷ t ∷ ts else t ∷ rest

-- The keys of the map, sorted.
unfoldable pub sorted_keys : Hosts → List String
unfolding insert
sorted_keys [] = []
sorted_keys ((h, c) ∷ hs) = insert h (sorted_keys hs)

abbrev pub first_of : List String → String
first_of [] = ""
first_of (s ∷ ss) = s

-- `firstHost`
unfoldable pub first_host : Hosts → String
unfolding sorted_keys
first_host hosts = first_of (sorted_keys hosts)

abbrev pub found : Option Credentials → Result Credentials
found none = err not_logged_in
found (some c) = ok c

abbrev load_host_in : String → Result Contents → Result Credentials
load_host_in host (err e) = err e
load_host_in host (ok c) = found (find host c.hosts)

-- `LoadHost`
unfoldable pub load_host : String → File → Result Credentials
unfolding load_all find
load_host host f = load_host_in host (load_all f)

abbrev named : String → Option Credentials → Result (String × Credentials)
named host none = err not_logged_in
named host (some c) = ok (host, c)

abbrev load_current_in : Result Contents → Result (String × Credentials)
load_current_in (err e) = err e
load_current_in (ok c) =
    if c.current == "" then err not_logged_in else named c.current (find c.current c.hosts)

-- `LoadCurrent`
unfoldable pub load_current : File → Result (String × Credentials)
unfolding load_all find
load_current f = load_current_in (load_all f)

-- The contents that `SaveHost` writes.
unfoldable pub with_host : String → Credentials → Contents → Contents
unfolding put
with_host host creds c = record {
  current = if c.current == "" then host else c.current;
  hosts = put host creds c.hosts;
}

abbrev pub save_host_in :
    Bool → String → Credentials → File → Result Contents → Result (Unit {0}) × File
save_host_in writes host creds f (ok c) = write writes (with_host host creds c) f
save_host_in writes host creds f (err not_logged_in) =
    write writes (with_host host creds (record { current = ""; hosts = [] })) f
save_host_in writes host creds f (err e) = (err e, f)

-- `SaveHost`
unfoldable pub save_host : Bool → String → Credentials → File → Result (Unit {0}) × File
unfolding load_all with_host
save_host writes host creds f =
    if host == "" then (err host_is_empty, f) else save_host_in writes host creds f (load_all f)

abbrev pub use_found :
    Bool → String → Contents → File → Option Credentials → Result (Unit {0}) × File
use_found writes host c f none = (err (host_not_found host), f)
use_found writes host c f (some d) = write writes (record c { current = host }) f

abbrev use_host_in : Bool → String → File → Result Contents → Result (Unit {0}) × File
use_host_in writes host f (err e) = (err e, f)
use_host_in writes host f (ok c) = use_found writes host c f (find host c.hosts)

-- `UseHost`
unfoldable pub use_host : Bool → String → File → Result (Unit {0}) × File
unfolding load_all find
use_host writes host f = use_host_in writes host f (load_all f)

-- The file without a host: removed with the last one.
abbrev pub leave : Bool → String → Hosts → File → Result (Unit {0}) × File
leave writes current [] f = remove_file writes f
leave writes current (h ∷ hs) f = write writes (record { current = current; hosts = h ∷ hs }) f

abbrev pub delete_found :
    Bool → String → Contents → File → Option Credentials → Result (Unit {0}) × File
delete_found writes host c f none = (ok tt, f)
delete_found writes host c f (some d) =
    let hosts = delete host c.hosts in
    leave writes (if c.current == host then first_host hosts else c.current) hosts f

abbrev delete_host_in : Bool → String → File → Result Contents → Result (Unit {0}) × File
delete_host_in writes host f (err not_logged_in) = (ok tt, f)
delete_host_in writes host f (err e) = (err e, f)
delete_host_in writes host f (ok c) = delete_found writes host c f (find host c.hosts)

-- `DeleteHost`
unfoldable pub delete_host : Bool → String → File → Result (Unit {0}) × File
unfolding load_all find delete first_host
delete_host writes host f = delete_host_in writes host f (load_all f)

abbrev hosts_in : Result Contents → Result (List String)
hosts_in (err not_logged_in) = ok []
hosts_in (err e) = err e
hosts_in (ok c) = ok (sorted_keys c.hosts)

-- `Hosts`
unfoldable pub hosts : File → Result (List String)
unfolding load_all sorted_keys
hosts f = hosts_in (load_all f)
