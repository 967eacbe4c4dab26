-- ===== src/Storage/Memory.antt =====
-- oauth/storage/memory.go. A Go map is the function that looks a key up; what the source deletes in
-- a loop over the map does not depend on the loop's order. The copies that the source makes of
-- clients and sessions are values here, which nothing can change.
pub mod Laws
use mcp_kit.Prelude.{String, Bool, ◌&&◌, Option, none, some, ◌==◌, if◌then◌else◌}
use mcp_kit.Storage.Types.{Client, Session, Result, ok, err, not_found, Store}

pub record MemoryStore : Type 0 where
  pub clients : String → Option Client
  pub sessions : String → String → Option Session

abbrev pub new_memory_store : MemoryStore
new_memory_store = record { clients = λ _. none; sessions = λ _ _. none }

abbrev found {ℓ} : {A : Type ℓ} → Option A → Result A
found none = err not_found
found (some a) = ok a

-- The equality of `sessionKey`.
abbrev pub same_key : String → String → String → String → Bool
same_key kind signature kind' signature' = kind == kind' && signature == signature'

abbrev write :
    String
    → String
    → Option Session
    → (String → String → Option Session)
    → String
    → String
    → Option Session
write kind signature v m kind' signature' =
    if same_key kind signature kind' signature' then v else m kind' signature'

unfoldable pub save_client : Client → MemoryStore → MemoryStore
save_client c s = record s { clients = λ id. if c.id == id then some c else s.clients id }

unfoldable pub get_client : String → MemoryStore → Result Client
get_client id s = found (s.clients id)

unfoldable pub save_session : Session → MemoryStore → MemoryStore
save_session x s = record s { sessions = write x.kind x.signature (some x) s.sessions }

unfoldable pub get_session : String → String → MemoryStore → Result Session
get_session kind signature s = found (s.sessions kind signature)

abbrev reactivated :
    String → String → Bool → MemoryStore → Option Session → Result (Unit {0}) × MemoryStore
reactivated kind signature active s none = (err not_found, s)
reactivated kind signature active s (some x) = (
  ok tt,
  record s { sessions = write kind signature (some (record x { active = active })) s.sessions },
)

unfoldable pub set_session_active :
    String → String → Bool → MemoryStore → Result (Unit {0}) × MemoryStore
set_session_active kind signature active s =
    reactivated kind signature active s (s.sessions kind signature)

unfoldable pub delete_session : String → String → MemoryStore → MemoryStore
delete_session kind signature s = record s { sessions = write kind signature none s.sessions }

-- The body of the loop of `DeleteSessionsByRequestID`.
abbrev unless_of : String → String → String → Option Session → Option Session
unless_of kind request_id kind' none = none
unless_of kind request_id kind' (some x) =
    if kind' == kind && x.request_id == request_id then none else some x

unfoldable pub delete_sessions_by_request_id : String → String → MemoryStore → MemoryStore
delete_sessions_by_request_id kind request_id s = record s {
  sessions = λ kind' signature. unless_of kind request_id kind' (s.sessions kind' signature);
}

-- `MemoryStore` behind the interface: only lookups fail.
abbrev pub memory_store : Store MemoryStore
memory_store = record {
  get_client = get_client;
  save_client = λ c s. (ok tt, save_client c s);
  save_session = λ x s. (ok tt, save_session x s);
  get_session = get_session;
  set_session_active = set_session_active;
  delete_session = λ kind signature s. (ok tt, delete_session kind signature s);
  delete_sessions_by_request_id =
      λ kind request_id s. (ok tt, delete_sessions_by_request_id kind request_id s);
}
