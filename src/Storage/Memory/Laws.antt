-- ===== src/Storage/Memory/Laws.antt =====
-- The contract of a store as the adapter uses it, which `MemoryStore` keeps.
use mcp_kit.Prelude.{String, ◌≡◌, refl, Bool, ◌&&◌, ◌==◌, if◌then◌else◌, eq_iff, arith}
use mcp_kit.Storage.Types.{Client, Session, Result, ok, err, not_found, Store}
use mcp_kit.Storage.Memory.{
  MemoryStore, memory_store, same_key, get_client, save_client, get_session, save_session,
  set_session_active, delete_session, delete_sessions_by_request_id,
}

-- The session found, if it is not one of the kind and request that are deleted.
abbrev pub kept : String → String → String → Result Session → Result Session
kept kind request_id kind' (err e) = err e
kept kind request_id kind' (ok x) =
    if kind' == kind && x.request_id == request_id then err not_found else ok x

-- Sessions behave as a map with the pair of type and signature for its key, and the operations on
-- them leave the clients alone.
pub record IsSessionMap {S : Type 0} (store : Store S) : Type 0 where
  pub save_found :
      (x : Session) (s : S) (kind signature : String)
      → store.get_session kind signature (store.save_session x s).1 ≡ (
          if same_key x.kind x.signature kind signature
          then ok x
          else store.get_session kind signature s)
  pub save_ok : (x : Session) (s : S) → (store.save_session x s).0 ≡ ok tt
  pub save_clients :
      (x : Session) (s : S) (id : String)
      → store.get_client id (store.save_session x s).1 ≡ store.get_client id s
  pub active_ok :
      (k g : String) (active : Bool) (s : S) (x : Session)
      → store.get_session k g s ≡ ok x
      → ((store.set_session_active k g active s).0 ≡ ok tt)
        × (store.get_session k g (store.set_session_active k g active s).1
            ≡ ok (record x { active = active }))
        × ((id : String)
            → store.get_client id (store.set_session_active k g active s).1 ≡ store.get_client id s)
  pub active_missing :
      (k g : String) (active : Bool) (s : S)
      → store.get_session k g s ≡ err not_found
      → store.set_session_active k g active s ≡ (err not_found, s)
  pub delete_found :
      (k g : String) (s : S) (kind signature : String)
      → ((store.delete_session k g s).0 ≡ ok tt)
        × (store.get_session kind signature (store.delete_session k g s).1 ≡ (
            if same_key k g kind signature
            then err not_found
            else store.get_session kind signature s))
  pub delete_all_found :
      (k request_id : String) (s : S) (kind signature : String)
      → ((store.delete_sessions_by_request_id k request_id s).0 ≡ ok tt)
        × (store.get_session kind signature (store.delete_sessions_by_request_id k request_id s).1
            ≡ kept k request_id kind (store.get_session kind signature s))
  pub delete_all_clients :
      (k request_id : String) (s : S) (id : String)
      → store.get_client id (store.delete_sessions_by_request_id k request_id s).1
        ≡ store.get_client id s

-- `MemoryStore` is a map of sessions under the pair of type and signature: what is saved is
-- found; a change of its activity changes nothing else of it, and fails and changes nothing where
-- there is none; a deletion removes what it names and nothing else. Saving a session, changing
-- its activity and deleting by request leave the clients alone.
pub memory_store-IsSessionMap : IsSessionMap memory_store
unfolding get_client get_session save_session set_session_active delete_session
    delete_sessions_by_request_id
memory_store-IsSessionMap = record {
  save_found = λ x s k g. ground arith;
  save_ok = λ x s. refl;
  save_clients = λ x s id. refl;
  active_ok =
      λ k g a s x h. (ground arith, ground (arith, eq_iff k k, eq_iff g g), λ id. ground arith);
  active_missing = λ k g a s h. ground arith;
  delete_found = λ k g s k' g'. (refl, ground arith);
  delete_all_found = λ k r s k' g'. (refl, ground arith);
  delete_all_clients = λ k r s id. refl;
}

-- A client that is saved is found under its identifier, and no other lookup changes.
pub get_client-save_client :
    (c : Client) (s : MemoryStore) (id : String)
    → get_client id (save_client c s) ≡ (if c.id == id then ok c else get_client id s)
unfolding get_client save_client
get_client-save_client c s id = ground arith
