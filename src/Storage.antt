-- ===== src/Storage.antt =====
-- oauth/storage: what the kit keeps of OAuth clients and sessions, the in-memory store, and the
-- adapter from a store to the interfaces of the OAuth engine (ory/fosite).
pub mod Json
pub mod Types
pub mod Memory
pub mod Request
pub mod Adapter
mod Tests
