-- ===== src/Keys.antt =====
-- oauth/keys: signing keys, their in-memory store, the manager and the rotation loop.
pub mod Memory
pub mod Manager
pub mod Rotator
mod Tests
