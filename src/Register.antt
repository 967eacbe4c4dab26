-- ===== src/Register.antt =====
-- oauth/register.go: dynamic client registration.
pub mod Uris
pub mod Scopes
pub mod Handler
mod Tests
