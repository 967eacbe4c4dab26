-- ===== src/Token.antt =====
-- The endpoints of oauth/handlers.go, with the replay cache of oauth/provider.go.
pub mod Replay
pub mod Authorize
pub mod Handler
mod Tests
