-- ===== src/Bearer.antt =====
-- oauth/middleware.go, oauth/token_validator.go and oauth/pat.go: bearer authentication.
pub mod Context
pub mod Challenge
pub mod Middleware
mod Tests
