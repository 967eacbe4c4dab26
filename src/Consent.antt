-- ===== src/Consent.antt =====
-- The package oauth/consent: the approval tokens and the authorize handler.
pub mod Params
pub mod Store
pub mod HmacStore
pub mod SessionStore
pub mod Page
pub mod Config
pub mod Handler
mod Tests
