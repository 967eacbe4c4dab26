-- ===== src/Cliauth.antt =====
-- The login of a command line program: the package cliauth.
pub mod Credstore
pub mod Discovery
pub mod Login
mod Tests
