-- ===== src/Mcpmw.antt =====
-- The HTTP middleware of the package mcpmw.
pub mod Origin
pub mod Envelope
mod Tests
