-- ===== src/Cimd.antt =====
-- Clients that are described by a document at their identifier: oauth/cimd.go and
-- oauth/cimd_transport.go.
pub mod Url
pub mod Document
pub mod Lifetime
pub mod Cache
pub mod Fetcher
pub mod Dial
mod Tests
