-- ===== src/Clients/Namespace.antt =====
-- internal/clients/namespace.go, and what is proved of it.
pub mod Compare
pub mod Fields
pub mod Service
pub mod RoundTrip
pub mod Server
pub mod Refinement
pub mod Updates
pub mod Listing
pub mod DeleteAll
