-- ===== src/Clients/SearchAttribute.antt =====
-- internal/clients/searchattribute.go, and what is proved of it.
pub mod Compare
pub mod Service
pub mod Server
pub mod Refinement
