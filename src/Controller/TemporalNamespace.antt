-- ===== src/Controller/TemporalNamespace.antt =====
-- internal/controller/temporalnamespace/temporalnamespace.go, and what is proved of it.
pub mod External
pub mod Observe
pub mod Converge
pub mod Deletion
pub mod Updating
pub mod Rejection
pub mod Connector
