-- ===== src/Controller.antt =====
-- internal/controller: the two controllers, and the cache of clients that each of them keeps.
pub mod Managed
pub mod Runtime
pub mod Setup
pub mod TemporalNamespace
pub mod SearchAttribute
pub mod Connector
