-- ===== src/Clients.antt =====
-- internal/clients: the calls of the Temporal server that the controllers make.
pub mod Temporal
pub mod Namespace
pub mod SearchAttribute
pub mod Service
