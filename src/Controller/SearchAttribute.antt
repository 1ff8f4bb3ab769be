-- ===== src/Controller/SearchAttribute.antt =====
-- internal/controller/searchattribute/searchattribute.go, and what is proved of it.
pub mod External
pub mod Observe
pub mod Converge
pub mod Connector
pub mod Resolve
