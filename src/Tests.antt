-- ===== src/Tests.antt =====
-- Small concrete environments, and each theorem at an input.
pub mod Server
pub mod Equality
pub mod Connections
pub mod Namespaces
pub mod Attributes
pub mod Cache
pub mod Resolution
pub mod Memory
pub mod NamespaceStructs
pub mod NamespaceCopies
pub mod AttributeCopies
pub mod ProviderCopies
pub mod Workers
pub mod Shared
pub mod Provider
pub mod Items
