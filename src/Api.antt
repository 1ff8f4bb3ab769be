-- ===== src/Api.antt =====
-- apis: the Kubernetes resources that the controllers reconcile.
pub mod Kube
pub mod Scheme
pub mod Namespace
pub mod SearchAttribute
pub mod ProviderConfig
pub mod ProviderConfigUsage
pub mod StoreConfig
pub mod Copies
pub mod Accessors
pub mod Items
