-- ===== src/Api/Copies.antt =====
-- apis/core/v1alpha1/zz_generated.deepcopy.go and apis/v1alpha1/zz_generated.deepcopy.go: the structs of
-- the resources as they lie in memory, and their deep copies.
pub mod Foreign
pub mod Namespace
pub mod SearchAttribute
pub mod Provider
pub mod Store
