-- ===== src/Api/Copies/Foreign.antt =====
-- The structs of Kubernetes and crossplane-runtime as they lie in memory, with their deep copies, as a
-- parameter, and the variables that the pointers of the resources lead to. What is asked of a deep copy
-- that is not generated here is what is proved of those that are.
use provider_temporal.Base.{ℕ, String, Option, none, some}
use provider_temporal.Api.Kube.{Kube}
use provider_temporal.Go.Memory.{Storable, Entries}
use provider_temporal.Go.Memory.Copyable.{Copyable, by_value, by_pointer, by_map_pointer}

pub record Foreign (k : Kube) (C : Type 0) : Type 1 where
  pub ObjectMeta : Type 0
  pub ListMeta : Type 0
  pub ResourceSpec : Type 0
  pub ResourceStatus : Type 0
  pub Reference : Type 0
  pub Selector : Type 0
  pub CommonCredentialSelectors : Type 0
  pub ProviderConfigStatus : Type 0
  pub ProviderConfigUsage : Type 0
  pub SecretStoreConfig : Type 0
  pub ConditionedStatus : Type 0
  pub object_meta : Copyable C ObjectMeta k.ObjectMeta
  pub list_meta : Copyable C ListMeta k.ListMeta
  pub resource_spec : Copyable C ResourceSpec k.ResourceSpec
  pub resource_status : Copyable C ResourceStatus k.ResourceStatus
  pub reference : Copyable C Reference k.Reference
  pub selector : Copyable C Selector k.Selector
  pub common_credential_selectors : Copyable C CommonCredentialSelectors k.CommonCredentialSelectors
  pub provider_config_status : Copyable C ProviderConfigStatus k.ProviderConfigStatus
  pub provider_config_usage : Copyable C ProviderConfigUsage k.ProviderConfigUsage
  pub secret_store_config : Copyable C SecretStoreConfig k.SecretStoreConfig
  pub conditioned_status : Copyable C ConditionedStatus k.ConditionedStatus
  pub texts : Storable C String
  pub maps : Storable C (Option ℕ)
  pub entries : Storable C Entries
  pub references : Storable C Reference
  pub selectors : Storable C Selector

module _ {k : Kube} {C : Type 0} (f : Foreign k C) where
  -- *string, *map[string]string, *v1.Reference and *v1.Selector.
  abbrev pub text_pointer : Copyable C (Option ℕ) (Option String)
  text_pointer = by_pointer f.texts by_value

  abbrev pub map_pointer : Copyable C (Option ℕ) (Option (Option Entries))
  map_pointer = by_map_pointer f.maps f.entries

  abbrev pub reference_pointer : Copyable C (Option ℕ) (Option k.Reference)
  reference_pointer = by_pointer f.references f.reference

  abbrev pub selector_pointer : Copyable C (Option ℕ) (Option k.Selector)
  selector_pointer = by_pointer f.selectors f.selector

-- runtime.Object: a pointer to one of the types, or nil.
pub data Object : Type 0 where
  namespace_object list_object attribute_object attribute_list_object : ℕ → Object
  config_object config_list_object usage_object usage_list_object : ℕ → Object
  store_object store_list_object : ℕ → Object

-- `if c := in.DeepCopy(); c != nil { return c }; return nil`
abbrev pub as_object : (ℕ → Object) → Option ℕ → Option Object
as_object kind none = none
as_object kind (some p) = some (kind p)
