-- ===== src/Api/Scheme.antt =====
-- apis/temporal.go, both groupversion_info.go, and of the types' files the names of the kinds and the init functions:
-- what the program registers with the Kubernetes scheme. A scheme.Builder is here what was registered with it.
use provider_temporal.Base.{String, List, [], ◌∷◌, ◌++◌}

-- The Go types that are registered. `reflect.TypeOf(T{}).Name()` is `type_name`.
pub data ObjectType : Type 0 where
  provider_config provider_config_list provider_config_usage provider_config_usage_list : ObjectType
  store_config store_config_list : ObjectType
  temporal_namespace temporal_namespace_list search_attribute search_attribute_list : ObjectType

unfoldable pub type_name : ObjectType → String
type_name provider_config = "ProviderConfig"
type_name provider_config_list = "ProviderConfigList"
type_name provider_config_usage = "ProviderConfigUsage"
type_name provider_config_usage_list = "ProviderConfigUsageList"
type_name store_config = "StoreConfig"
type_name store_config_list = "StoreConfigList"
type_name temporal_namespace = "TemporalNamespace"
type_name temporal_namespace_list = "TemporalNamespaceList"
type_name search_attribute = "SearchAttribute"
type_name search_attribute_list = "SearchAttributeList"

pub record GroupVersion : Type 0 where
  pub group : String
  pub version : String

pub record GroupKind : Type 0 where
  pub group : String
  pub kind : String

pub record GroupVersionKind : Type 0 where
  pub group : String
  pub version : String
  pub kind : String

abbrev pub with_kind : GroupVersion → String → GroupVersionKind
with_kind gv kind = record { group = gv.group; version = gv.version; kind = kind }

-- SchemeGroupVersion of apis/v1alpha1
abbrev pub provider_group_version : GroupVersion
provider_group_version = record { group = "temporal.crossplane.io"; version = "v1alpha1" }

-- SchemeGroupVersion of apis/core/v1alpha1
abbrev pub core_group_version : GroupVersion
core_group_version = record { group = "core.temporal.crossplane.io"; version = "v1alpha1" }

abbrev pub provider_config_group_kind : GroupKind
unfolding type_name
provider_config_group_kind = record {
  group = provider_group_version.group;
  kind = type_name provider_config;
}

abbrev pub provider_config_group_version_kind : GroupVersionKind
unfolding type_name
provider_config_group_version_kind = with_kind provider_group_version (type_name provider_config)

abbrev pub provider_config_usage_list_group_version_kind : GroupVersionKind
unfolding type_name
provider_config_usage_list_group_version_kind =
    with_kind provider_group_version (type_name provider_config_usage_list)

abbrev pub store_config_group_version_kind : GroupVersionKind
unfolding type_name
store_config_group_version_kind = with_kind provider_group_version (type_name store_config)

abbrev pub temporal_namespace_group_kind : GroupKind
unfolding type_name
temporal_namespace_group_kind = record {
  group = core_group_version.group;
  kind = type_name temporal_namespace;
}

abbrev pub temporal_namespace_group_version_kind : GroupVersionKind
unfolding type_name
temporal_namespace_group_version_kind = with_kind core_group_version (type_name temporal_namespace)

abbrev pub search_attribute_group_kind : GroupKind
unfolding type_name
search_attribute_group_kind = record {
  group = core_group_version.group;
  kind = type_name search_attribute;
}

abbrev pub search_attribute_group_version_kind : GroupVersionKind
unfolding type_name
search_attribute_group_version_kind = with_kind core_group_version (type_name search_attribute)

pub record SchemeBuilder : Type 0 where
  pub group_version : GroupVersion
  pub objects : List ObjectType

abbrev pub register : List ObjectType → SchemeBuilder → SchemeBuilder
register ts b = record b { objects = b.objects ++ ts }

-- The init functions.
abbrev pub register_provider_config : SchemeBuilder → SchemeBuilder
register_provider_config = register (provider_config ∷ provider_config_list ∷ [])

abbrev pub register_provider_config_usage : SchemeBuilder → SchemeBuilder
register_provider_config_usage = register (provider_config_usage ∷ provider_config_usage_list ∷ [])

abbrev pub register_store_config : SchemeBuilder → SchemeBuilder
register_store_config = register (store_config ∷ store_config_list ∷ [])

abbrev pub register_search_attribute : SchemeBuilder → SchemeBuilder
register_search_attribute = register (search_attribute ∷ search_attribute_list ∷ [])

abbrev pub register_temporal_namespace : SchemeBuilder → SchemeBuilder
register_temporal_namespace = register (temporal_namespace ∷ temporal_namespace_list ∷ [])

-- The init functions of a package run in the order of its files.
abbrev pub provider_scheme_builder : SchemeBuilder
provider_scheme_builder = register_store_config (
    register_provider_config_usage
      (register_provider_config (record { group_version = provider_group_version; objects = [] })))

abbrev pub core_scheme_builder : SchemeBuilder
core_scheme_builder =
    register_temporal_namespace
      (register_search_attribute (record { group_version = core_group_version; objects = [] }))

unfoldable pub add_to_schemes : List SchemeBuilder
add_to_schemes = provider_scheme_builder ∷ core_scheme_builder ∷ []
