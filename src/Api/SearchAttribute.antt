-- ===== src/Api/SearchAttribute.antt =====
-- apis/core/v1alpha1/searchattribute_types.go: what a user asks of a search attribute, and what
-- was observed. `Reference` and `Selector` are crossplane-runtime's types, of which this code knows
-- nothing but that they are there.
use provider_temporal.Api.Kube.{Kube}
use provider_temporal.Base.{String, Option, List}

pub record SearchAttributeParameters (Reference Selector : Type 0) : Type 0 where
  pub name : String
  pub type : String
  pub temporal_namespace_name : Option String
  pub temporal_namespace_name_ref : Option Reference
  pub temporal_namespace_name_selector : Option Selector

pub record SearchAttributeObservation : Type 0 where
  pub name : String
  pub type : String
  pub temporal_namespace_name : String

module _ (k : Kube) where
  open k use {TypeMeta, ObjectMeta, ResourceSpec, ResourceStatus, Reference, Selector}

  pub record SearchAttributeSpec : Type 0 where
    pub resource_spec : ResourceSpec
    pub provider_reference : Option Reference
    pub for_provider : SearchAttributeParameters Reference Selector

  pub record SearchAttributeStatus : Type 0 where
    pub resource_status : ResourceStatus
    pub at_provider : SearchAttributeObservation

  pub record SearchAttribute : Type 0 where
    pub type_meta : TypeMeta
    pub object_meta : ObjectMeta
    pub spec : SearchAttributeSpec
    pub status : SearchAttributeStatus

  pub record SearchAttributeList : Type 0 where
    pub type_meta : TypeMeta
    pub list_meta : k.ListMeta
    pub items : Option (List SearchAttribute)
