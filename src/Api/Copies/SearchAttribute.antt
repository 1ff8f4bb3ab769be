-- ===== src/Api/Copies/SearchAttribute.antt =====
-- apis/core/v1alpha1/zz_generated.deepcopy.go: the functions of SearchAttribute and of its parts.
pub mod Laws
use provider_temporal.Base.{ℕ, String, Option, List}
use provider_temporal.Api.Kube.{Kube}
use provider_temporal.Go.Memory.{Storable, Command, ◌>>=◌, pure, copy_pointer, copy_slice}
use provider_temporal.Api.Copies.Foreign.{
  Foreign, Object, as_object, attribute_object, attribute_list_object,
}

module _ {k : Kube} {C : Type 0} (f : Foreign k C) where
  pub record SearchAttributeParametersStruct : Type 0 where
    pub name : String
    pub type : String
    pub temporal_namespace_name : Option ℕ
    pub temporal_namespace_name_ref : Option ℕ
    pub temporal_namespace_name_selector : Option ℕ

  pub record SearchAttributeObservationStruct : Type 0 where
    pub name : String
    pub type : String
    pub temporal_namespace_name : String

  pub record SearchAttributeSpecStruct : Type 0 where
    pub resource_spec : f.ResourceSpec
    pub provider_reference : Option ℕ
    pub for_provider : SearchAttributeParametersStruct

  pub record SearchAttributeStatusStruct : Type 0 where
    pub resource_status : f.ResourceStatus
    pub at_provider : SearchAttributeObservationStruct

  pub record SearchAttributeStruct : Type 0 where
    pub type_meta : k.TypeMeta
    pub object_meta : f.ObjectMeta
    pub spec : SearchAttributeSpecStruct
    pub status : SearchAttributeStatusStruct

  unfoldable pub deep_copy_into_attribute_parameters :
      SearchAttributeParametersStruct → Command C SearchAttributeParametersStruct
  deep_copy_into_attribute_parameters s = do
    temporal_namespace_name ← copy_pointer f.texts pure s.temporal_namespace_name
    temporal_namespace_name_ref ←
        copy_pointer f.references f.reference.deep_copy_into s.temporal_namespace_name_ref
    temporal_namespace_name_selector ←
        copy_pointer f.selectors f.selector.deep_copy_into s.temporal_namespace_name_selector
    pure (record s {
      temporal_namespace_name = temporal_namespace_name;
      temporal_namespace_name_ref = temporal_namespace_name_ref;
      temporal_namespace_name_selector = temporal_namespace_name_selector;
    })

  unfoldable pub deep_copy_into_attribute_observation :
      SearchAttributeObservationStruct → Command C SearchAttributeObservationStruct
  deep_copy_into_attribute_observation s = pure s

  unfoldable pub deep_copy_into_attribute_spec :
      SearchAttributeSpecStruct → Command C SearchAttributeSpecStruct
  unfolding deep_copy_into_attribute_parameters
  deep_copy_into_attribute_spec s = do
    resource_spec ← f.resource_spec.deep_copy_into s.resource_spec
    provider_reference ← copy_pointer f.references f.reference.deep_copy_into s.provider_reference
    for_provider ← deep_copy_into_attribute_parameters s.for_provider
    pure (record {
      resource_spec = resource_spec;
      provider_reference = provider_reference;
      for_provider = for_provider;
    })

  unfoldable pub deep_copy_into_attribute_status :
      SearchAttributeStatusStruct → Command C SearchAttributeStatusStruct
  deep_copy_into_attribute_status s = do
    resource_status ← f.resource_status.deep_copy_into s.resource_status
    pure (record { resource_status = resource_status; at_provider = s.at_provider })

  unfoldable pub deep_copy_into_attribute : SearchAttributeStruct → Command C SearchAttributeStruct
  unfolding deep_copy_into_attribute_spec deep_copy_into_attribute_status
  deep_copy_into_attribute s = do
    object_meta ← f.object_meta.deep_copy_into s.object_meta
    spec ← deep_copy_into_attribute_spec s.spec
    status ← deep_copy_into_attribute_status s.status
    pure (record s { object_meta = object_meta; spec = spec; status = status })

  pub record SearchAttributeListStruct : Type 0 where
    pub type_meta : k.TypeMeta
    pub list_meta : f.ListMeta
    pub items : Option ℕ

  -- The variables of these types.
  pub record AttributeVariables : Type 0 where
    pub attribute_parameters : Storable C SearchAttributeParametersStruct
    pub attribute_observations : Storable C SearchAttributeObservationStruct
    pub attribute_specs : Storable C SearchAttributeSpecStruct
    pub attribute_statuses : Storable C SearchAttributeStatusStruct
    pub attributes : Storable C SearchAttributeStruct
    pub attribute_arrays : Storable C (List SearchAttributeStruct)
    pub attribute_lists : Storable C SearchAttributeListStruct

module _ {k : Kube} {C : Type 0} (f : Foreign k C) (s : AttributeVariables f) where
  unfoldable pub deep_copy_into_attribute_list :
      SearchAttributeListStruct f → Command C (SearchAttributeListStruct f)
  unfolding deep_copy_into_attribute copy_slice
  deep_copy_into_attribute_list l = do
    list_meta ← f.list_meta.deep_copy_into l.list_meta
    items ← copy_slice s.attributes s.attribute_arrays (deep_copy_into_attribute f) l.items
    pure (record l { list_meta = list_meta; items = items })

  -- DeepCopy of each type: nil for nil, or a new variable.
  unfoldable pub deep_copy_attribute_parameters : Option ℕ → Command C (Option ℕ)
  deep_copy_attribute_parameters =
      copy_pointer s.attribute_parameters (deep_copy_into_attribute_parameters f)

  unfoldable pub deep_copy_attribute_observation : Option ℕ → Command C (Option ℕ)
  deep_copy_attribute_observation =
      copy_pointer s.attribute_observations (deep_copy_into_attribute_observation f)

  unfoldable pub deep_copy_attribute_spec : Option ℕ → Command C (Option ℕ)
  deep_copy_attribute_spec = copy_pointer s.attribute_specs (deep_copy_into_attribute_spec f)

  unfoldable pub deep_copy_attribute_status : Option ℕ → Command C (Option ℕ)
  deep_copy_attribute_status = copy_pointer s.attribute_statuses (deep_copy_into_attribute_status f)

  unfoldable pub deep_copy_attribute : Option ℕ → Command C (Option ℕ)
  deep_copy_attribute = copy_pointer s.attributes (deep_copy_into_attribute f)

  unfoldable pub deep_copy_attribute_list : Option ℕ → Command C (Option ℕ)
  unfolding deep_copy_into_attribute_list
  deep_copy_attribute_list = copy_pointer s.attribute_lists deep_copy_into_attribute_list

  -- DeepCopyObject of those that are a runtime.Object.
  unfoldable pub deep_copy_attribute_object : Option ℕ → Command C (Option Object)
  deep_copy_attribute_object p = do q ← deep_copy_attribute p; pure (as_object attribute_object q)

  unfoldable pub deep_copy_attribute_list_object : Option ℕ → Command C (Option Object)
  deep_copy_attribute_list_object p = do
    q ← deep_copy_attribute_list p
    pure (as_object attribute_list_object q)
