-- ===== src/Api/Copies/Namespace.antt =====
-- apis/core/v1alpha1/zz_generated.deepcopy.go: the functions of TemporalNamespace and of its parts. Where
-- the source writes `new(T)`, follows a pointer and so on, copy_pointer and its kind do.
pub mod Laws
use provider_temporal.Base.{ℕ, ◌≡◌, refl, String, Option, List}
use provider_temporal.Base.Int.{ℤ}
use provider_temporal.Api.Kube.{Kube}
use provider_temporal.Api.Namespace.{
  TemporalNamespaceParameters, TemporalNamespaceObservation, TemporalNamespaceSpec,
  TemporalNamespaceStatus, TemporalNamespace,
}
use provider_temporal.Go.Memory.{
  Memory, Storable, Command, ◌>>=◌, pure, copy_pointer, copy_slice, copy_map_pointer,
}
use provider_temporal.Go.Memory.Regions.{Separate, Separate-copy}
use provider_temporal.Go.Memory.Copyable.{Copyable, by_value, ◌⊕◌, by_pointer, by_slice, by_fields}
use provider_temporal.Api.Copies.Foreign.{Foreign, Object, as_object, namespace_object, list_object}

pub record TemporalNamespaceParametersStruct : Type 0 where
  pub name : String
  pub description : Option ℕ
  pub owner_email : Option ℕ
  pub workflow_execution_retention_days : ℤ
  pub data_map : Option ℕ
  pub history_archival_state : String
  pub history_archival_uri : Option ℕ
  pub visibility_archival_state : String
  pub visibility_archival_uri : Option ℕ

pub record TemporalNamespaceObservationStruct : Type 0 where
  pub id : String
  pub name : String
  pub description : Option ℕ
  pub owner_email : Option ℕ
  pub workflow_execution_retention_days : ℤ
  pub data_map : Option ℕ
  pub history_archival_state : String
  pub history_archival_uri : Option ℕ
  pub visibility_archival_state : String
  pub visibility_archival_uri : Option ℕ
  pub state : String

module _ {k : Kube} {C : Type 0} (f : Foreign k C) where
  pub record TemporalNamespaceSpecStruct : Type 0 where
    pub resource_spec : f.ResourceSpec
    pub provider_reference : Option ℕ
    pub for_provider : TemporalNamespaceParametersStruct

  pub record TemporalNamespaceStatusStruct : Type 0 where
    pub resource_status : f.ResourceStatus
    pub at_provider : TemporalNamespaceObservationStruct

  pub record TemporalNamespaceStruct : Type 0 where
    pub type_meta : k.TypeMeta
    pub object_meta : f.ObjectMeta
    pub spec : TemporalNamespaceSpecStruct
    pub status : TemporalNamespaceStatusStruct

  pub record TemporalNamespaceListStruct : Type 0 where
    pub type_meta : k.TypeMeta
    pub list_meta : f.ListMeta
    pub items : Option ℕ

  unfoldable pub deep_copy_into_parameters :
      TemporalNamespaceParametersStruct → Command C TemporalNamespaceParametersStruct
  unfolding copy_pointer copy_map_pointer
  deep_copy_into_parameters p = do
    description ← copy_pointer f.texts pure p.description
    owner_email ← copy_pointer f.texts pure p.owner_email
    data_map ← copy_map_pointer f.maps f.entries p.data_map
    history_archival_uri ← copy_pointer f.texts pure p.history_archival_uri
    visibility_archival_uri ← copy_pointer f.texts pure p.visibility_archival_uri
    pure (record p {
      description = description;
      owner_email = owner_email;
      data_map = data_map;
      history_archival_uri = history_archival_uri;
      visibility_archival_uri = visibility_archival_uri;
    })

  unfoldable pub deep_copy_into_observation :
      TemporalNamespaceObservationStruct → Command C TemporalNamespaceObservationStruct
  unfolding copy_pointer copy_map_pointer
  deep_copy_into_observation o = do
    description ← copy_pointer f.texts pure o.description
    owner_email ← copy_pointer f.texts pure o.owner_email
    data_map ← copy_map_pointer f.maps f.entries o.data_map
    history_archival_uri ← copy_pointer f.texts pure o.history_archival_uri
    visibility_archival_uri ← copy_pointer f.texts pure o.visibility_archival_uri
    pure (record o {
      description = description;
      owner_email = owner_email;
      data_map = data_map;
      history_archival_uri = history_archival_uri;
      visibility_archival_uri = visibility_archival_uri;
    })

  unfoldable pub deep_copy_into_spec :
      TemporalNamespaceSpecStruct → Command C TemporalNamespaceSpecStruct
  unfolding deep_copy_into_parameters
  deep_copy_into_spec spec = do
    resource_spec ← f.resource_spec.deep_copy_into spec.resource_spec
    provider_reference ←
        copy_pointer f.references f.reference.deep_copy_into spec.provider_reference
    for_provider ← deep_copy_into_parameters spec.for_provider
    pure (record {
      resource_spec = resource_spec;
      provider_reference = provider_reference;
      for_provider = for_provider;
    })

  unfoldable pub deep_copy_into_status :
      TemporalNamespaceStatusStruct → Command C TemporalNamespaceStatusStruct
  unfolding deep_copy_into_observation
  deep_copy_into_status status = do
    resource_status ← f.resource_status.deep_copy_into status.resource_status
    at_provider ← deep_copy_into_observation status.at_provider
    pure (record { resource_status = resource_status; at_provider = at_provider })

  unfoldable pub deep_copy_into_namespace :
      TemporalNamespaceStruct → Command C TemporalNamespaceStruct
  unfolding deep_copy_into_spec deep_copy_into_status
  deep_copy_into_namespace ns = do
    object_meta ← f.object_meta.deep_copy_into ns.object_meta
    spec ← deep_copy_into_spec ns.spec
    status ← deep_copy_into_status ns.status
    pure (record ns { object_meta = object_meta; spec = spec; status = status })

  -- The variables of these types.
  pub record NamespaceVariables : Type 0 where
    pub parameters : Storable C TemporalNamespaceParametersStruct
    pub observations : Storable C TemporalNamespaceObservationStruct
    pub specs : Storable C TemporalNamespaceSpecStruct
    pub statuses : Storable C TemporalNamespaceStatusStruct
    pub namespaces : Storable C TemporalNamespaceStruct
    pub arrays : Storable C (List TemporalNamespaceStruct)
    pub lists : Storable C TemporalNamespaceListStruct

module _ {k : Kube} {C : Type 0} (f : Foreign k C) (s : NamespaceVariables f) where
  unfoldable pub deep_copy_into_list :
      TemporalNamespaceListStruct f → Command C (TemporalNamespaceListStruct f)
  unfolding deep_copy_into_namespace copy_slice
  deep_copy_into_list l = do
    list_meta ← f.list_meta.deep_copy_into l.list_meta
    items ← copy_slice s.namespaces s.arrays (deep_copy_into_namespace f) l.items
    pure (record l { list_meta = list_meta; items = items })

  -- DeepCopy of each type: nil for nil, or a new variable.
  unfoldable pub deep_copy_parameters : Option ℕ → Command C (Option ℕ)
  deep_copy_parameters = copy_pointer s.parameters (deep_copy_into_parameters f)

  unfoldable pub deep_copy_observation : Option ℕ → Command C (Option ℕ)
  deep_copy_observation = copy_pointer s.observations (deep_copy_into_observation f)

  unfoldable pub deep_copy_spec : Option ℕ → Command C (Option ℕ)
  deep_copy_spec = copy_pointer s.specs (deep_copy_into_spec f)

  unfoldable pub deep_copy_status : Option ℕ → Command C (Option ℕ)
  deep_copy_status = copy_pointer s.statuses (deep_copy_into_status f)

  unfoldable pub deep_copy_namespace : Option ℕ → Command C (Option ℕ)
  deep_copy_namespace = copy_pointer s.namespaces (deep_copy_into_namespace f)

  unfoldable pub deep_copy_list : Option ℕ → Command C (Option ℕ)
  unfolding deep_copy_into_list
  deep_copy_list = copy_pointer s.lists deep_copy_into_list

  -- DeepCopyObject of those that are a runtime.Object.
  unfoldable pub deep_copy_namespace_object : Option ℕ → Command C (Option Object)
  deep_copy_namespace_object p = do q ← deep_copy_namespace p; pure (as_object namespace_object q)

  unfoldable pub deep_copy_list_object : Option ℕ → Command C (Option Object)
  deep_copy_list_object p = do q ← deep_copy_list p; pure (as_object list_object q)
