-- ===== src/Api/Copies/SearchAttribute/Laws.antt =====
-- The deep copies of SearchAttribute types, each by those of its fields.
use provider_temporal.Base.{ℕ, refl, String, Option}
use provider_temporal.Api.Kube.{Kube}
use provider_temporal.Api.SearchAttribute.{
  SearchAttributeParameters, SearchAttributeObservation, SearchAttributeSpec, SearchAttributeStatus,
  SearchAttribute, SearchAttributeList,
}
use provider_temporal.Go.Memory.{Memory, pure}
use provider_temporal.Go.Memory.Regions.{Separate, Separate-copy}
use provider_temporal.Go.Memory.Copyable.{Copyable, by_value, ◌⊕◌, by_pointer, by_slice, by_fields}
use provider_temporal.Api.Copies.Foreign.{
  Foreign, text_pointer, reference_pointer, selector_pointer,
}
use provider_temporal.Api.Copies.SearchAttribute.{
  SearchAttributeParametersStruct, SearchAttributeObservationStruct, SearchAttributeSpecStruct,
  SearchAttributeStatusStruct, SearchAttributeStruct, SearchAttributeListStruct, AttributeVariables,
  deep_copy_into_attribute_parameters, deep_copy_into_attribute_observation,
  deep_copy_into_attribute_spec, deep_copy_into_attribute_status, deep_copy_into_attribute,
  deep_copy_into_attribute_list, deep_copy_attribute_list,
}

module _ {k : Kube} {C : Type 0} (f : Foreign k C) where
  abbrev pub attribute_parameters :
      Copyable C
        (SearchAttributeParametersStruct f)
        (SearchAttributeParameters k.Reference k.Selector)
  unfolding deep_copy_into_attribute_parameters
  attribute_parameters =
      by_fields
        (by_value {A = String}
          ⊕ by_value {A = String}
          ⊕ text_pointer f
          ⊕ reference_pointer f
          ⊕ selector_pointer f)
        (λ p. (
          p.name,
          (
            p.type,
            (
              p.temporal_namespace_name,
              (p.temporal_namespace_name_ref, p.temporal_namespace_name_selector),
            ),
          ),
        ))
        (λ p. (
          p.name,
          (
            p.type,
            (
              p.temporal_namespace_name,
              (p.temporal_namespace_name_ref, p.temporal_namespace_name_selector),
            ),
          ),
        ))
        (deep_copy_into_attribute_parameters f) (λ a h. refl)

  abbrev pub attribute_observation :
      Copyable C (SearchAttributeObservationStruct f) SearchAttributeObservation
  unfolding deep_copy_into_attribute_observation
  attribute_observation =
      by_fields (by_value {A = String} ⊕ by_value {A = String} ⊕ by_value {A = String})
        (λ p. (p.name, (p.type, p.temporal_namespace_name)))
        (λ p. (p.name, (p.type, p.temporal_namespace_name)))
        (deep_copy_into_attribute_observation f) (λ a h. refl)

  abbrev pub attribute_spec : Copyable C (SearchAttributeSpecStruct f) (SearchAttributeSpec k)
  unfolding deep_copy_into_attribute_spec
  attribute_spec =
      by_fields (f.resource_spec ⊕ reference_pointer f ⊕ attribute_parameters)
        (λ p. (p.resource_spec, (p.provider_reference, p.for_provider)))
        (λ p. (p.resource_spec, (p.provider_reference, p.for_provider)))
        (deep_copy_into_attribute_spec f) (λ a h. refl)

  -- An observation that is assigned.
  abbrev pub assigned_observation :
      Copyable C (SearchAttributeObservationStruct f) SearchAttributeObservation
  assigned_observation =
      by_fields (by_value {A = String} ⊕ by_value {A = String} ⊕ by_value {A = String})
        (λ p. (p.name, (p.type, p.temporal_namespace_name)))
        (λ p. (p.name, (p.type, p.temporal_namespace_name))) pure (λ a h. refl)

  abbrev pub attribute_status : Copyable C (SearchAttributeStatusStruct f) (SearchAttributeStatus k)
  unfolding deep_copy_into_attribute_status
  attribute_status =
      by_fields (f.resource_status ⊕ assigned_observation) (λ p. (p.resource_status, p.at_provider))
        (λ p. (p.resource_status, p.at_provider)) (deep_copy_into_attribute_status f) (λ a h. refl)

  abbrev pub attribute : Copyable C (SearchAttributeStruct f) (SearchAttribute k)
  unfolding deep_copy_into_attribute
  attribute =
      by_fields (by_value {A = k.TypeMeta} ⊕ f.object_meta ⊕ attribute_spec ⊕ attribute_status)
        (λ p. (p.type_meta, (p.object_meta, (p.spec, p.status))))
        (λ p. (p.type_meta, (p.object_meta, (p.spec, p.status)))) (deep_copy_into_attribute f)
        (λ a h. refl)

module _ {k : Kube} {C : Type 0} (f : Foreign k C) (s : AttributeVariables f) where
  abbrev pub attribute_list : Copyable C (SearchAttributeListStruct f) (SearchAttributeList k)
  unfolding deep_copy_into_attribute_list
  attribute_list =
      by_fields
        (by_value {A = k.TypeMeta}
          ⊕ f.list_meta
          ⊕ by_slice s.attributes s.attribute_arrays (attribute f))
        (λ p. (p.type_meta, (p.list_meta, p.items))) (λ p. (p.type_meta, (p.list_meta, p.items)))
        (deep_copy_into_attribute_list f s) (λ a h. refl)

  abbrev pub attribute_list_pointer : Copyable C (Option ℕ) (Option (SearchAttributeList k))
  attribute_list_pointer = by_pointer s.attribute_lists attribute_list

  -- DeepCopy of a SearchAttributeList, for a pointer that reads as `v` by variables from `lo` on
  -- and below the next free one, and deep copies of the foreign parts as Foreign asks for them:
  -- afterwards the list and its copy both read as `v`, the copy by new variables alone, and a write
  -- to an old variable leaves the copy as it is, a write to a new one the original.
  pub deep_copy_attribute_list-Separate :
      (lo : ℕ) (h : Memory C) (p : Option ℕ) (v : Option (SearchAttributeList k)) (x : ℕ) (c : C)
      → attribute_list_pointer.layout.Reads lo h.next h p v
      → Separate attribute_list_pointer.layout lo p v h x c (deep_copy_attribute_list f s p h)
  unfolding deep_copy_attribute_list deep_copy_into_attribute_list attribute_list
  deep_copy_attribute_list-Separate =
      Separate-copy attribute_list_pointer.layout attribute_list_pointer.deep_copy_into
        attribute_list_pointer.copies
