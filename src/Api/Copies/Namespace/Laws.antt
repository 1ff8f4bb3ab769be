-- ===== src/Api/Copies/Namespace/Laws.antt =====
-- The deep copies of TemporalNamespace and of its parts, each by those of its fields.
use provider_temporal.Base.{ℕ, refl, String, Option}
use provider_temporal.Base.Int.{ℤ}
use provider_temporal.Api.Kube.{Kube}
use provider_temporal.Api.Namespace.{
  TemporalNamespaceParameters, TemporalNamespaceObservation, TemporalNamespaceSpec,
  TemporalNamespaceStatus, TemporalNamespace, TemporalNamespaceList,
}
use provider_temporal.Go.Memory.{Memory}
use provider_temporal.Go.Memory.Regions.{Separate, Separate-copy}
use provider_temporal.Go.Memory.Copyable.{Copyable, by_value, ◌⊕◌, by_pointer, by_slice, by_fields}
use provider_temporal.Api.Copies.Foreign.{Foreign, text_pointer, map_pointer, reference_pointer}
use provider_temporal.Api.Copies.Namespace.{
  TemporalNamespaceParametersStruct, TemporalNamespaceObservationStruct,
  TemporalNamespaceSpecStruct, TemporalNamespaceStatusStruct, TemporalNamespaceStruct,
  TemporalNamespaceListStruct, NamespaceVariables, deep_copy_into_parameters,
  deep_copy_into_observation, deep_copy_into_spec, deep_copy_into_status, deep_copy_into_namespace,
  deep_copy_into_list, deep_copy_list, deep_copy_namespace,
}

module _ {k : Kube} {C : Type 0} (f : Foreign k C) where
  abbrev pub parameters : Copyable C TemporalNamespaceParametersStruct TemporalNamespaceParameters
  unfolding deep_copy_into_parameters
  parameters =
      by_fields
        (by_value {A = String}
          ⊕ text_pointer f
          ⊕ text_pointer f
          ⊕ by_value {A = ℤ}
          ⊕ map_pointer f
          ⊕ by_value {A = String}
          ⊕ text_pointer f
          ⊕ by_value {A = String}
          ⊕ text_pointer f)
        (λ p. (
          p.name,
          (
            p.description,
            (
              p.owner_email,
              (
                p.workflow_execution_retention_days,
                (
                  p.data_map,
                  (
                    p.history_archival_state,
                    (
                      p.history_archival_uri,
                      (p.visibility_archival_state, p.visibility_archival_uri),
                    ),
                  ),
                ),
              ),
            ),
          ),
        ))
        (λ p. (
          p.name,
          (
            p.description,
            (
              p.owner_email,
              (
                p.workflow_execution_retention_days,
                (
                  p.data_map,
                  (
                    p.history_archival_state,
                    (
                      p.history_archival_uri,
                      (p.visibility_archival_state, p.visibility_archival_uri),
                    ),
                  ),
                ),
              ),
            ),
          ),
        ))
        (deep_copy_into_parameters f) (λ a h. refl)

  abbrev pub observation :
      Copyable C TemporalNamespaceObservationStruct TemporalNamespaceObservation
  unfolding deep_copy_into_observation
  observation =
      by_fields
        (by_value {A = String}
          ⊕ by_value {A = String}
          ⊕ text_pointer f
          ⊕ text_pointer f
          ⊕ by_value {A = ℤ}
          ⊕ map_pointer f
          ⊕ by_value {A = String}
          ⊕ text_pointer f
          ⊕ by_value {A = String}
          ⊕ text_pointer f
          ⊕ by_value {A = String})
        (λ p. (
          p.id,
          (
            p.name,
            (
              p.description,
              (
                p.owner_email,
                (
                  p.workflow_execution_retention_days,
                  (
                    p.data_map,
                    (
                      p.history_archival_state,
                      (
                        p.history_archival_uri,
                        (p.visibility_archival_state, (p.visibility_archival_uri, p.state)),
                      ),
                    ),
                  ),
                ),
              ),
            ),
          ),
        ))
        (λ p. (
          p.id,
          (
            p.name,
            (
              p.description,
              (
                p.owner_email,
                (
                  p.workflow_execution_retention_days,
                  (
                    p.data_map,
                    (
                      p.history_archival_state,
                      (
                        p.history_archival_uri,
                        (p.visibility_archival_state, (p.visibility_archival_uri, p.state)),
                      ),
                    ),
                  ),
                ),
              ),
            ),
          ),
        ))
        (deep_copy_into_observation f) (λ a h. refl)

  abbrev pub spec : Copyable C (TemporalNamespaceSpecStruct f) (TemporalNamespaceSpec k)
  unfolding deep_copy_into_spec
  spec =
      by_fields (f.resource_spec ⊕ reference_pointer f ⊕ parameters)
        (λ p. (p.resource_spec, (p.provider_reference, p.for_provider)))
        (λ p. (p.resource_spec, (p.provider_reference, p.for_provider))) (deep_copy_into_spec f)
        (λ a h. refl)

  abbrev pub status : Copyable C (TemporalNamespaceStatusStruct f) (TemporalNamespaceStatus k)
  unfolding deep_copy_into_status
  status =
      by_fields (f.resource_status ⊕ observation) (λ p. (p.resource_status, p.at_provider))
        (λ p. (p.resource_status, p.at_provider)) (deep_copy_into_status f) (λ a h. refl)

  abbrev pub namespace : Copyable C (TemporalNamespaceStruct f) (TemporalNamespace k)
  unfolding deep_copy_into_namespace
  namespace =
      by_fields (by_value {A = k.TypeMeta} ⊕ f.object_meta ⊕ spec ⊕ status)
        (λ p. (p.type_meta, (p.object_meta, (p.spec, p.status))))
        (λ p. (p.type_meta, (p.object_meta, (p.spec, p.status)))) (deep_copy_into_namespace f)
        (λ a h. refl)

module _ {k : Kube} {C : Type 0} (f : Foreign k C) (s : NamespaceVariables f) where
  abbrev pub list : Copyable C (TemporalNamespaceListStruct f) (TemporalNamespaceList k)
  unfolding deep_copy_into_list
  list =
      by_fields
        (by_value {A = k.TypeMeta} ⊕ f.list_meta ⊕ by_slice s.namespaces s.arrays (namespace f))
        (λ p. (p.type_meta, (p.list_meta, p.items))) (λ p. (p.type_meta, (p.list_meta, p.items)))
        (deep_copy_into_list f s) (λ a h. refl)

  abbrev pub namespace_pointer : Copyable C (Option ℕ) (Option (TemporalNamespace k))
  namespace_pointer = by_pointer s.namespaces (namespace f)

  abbrev pub list_pointer : Copyable C (Option ℕ) (Option (TemporalNamespaceList k))
  list_pointer = by_pointer s.lists list

  -- DeepCopy of a TemporalNamespace, for a pointer that reads as `v` by variables from `lo` on and
  -- below the next free one, and deep copies of the foreign parts as Foreign asks for them:
  -- afterwards the pointer and its copy both read as `v`, the copy by new variables alone; whatever
  -- is then written to an old variable leaves the copy as it is, and whatever is written to a new
  -- one leaves the original.
  pub deep_copy_namespace-Separate :
      (lo : ℕ) (h : Memory C) (p : Option ℕ) (v : Option (TemporalNamespace k)) (x : ℕ) (c : C)
      → namespace_pointer.layout.Reads lo h.next h p v
      → Separate namespace_pointer.layout lo p v h x c (deep_copy_namespace f s p h)
  unfolding deep_copy_namespace deep_copy_into_namespace namespace
  deep_copy_namespace-Separate =
      Separate-copy namespace_pointer.layout namespace_pointer.deep_copy_into
        namespace_pointer.copies

  -- DeepCopy of a TemporalNamespaceList, under the same conditions: the list and its copy both read
  -- as `v`, each item included, the copy by new variables alone, and a write to an old variable
  -- leaves the copy as it is, a write to a new one the original.
  pub deep_copy_list-Separate :
      (lo : ℕ) (h : Memory C) (p : Option ℕ) (v : Option (TemporalNamespaceList k)) (x : ℕ) (c : C)
      → list_pointer.layout.Reads lo h.next h p v
      → Separate list_pointer.layout lo p v h x c (deep_copy_list f s p h)
  unfolding deep_copy_list deep_copy_into_list list
  deep_copy_list-Separate =
      Separate-copy list_pointer.layout list_pointer.deep_copy_into list_pointer.copies
