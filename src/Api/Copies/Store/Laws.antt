-- ===== src/Api/Copies/Store/Laws.antt =====
-- The deep copies of store types, each by those of its fields.
use provider_temporal.Base.{ℕ, refl, Option}
use provider_temporal.Api.Kube.{Kube}
use provider_temporal.Api.StoreConfig.{
  StoreConfigSpec, StoreConfigStatus, StoreConfig, StoreConfigList,
}
use provider_temporal.Go.Memory.{Memory}
use provider_temporal.Go.Memory.Regions.{Separate, Separate-copy}
use provider_temporal.Go.Memory.Copyable.{Copyable, by_value, ◌⊕◌, by_pointer, by_slice, by_fields}
use provider_temporal.Api.Copies.Foreign.{Foreign}
use provider_temporal.Api.Copies.Store.{
  StoreConfigSpecStruct, StoreConfigStatusStruct, StoreConfigStruct, StoreConfigListStruct,
  StoreVariables, deep_copy_into_store_spec, deep_copy_into_store_status, deep_copy_into_store,
  deep_copy_into_store_list, deep_copy_store_list,
}

module _ {k : Kube} {C : Type 0} (f : Foreign k C) where
  abbrev pub store_spec : Copyable C (StoreConfigSpecStruct f) (StoreConfigSpec k)
  unfolding deep_copy_into_store_spec
  store_spec =
      by_fields (f.secret_store_config) (λ p. p.secret_store_config) (λ p. p.secret_store_config)
        (deep_copy_into_store_spec f) (λ a h. refl)

  abbrev pub store_status : Copyable C (StoreConfigStatusStruct f) (StoreConfigStatus k)
  unfolding deep_copy_into_store_status
  store_status =
      by_fields (f.conditioned_status) (λ p. p.conditioned_status) (λ p. p.conditioned_status)
        (deep_copy_into_store_status f) (λ a h. refl)

  abbrev pub store : Copyable C (StoreConfigStruct f) (StoreConfig k)
  unfolding deep_copy_into_store
  store =
      by_fields (by_value {A = k.TypeMeta} ⊕ f.object_meta ⊕ store_spec ⊕ store_status)
        (λ p. (p.type_meta, (p.object_meta, (p.spec, p.status))))
        (λ p. (p.type_meta, (p.object_meta, (p.spec, p.status)))) (deep_copy_into_store f)
        (λ a h. refl)

module _ {k : Kube} {C : Type 0} (f : Foreign k C) (s : StoreVariables f) where
  abbrev pub store_list : Copyable C (StoreConfigListStruct f) (StoreConfigList k)
  unfolding deep_copy_into_store_list
  store_list =
      by_fields
        (by_value {A = k.TypeMeta} ⊕ f.list_meta ⊕ by_slice s.stores s.store_arrays (store f))
        (λ p. (p.type_meta, (p.list_meta, p.items))) (λ p. (p.type_meta, (p.list_meta, p.items)))
        (deep_copy_into_store_list f s) (λ a h. refl)

  abbrev pub store_list_pointer : Copyable C (Option ℕ) (Option (StoreConfigList k))
  store_list_pointer = by_pointer s.store_lists store_list

  -- DeepCopy of a list.
  pub deep_copy_store_list-Separate :
      (lo : ℕ) (h : Memory C) (p : Option ℕ) (v : Option (StoreConfigList k)) (x : ℕ) (c : C)
      → store_list_pointer.layout.Reads lo h.next h p v
      → Separate store_list_pointer.layout lo p v h x c (deep_copy_store_list f s p h)
  unfolding deep_copy_store_list deep_copy_into_store_list store_list
  deep_copy_store_list-Separate =
      Separate-copy store_list_pointer.layout store_list_pointer.deep_copy_into
        store_list_pointer.copies
