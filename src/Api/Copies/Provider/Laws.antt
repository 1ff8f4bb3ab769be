-- ===== src/Api/Copies/Provider/Laws.antt =====
-- The deep copies of provider types, each by those of its fields.
use provider_temporal.Base.{ℕ, refl, Option}
use provider_temporal.Api.Kube.{Kube}
use provider_temporal.Api.ProviderConfig.{
  ProviderCredentials, ProviderConfigSpec, ProviderConfigStatus, ProviderConfig, ProviderConfigList,
}
use provider_temporal.Api.ProviderConfigUsage.{ProviderConfigUsage, ProviderConfigUsageList}
use provider_temporal.Go.Memory.{Memory}
use provider_temporal.Go.Memory.Regions.{Separate, Separate-copy}
use provider_temporal.Go.Memory.Copyable.{Copyable, by_value, ◌⊕◌, by_pointer, by_slice, by_fields}
use provider_temporal.Api.Copies.Foreign.{Foreign}
use provider_temporal.Api.Copies.Provider.{
  ProviderCredentialsStruct, ProviderConfigSpecStruct, ProviderConfigStatusStruct,
  ProviderConfigStruct, ProviderConfigUsageStruct, ProviderConfigListStruct,
  ProviderConfigUsageListStruct, ProviderVariables, deep_copy_into_credentials,
  deep_copy_into_config_spec, deep_copy_into_config_status, deep_copy_into_config,
  deep_copy_into_usage, deep_copy_into_config_list, deep_copy_into_usage_list,
  deep_copy_config_list, deep_copy_usage_list,
}

module _ {k : Kube} {C : Type 0} (f : Foreign k C) where
  abbrev pub credentials : Copyable C (ProviderCredentialsStruct f) (ProviderCredentials k)
  unfolding deep_copy_into_credentials
  credentials =
      by_fields (by_value {A = k.CredentialsSource} ⊕ f.common_credential_selectors)
        (λ p. (p.source, p.common_credential_selectors))
        (λ p. (p.source, p.common_credential_selectors)) (deep_copy_into_credentials f)
        (λ a h. refl)

  abbrev pub config_spec : Copyable C (ProviderConfigSpecStruct f) (ProviderConfigSpec k)
  unfolding deep_copy_into_config_spec
  config_spec =
      by_fields (credentials) (λ p. p.credentials) (λ p. p.credentials)
        (deep_copy_into_config_spec f) (λ a h. refl)

  abbrev pub config_status : Copyable C (ProviderConfigStatusStruct f) (ProviderConfigStatus k)
  unfolding deep_copy_into_config_status
  config_status =
      by_fields (f.provider_config_status) (λ p. p.provider_config_status)
        (λ p. p.provider_config_status) (deep_copy_into_config_status f) (λ a h. refl)

  abbrev pub config : Copyable C (ProviderConfigStruct f) (ProviderConfig k)
  unfolding deep_copy_into_config
  config =
      by_fields (by_value {A = k.TypeMeta} ⊕ f.object_meta ⊕ config_spec ⊕ config_status)
        (λ p. (p.type_meta, (p.object_meta, (p.spec, p.status))))
        (λ p. (p.type_meta, (p.object_meta, (p.spec, p.status)))) (deep_copy_into_config f)
        (λ a h. refl)

  abbrev pub usage : Copyable C (ProviderConfigUsageStruct f) (ProviderConfigUsage k)
  unfolding deep_copy_into_usage
  usage =
      by_fields (by_value {A = k.TypeMeta} ⊕ f.object_meta ⊕ f.provider_config_usage)
        (λ p. (p.type_meta, (p.object_meta, p.provider_config_usage)))
        (λ p. (p.type_meta, (p.object_meta, p.provider_config_usage))) (deep_copy_into_usage f)
        (λ a h. refl)

module _ {k : Kube} {C : Type 0} (f : Foreign k C) (s : ProviderVariables f) where
  abbrev pub config_list : Copyable C (ProviderConfigListStruct f) (ProviderConfigList k)
  unfolding deep_copy_into_config_list
  config_list =
      by_fields
        (by_value {A = k.TypeMeta} ⊕ f.list_meta ⊕ by_slice s.configs s.config_arrays (config f))
        (λ p. (p.type_meta, (p.list_meta, p.items))) (λ p. (p.type_meta, (p.list_meta, p.items)))
        (deep_copy_into_config_list f s) (λ a h. refl)

  abbrev pub config_list_pointer : Copyable C (Option ℕ) (Option (ProviderConfigList k))
  config_list_pointer = by_pointer s.config_lists config_list

  -- DeepCopy of a ProviderConfigList, for a pointer that reads as `v` by variables from `lo` on and
  -- below the next free one, and deep copies of the foreign parts as Foreign asks for them:
  -- afterwards the list and its copy both read as `v`, the copy by new variables alone, and a write
  -- to an old variable leaves the copy as it is, a write to a new one the original.
  pub deep_copy_config_list-Separate :
      (lo : ℕ) (h : Memory C) (p : Option ℕ) (v : Option (ProviderConfigList k)) (x : ℕ) (c : C)
      → config_list_pointer.layout.Reads lo h.next h p v
      → Separate config_list_pointer.layout lo p v h x c (deep_copy_config_list f s p h)
  unfolding deep_copy_config_list deep_copy_into_config_list config_list
  deep_copy_config_list-Separate =
      Separate-copy config_list_pointer.layout config_list_pointer.deep_copy_into
        config_list_pointer.copies

  abbrev pub usage_list : Copyable C (ProviderConfigUsageListStruct f) (ProviderConfigUsageList k)
  unfolding deep_copy_into_usage_list
  usage_list =
      by_fields
        (by_value {A = k.TypeMeta} ⊕ f.list_meta ⊕ by_slice s.usages s.usage_arrays (usage f))
        (λ p. (p.type_meta, (p.list_meta, p.items))) (λ p. (p.type_meta, (p.list_meta, p.items)))
        (deep_copy_into_usage_list f s) (λ a h. refl)

  abbrev pub usage_list_pointer : Copyable C (Option ℕ) (Option (ProviderConfigUsageList k))
  usage_list_pointer = by_pointer s.usage_lists usage_list

  -- DeepCopy of a list.
  pub deep_copy_usage_list-Separate :
      (lo : ℕ) (h : Memory C) (p : Option ℕ) (v : Option (ProviderConfigUsageList k)) (x : ℕ)
      (c : C)
      → usage_list_pointer.layout.Reads lo h.next h p v
      → Separate usage_list_pointer.layout lo p v h x c (deep_copy_usage_list f s p h)
  unfolding deep_copy_usage_list deep_copy_into_usage_list usage_list
  deep_copy_usage_list-Separate =
      Separate-copy usage_list_pointer.layout usage_list_pointer.deep_copy_into
        usage_list_pointer.copies
