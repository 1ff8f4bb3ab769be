-- ===== src/Api/Copies/Provider.antt =====
-- apis/v1alpha1/zz_generated.deepcopy.go: the functions of ProviderConfig, of ProviderConfigUsage and of their parts.
pub mod Laws
use provider_temporal.Base.{ℕ, String, Option, List}
use provider_temporal.Api.Kube.{Kube}
use provider_temporal.Go.Memory.{Storable, Command, ◌>>=◌, pure, copy_pointer, copy_slice}
use provider_temporal.Api.Copies.Foreign.{
  Foreign, Object, as_object, config_object, usage_object, config_list_object, usage_list_object,
}

module _ {k : Kube} {C : Type 0} (f : Foreign k C) where
  pub record ProviderCredentialsStruct : Type 0 where
    pub source : k.CredentialsSource
    pub common_credential_selectors : f.CommonCredentialSelectors

  pub record ProviderConfigSpecStruct : Type 0 where
    pub credentials : ProviderCredentialsStruct

  pub record ProviderConfigStatusStruct : Type 0 where
    pub provider_config_status : f.ProviderConfigStatus

  pub record ProviderConfigStruct : Type 0 where
    pub type_meta : k.TypeMeta
    pub object_meta : f.ObjectMeta
    pub spec : ProviderConfigSpecStruct
    pub status : ProviderConfigStatusStruct

  pub record ProviderConfigUsageStruct : Type 0 where
    pub type_meta : k.TypeMeta
    pub object_meta : f.ObjectMeta
    pub provider_config_usage : f.ProviderConfigUsage

  unfoldable pub deep_copy_into_credentials :
      ProviderCredentialsStruct → Command C ProviderCredentialsStruct
  deep_copy_into_credentials s = do
    common_credential_selectors ←
        f.common_credential_selectors.deep_copy_into s.common_credential_selectors
    pure (record s { common_credential_selectors = common_credential_selectors })

  unfoldable pub deep_copy_into_config_spec :
      ProviderConfigSpecStruct → Command C ProviderConfigSpecStruct
  unfolding deep_copy_into_credentials
  deep_copy_into_config_spec s = do
    credentials ← deep_copy_into_credentials s.credentials
    pure (record { credentials = credentials })

  unfoldable pub deep_copy_into_config_status :
      ProviderConfigStatusStruct → Command C ProviderConfigStatusStruct
  deep_copy_into_config_status s = do
    provider_config_status ← f.provider_config_status.deep_copy_into s.provider_config_status
    pure (record { provider_config_status = provider_config_status })

  unfoldable pub deep_copy_into_config : ProviderConfigStruct → Command C ProviderConfigStruct
  unfolding deep_copy_into_config_spec deep_copy_into_config_status
  deep_copy_into_config s = do
    object_meta ← f.object_meta.deep_copy_into s.object_meta
    spec ← deep_copy_into_config_spec s.spec
    status ← deep_copy_into_config_status s.status
    pure (record s { object_meta = object_meta; spec = spec; status = status })

  unfoldable pub deep_copy_into_usage :
      ProviderConfigUsageStruct → Command C ProviderConfigUsageStruct
  deep_copy_into_usage s = do
    object_meta ← f.object_meta.deep_copy_into s.object_meta
    provider_config_usage ← f.provider_config_usage.deep_copy_into s.provider_config_usage
    pure (record s { object_meta = object_meta; provider_config_usage = provider_config_usage })

  pub record ProviderConfigListStruct : Type 0 where
    pub type_meta : k.TypeMeta
    pub list_meta : f.ListMeta
    pub items : Option ℕ

  pub record ProviderConfigUsageListStruct : Type 0 where
    pub type_meta : k.TypeMeta
    pub list_meta : f.ListMeta
    pub items : Option ℕ

  -- The variables of these types.
  pub record ProviderVariables : Type 0 where
    pub credentials : Storable C ProviderCredentialsStruct
    pub config_specs : Storable C ProviderConfigSpecStruct
    pub config_statuses : Storable C ProviderConfigStatusStruct
    pub configs : Storable C ProviderConfigStruct
    pub usages : Storable C ProviderConfigUsageStruct
    pub config_arrays : Storable C (List ProviderConfigStruct)
    pub config_lists : Storable C ProviderConfigListStruct
    pub usage_arrays : Storable C (List ProviderConfigUsageStruct)
    pub usage_lists : Storable C ProviderConfigUsageListStruct

module _ {k : Kube} {C : Type 0} (f : Foreign k C) (s : ProviderVariables f) where
  unfoldable pub deep_copy_into_config_list :
      ProviderConfigListStruct f → Command C (ProviderConfigListStruct f)
  unfolding deep_copy_into_config copy_slice
  deep_copy_into_config_list l = do
    list_meta ← f.list_meta.deep_copy_into l.list_meta
    items ← copy_slice s.configs s.config_arrays (deep_copy_into_config f) l.items
    pure (record l { list_meta = list_meta; items = items })

  unfoldable pub deep_copy_into_usage_list :
      ProviderConfigUsageListStruct f → Command C (ProviderConfigUsageListStruct f)
  unfolding deep_copy_into_usage copy_slice
  deep_copy_into_usage_list l = do
    list_meta ← f.list_meta.deep_copy_into l.list_meta
    items ← copy_slice s.usages s.usage_arrays (deep_copy_into_usage f) l.items
    pure (record l { list_meta = list_meta; items = items })

  -- DeepCopy of each type: nil for nil, or a new variable.
  unfoldable pub deep_copy_credentials : Option ℕ → Command C (Option ℕ)
  deep_copy_credentials = copy_pointer s.credentials (deep_copy_into_credentials f)

  unfoldable pub deep_copy_config_spec : Option ℕ → Command C (Option ℕ)
  deep_copy_config_spec = copy_pointer s.config_specs (deep_copy_into_config_spec f)

  unfoldable pub deep_copy_config_status : Option ℕ → Command C (Option ℕ)
  deep_copy_config_status = copy_pointer s.config_statuses (deep_copy_into_config_status f)

  unfoldable pub deep_copy_config : Option ℕ → Command C (Option ℕ)
  deep_copy_config = copy_pointer s.configs (deep_copy_into_config f)

  unfoldable pub deep_copy_usage : Option ℕ → Command C (Option ℕ)
  deep_copy_usage = copy_pointer s.usages (deep_copy_into_usage f)

  unfoldable pub deep_copy_config_list : Option ℕ → Command C (Option ℕ)
  unfolding deep_copy_into_config_list
  deep_copy_config_list = copy_pointer s.config_lists deep_copy_into_config_list

  unfoldable pub deep_copy_usage_list : Option ℕ → Command C (Option ℕ)
  unfolding deep_copy_into_usage_list
  deep_copy_usage_list = copy_pointer s.usage_lists deep_copy_into_usage_list

  -- DeepCopyObject of those that are a runtime.Object.
  unfoldable pub deep_copy_config_object : Option ℕ → Command C (Option Object)
  deep_copy_config_object p = do q ← deep_copy_config p; pure (as_object config_object q)

  unfoldable pub deep_copy_usage_object : Option ℕ → Command C (Option Object)
  deep_copy_usage_object p = do q ← deep_copy_usage p; pure (as_object usage_object q)

  unfoldable pub deep_copy_config_list_object : Option ℕ → Command C (Option Object)
  deep_copy_config_list_object p = do
    q ← deep_copy_config_list p
    pure (as_object config_list_object q)

  unfoldable pub deep_copy_usage_list_object : Option ℕ → Command C (Option Object)
  deep_copy_usage_list_object p = do
    q ← deep_copy_usage_list p
    pure (as_object usage_list_object q)
