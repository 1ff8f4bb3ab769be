-- ===== src/Api/ProviderConfig.antt =====
-- apis/v1alpha1/providerconfig_types.go: where the credentials of a Temporal server are.
use provider_temporal.Base.{Option, List}
use provider_temporal.Api.Kube.{Kube}

module _ (k : Kube) where
  open k use {TypeMeta, ObjectMeta, CredentialsSource, CommonCredentialSelectors}

  pub record ProviderCredentials : Type 0 where
    pub source : CredentialsSource
    pub common_credential_selectors : CommonCredentialSelectors

  pub record ProviderConfigSpec : Type 0 where
    pub credentials : ProviderCredentials

  pub record ProviderConfigStatus : Type 0 where
    pub provider_config_status : k.ProviderConfigStatus

  pub record ProviderConfig : Type 0 where
    pub type_meta : TypeMeta
    pub object_meta : ObjectMeta
    pub spec : ProviderConfigSpec
    pub status : ProviderConfigStatus

  pub record ProviderConfigList : Type 0 where
    pub type_meta : TypeMeta
    pub list_meta : k.ListMeta
    pub items : Option (List ProviderConfig)
