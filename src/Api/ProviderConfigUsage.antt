-- ===== src/Api/ProviderConfigUsage.antt =====
-- apis/v1alpha1/providerconfigusage_types.go: which resource uses which ProviderConfig.
use provider_temporal.Base.{Option, List}
use provider_temporal.Api.Kube.{Kube}

module _ (k : Kube) where
  open k use {TypeMeta, ObjectMeta}

  pub record ProviderConfigUsage : Type 0 where
    pub type_meta : TypeMeta
    pub object_meta : ObjectMeta
    pub provider_config_usage : k.ProviderConfigUsage

  pub record ProviderConfigUsageList : Type 0 where
    pub type_meta : TypeMeta
    pub list_meta : k.ListMeta
    pub items : Option (List ProviderConfigUsage)
