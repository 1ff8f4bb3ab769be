-- ===== src/Api/StoreConfig.antt =====
-- apis/v1alpha1/storeconfig_types.go: where connection details are stored.
use provider_temporal.Base.{Option, List}
use provider_temporal.Api.Kube.{Kube}

module _ (k : Kube) where
  open k use {TypeMeta, ObjectMeta}

  pub record StoreConfigSpec : Type 0 where
    pub secret_store_config : k.SecretStoreConfig

  pub record StoreConfigStatus : Type 0 where
    pub conditioned_status : k.ConditionedStatus

  pub record StoreConfig : Type 0 where
    pub type_meta : TypeMeta
    pub object_meta : ObjectMeta
    pub spec : StoreConfigSpec
    pub status : StoreConfigStatus

  pub record StoreConfigList : Type 0 where
    pub type_meta : TypeMeta
    pub list_meta : k.ListMeta
    pub items : Option (List StoreConfig)
