-- ===== src/Api/Accessors/Provider.antt =====
-- apis/v1alpha1: the accessors of ProviderConfig, ProviderConfigUsage and StoreConfig.
use provider_temporal.Base.{refl, List}
use provider_temporal.Base.Int.{ℤ}
use provider_temporal.Api.Kube.{Kube}
use provider_temporal.Api.ProviderConfig.{ProviderConfig}
use provider_temporal.Api.ProviderConfigUsage.{ProviderConfigUsage}
use provider_temporal.Api.StoreConfig.{StoreConfig}
use provider_temporal.Api.Accessors.{Field, Fields, embedded}

module _ {k : Kube} (f : Fields k) where
  abbrev provider_config_status : Field (ProviderConfig k) k.ProviderConfigStatus
  provider_config_status = record {
    get = λ p. p.status.provider_config_status;
    set = λ s p. record p { status = record { provider_config_status = s } };
    get-set = λ a p. refl;
    set-get = λ p. refl;
    set-set = λ a b p. refl;
  }

  unfoldable pub config_get_condition : ProviderConfig k → f.ConditionType → f.ConditionValue
  config_get_condition p ct = f.config_get_condition p.status.provider_config_status ct

  unfoldable pub config_set_conditions : List f.ConditionValue → ProviderConfig k → ProviderConfig k
  config_set_conditions c p = record p {
    status = record {
      provider_config_status = f.config_set_conditions p.status.provider_config_status c;
    };
  }

  unfoldable pub get_users : ProviderConfig k → ℤ
  get_users p = f.users.get p.status.provider_config_status

  unfoldable pub set_users : ℤ → ProviderConfig k → ProviderConfig k
  set_users i p = record p {
    status = record { provider_config_status = f.users.set i p.status.provider_config_status };
  }

  abbrev pub users : Field (ProviderConfig k) ℤ
  unfolding get_users set_users
  users = record (embedded provider_config_status f.users) { get = get_users; set = set_users }

  abbrev provider_config_usage : Field (ProviderConfigUsage k) k.ProviderConfigUsage
  provider_config_usage = record {
    get = λ p. p.provider_config_usage;
    set = λ s p. record p { provider_config_usage = s };
    get-set = λ a p. refl;
    set-get = λ p. refl;
    set-set = λ a b p. refl;
  }

  unfoldable pub usage_get_provider_config_reference : ProviderConfigUsage k → k.Reference
  usage_get_provider_config_reference p = f.usage_config_reference.get p.provider_config_usage

  unfoldable pub usage_set_provider_config_reference :
      k.Reference → ProviderConfigUsage k → ProviderConfigUsage k
  usage_set_provider_config_reference r p = record p {
    provider_config_usage = f.usage_config_reference.set r p.provider_config_usage;
  }

  abbrev pub usage_config_reference : Field (ProviderConfigUsage k) k.Reference
  unfolding usage_get_provider_config_reference usage_set_provider_config_reference
  usage_config_reference = record (embedded provider_config_usage f.usage_config_reference) {
    get = usage_get_provider_config_reference;
    set = usage_set_provider_config_reference;
  }

  unfoldable pub get_resource_reference : ProviderConfigUsage k → f.TypedReference
  get_resource_reference p = f.usage_resource_reference.get p.provider_config_usage

  unfoldable pub set_resource_reference :
      f.TypedReference → ProviderConfigUsage k → ProviderConfigUsage k
  set_resource_reference r p = record p {
    provider_config_usage = f.usage_resource_reference.set r p.provider_config_usage;
  }

  abbrev pub usage_resource_reference : Field (ProviderConfigUsage k) f.TypedReference
  unfolding get_resource_reference set_resource_reference
  usage_resource_reference = record (embedded provider_config_usage f.usage_resource_reference) {
    get = get_resource_reference;
    set = set_resource_reference;
  }

  unfoldable pub get_store_config : StoreConfig k → k.SecretStoreConfig
  get_store_config s = s.spec.secret_store_config

  unfoldable pub store_get_condition : StoreConfig k → f.ConditionType → f.ConditionValue
  store_get_condition s ct = f.store_get_condition s.status.conditioned_status ct

  unfoldable pub store_set_conditions : List f.ConditionValue → StoreConfig k → StoreConfig k
  store_set_conditions c s = record s {
    status = record { conditioned_status = f.store_set_conditions s.status.conditioned_status c };
  }
