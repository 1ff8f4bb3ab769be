-- ===== src/Api/Kube.antt =====
-- What the resources take from Kubernetes and crossplane-runtime, as a parameter: the types that this
-- code carries and does not look into, and the functions of them that it calls.
use provider_temporal.Base.{String, Option}
use provider_temporal.Go.Json.{Json}

-- xpv1.Available(), Unavailable() and Deleting(), each with the message that WithMessage sets.
pub data Condition : Type 0 where
  available unavailable deleting : String → Condition

pub record Kube : Type 1 where
  pub TypeMeta : Type 0
  pub ObjectMeta : Type 0
  pub ResourceSpec : Type 0
  pub ResourceStatus : Type 0
  pub Reference : Type 0
  pub Selector : Type 0
  pub CredentialsSource : Type 0
  pub CommonCredentialSelectors : Type 0
  pub ProviderConfigStatus : Type 0
  pub ListMeta : Type 0
  pub ProviderConfigUsage : Type 0
  pub SecretStoreConfig : Type 0
  pub ConditionedStatus : Type 0
  pub provider_config_reference : ResourceSpec → Option Reference
  pub reference_name : Reference → String
  pub get_external_name : ObjectMeta → String
  pub set_external_name : ObjectMeta → String → ObjectMeta
  pub set_conditions : ResourceStatus → Condition → ResourceStatus
  pub reference_json : Reference → Json
  pub selector_json : Selector → Json
