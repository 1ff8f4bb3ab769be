-- ===== src/Api/Accessors.antt =====
-- The generated accessors of apis/core/v1alpha1/zz_generated.managed.go and apis/v1alpha1, and those of
-- storeconfig_types.go. What they read and write of crossplane-runtime's structs is a parameter.
pub mod Namespace
pub mod Attribute
pub mod Provider
use provider_temporal.Base.{◌≡◌, ap, ◌∙◌, Option, List}
use provider_temporal.Base.Int.{ℤ}
use provider_temporal.Api.Kube.{Kube}

-- A field of a struct.
pub record Field (S A : Type 0) : Type 0 where
  pub get : S → A
  pub set : A → S → S
  pub get-set : (a : A) (s : S) → get (set a s) ≡ a
  pub set-get : (s : S) → set (get s) s ≡ s
  pub set-set : (a b : A) (s : S) → set b (set a s) ≡ set b s

pub record Fields (k : Kube) : Type 1 where
  pub DeletionPolicy : Type 0
  pub ManagementPolicies : Type 0
  pub PublishConnectionDetailsTo : Type 0
  pub SecretReference : Type 0
  pub ConditionType : Type 0
  pub ConditionValue : Type 0
  pub TypedReference : Type 0
  pub deletion_policy : Field k.ResourceSpec DeletionPolicy
  pub management_policies : Field k.ResourceSpec ManagementPolicies
  pub provider_config_reference : Field k.ResourceSpec (Option k.Reference)
  pub publish_connection_details_to : Field k.ResourceSpec (Option PublishConnectionDetailsTo)
  pub write_connection_secret_to_reference : Field k.ResourceSpec (Option SecretReference)
  pub get_condition : k.ResourceStatus → ConditionType → ConditionValue
  pub config_get_condition : k.ProviderConfigStatus → ConditionType → ConditionValue
  pub config_set_conditions : k.ProviderConfigStatus → List ConditionValue → k.ProviderConfigStatus
  pub users : Field k.ProviderConfigStatus ℤ
  pub usage_config_reference : Field k.ProviderConfigUsage k.Reference
  pub usage_resource_reference : Field k.ProviderConfigUsage TypedReference
  pub store_get_condition : k.ConditionedStatus → ConditionType → ConditionValue
  pub store_set_conditions : k.ConditionedStatus → List ConditionValue → k.ConditionedStatus

-- The same field of a struct that embeds the first.
module _ {S T A : Type 0} (outer : Field T S) (inner : Field S A) where
  abbrev pub embedded : Field T A
  embedded = record {
    get = λ t. inner.get (outer.get t);
    set = λ a t. outer.set (inner.set a (outer.get t)) t;
    get-set = λ a t. ap inner.get (outer.get-set _ t) ∙ inner.get-set a (outer.get t);
    set-get = λ t. ap (λ s. outer.set s t) (inner.set-get (outer.get t)) ∙ outer.set-get t;
    set-set = λ a b t.
        ap (λ s. outer.set (inner.set b s) (outer.set (inner.set a (outer.get t)) t))
          (outer.get-set _ t)
        ∙ outer.set-set _ _ t
        ∙ ap (λ s. outer.set s t) (inner.set-set a b (outer.get t));
  }
