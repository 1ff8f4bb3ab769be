-- ===== src/Api/Accessors/Namespace.antt =====
-- apis/core/v1alpha1/zz_generated.managed.go: the accessors of TemporalNamespace, and that each pair is a field of it.
use provider_temporal.Base.{refl, Option}
use provider_temporal.Api.Kube.{Kube}
use provider_temporal.Api.Namespace.{TemporalNamespace}
use provider_temporal.Api.Accessors.{Field, Fields, embedded}

module _ {k : Kube} (f : Fields k) where
  abbrev resource_spec : Field (TemporalNamespace k) k.ResourceSpec
  resource_spec = record {
    get = λ cr. cr.spec.resource_spec;
    set = λ s cr. record cr { spec = record (cr.spec) { resource_spec = s } };
    get-set = λ a cr. refl;
    set-get = λ cr. refl;
    set-set = λ a b cr. refl;
  }

  unfoldable pub get_condition : TemporalNamespace k → f.ConditionType → f.ConditionValue
  get_condition cr ct = f.get_condition cr.status.resource_status ct

  unfoldable pub get_provider_reference : TemporalNamespace k → Option k.Reference
  get_provider_reference cr = cr.spec.provider_reference

  unfoldable pub set_provider_reference :
      Option k.Reference → TemporalNamespace k → TemporalNamespace k
  set_provider_reference r cr = record cr { spec = record (cr.spec) { provider_reference = r } }

  abbrev pub provider_reference : Field (TemporalNamespace k) (Option k.Reference)
  unfolding get_provider_reference set_provider_reference
  provider_reference = record {
    get = get_provider_reference;
    set = set_provider_reference;
    get-set = λ a cr. refl;
    set-get = λ cr. refl;
    set-set = λ a b cr. refl;
  }

  unfoldable pub get_deletion_policy : TemporalNamespace k → f.DeletionPolicy
  get_deletion_policy cr = f.deletion_policy.get cr.spec.resource_spec

  unfoldable pub set_deletion_policy : f.DeletionPolicy → TemporalNamespace k → TemporalNamespace k
  set_deletion_policy r cr = record cr {
    spec = record (cr.spec) { resource_spec = f.deletion_policy.set r cr.spec.resource_spec };
  }

  abbrev pub deletion_policy : Field (TemporalNamespace k) f.DeletionPolicy
  unfolding get_deletion_policy set_deletion_policy
  deletion_policy = record (embedded resource_spec f.deletion_policy) {
    get = get_deletion_policy;
    set = set_deletion_policy;
  }

  unfoldable pub get_management_policies : TemporalNamespace k → f.ManagementPolicies
  get_management_policies cr = f.management_policies.get cr.spec.resource_spec

  unfoldable pub set_management_policies :
      f.ManagementPolicies → TemporalNamespace k → TemporalNamespace k
  set_management_policies r cr = record cr {
    spec = record (cr.spec) { resource_spec = f.management_policies.set r cr.spec.resource_spec };
  }

  abbrev pub management_policies : Field (TemporalNamespace k) f.ManagementPolicies
  unfolding get_management_policies set_management_policies
  management_policies = record (embedded resource_spec f.management_policies) {
    get = get_management_policies;
    set = set_management_policies;
  }

  unfoldable pub get_provider_config_reference : TemporalNamespace k → Option k.Reference
  get_provider_config_reference cr = f.provider_config_reference.get cr.spec.resource_spec

  unfoldable pub set_provider_config_reference :
      Option k.Reference → TemporalNamespace k → TemporalNamespace k
  set_provider_config_reference r cr = record cr {
    spec = record (cr.spec) {
      resource_spec = f.provider_config_reference.set r cr.spec.resource_spec;
    };
  }

  abbrev pub provider_config_reference : Field (TemporalNamespace k) (Option k.Reference)
  unfolding get_provider_config_reference set_provider_config_reference
  provider_config_reference = record (embedded resource_spec f.provider_config_reference) {
    get = get_provider_config_reference;
    set = set_provider_config_reference;
  }

  unfoldable pub get_publish_connection_details_to :
      TemporalNamespace k → Option f.PublishConnectionDetailsTo
  get_publish_connection_details_to cr = f.publish_connection_details_to.get cr.spec.resource_spec

  unfoldable pub set_publish_connection_details_to :
      Option f.PublishConnectionDetailsTo → TemporalNamespace k → TemporalNamespace k
  set_publish_connection_details_to r cr = record cr {
    spec = record (cr.spec) {
      resource_spec = f.publish_connection_details_to.set r cr.spec.resource_spec;
    };
  }

  abbrev pub publish_connection_details_to :
      Field (TemporalNamespace k) (Option f.PublishConnectionDetailsTo)
  unfolding get_publish_connection_details_to set_publish_connection_details_to
  publish_connection_details_to = record (embedded resource_spec f.publish_connection_details_to) {
    get = get_publish_connection_details_to;
    set = set_publish_connection_details_to;
  }

  unfoldable pub get_write_connection_secret_to_reference :
      TemporalNamespace k → Option f.SecretReference
  get_write_connection_secret_to_reference cr =
      f.write_connection_secret_to_reference.get cr.spec.resource_spec

  unfoldable pub set_write_connection_secret_to_reference :
      Option f.SecretReference → TemporalNamespace k → TemporalNamespace k
  set_write_connection_secret_to_reference r cr = record cr {
    spec = record (cr.spec) {
      resource_spec = f.write_connection_secret_to_reference.set r cr.spec.resource_spec;
    };
  }

  abbrev pub write_connection_secret_to_reference :
      Field (TemporalNamespace k) (Option f.SecretReference)
  unfolding get_write_connection_secret_to_reference set_write_connection_secret_to_reference
  write_connection_secret_to_reference =
      record (embedded resource_spec f.write_connection_secret_to_reference) {
        get = get_write_connection_secret_to_reference;
        set = set_write_connection_secret_to_reference;
      }
