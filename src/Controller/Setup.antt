-- ===== src/Controller/Setup.antt =====
-- internal/controller/temporal.go and the Setup functions of internal/controller/config,
-- internal/controller/temporalnamespace and internal/controller/searchattribute.
use provider_temporal.Base.{String, true, false, List, [], ◌∷◌, ◌++◌, if◌then◌else◌}
use provider_temporal.Go.Effects.{Action, ◌>>=◌, ◌>>◌, pure, call, attempt, or_raise}
use provider_temporal.Api.Scheme.{
  provider_config, provider_config_usage, temporal_namespace, search_attribute,
  provider_config_group_kind, provider_config_group_version_kind,
  provider_config_usage_list_group_version_kind, store_config_group_version_kind,
  temporal_namespace_group_kind, temporal_namespace_group_version_kind, search_attribute_group_kind,
  search_attribute_group_version_kind,
}
use provider_temporal.Controller.Runtime.{
  Options, new_namespace_service, new_search_attribute_service, ConnectionPublisher,
  api_secret_publisher, details_manager, managed_reconciler, config_reconciler, ControllerBuild,
  Runtime,
}

-- features.EnableAlphaExternalSecretStores and features.EnableAlphaManagementPolicies
abbrev pub enable_alpha_external_secret_stores : String
enable_alpha_external_secret_stores = "EnableAlphaExternalSecretStores"

abbrev pub enable_alpha_management_policies : String
enable_alpha_management_policies = "EnableAlphaManagementPolicies"

module _ {W C : Type 0} (rt : Runtime W C) where
  unfoldable pub connection_publishers : Options → List ConnectionPublisher
  connection_publishers o =
      let cps : List ConnectionPublisher = api_secret_publisher ∷ [] in
      if rt.enabled o.features enable_alpha_external_secret_stores
      then cps ++ (details_manager store_config_group_version_kind ∷ [])
      else cps

  unfoldable pub config_controller : Options → ControllerBuild
  config_controller o = record {
    name = rt.config_controller_name provider_config_group_kind;
    options = o;
    desired_state_changed = false;
    for_type = provider_config;
    watches = provider_config_usage ∷ [];
    reconciler = config_reconciler (record {
      config = provider_config_group_version_kind;
      usage_list = provider_config_usage_list_group_version_kind;
    });
  }

  unfoldable pub namespace_controller : Options → ControllerBuild
  unfolding connection_publishers
  namespace_controller o = record {
    name = rt.managed_controller_name temporal_namespace_group_kind;
    options = o;
    desired_state_changed = true;
    for_type = temporal_namespace;
    watches = [];
    reconciler = managed_reconciler (record {
      kind = temporal_namespace_group_version_kind;
      new_service = new_namespace_service;
      resolves_references = false;
      poll_interval = o.poll_interval;
      connection_publishers = connection_publishers o;
    });
  }

  unfoldable pub attribute_controller : Options → ControllerBuild
  unfolding connection_publishers
  attribute_controller o = record {
    name = rt.managed_controller_name search_attribute_group_kind;
    options = o;
    desired_state_changed = true;
    for_type = search_attribute;
    watches = [];
    reconciler = managed_reconciler (record {
      kind = search_attribute_group_version_kind;
      new_service = new_search_attribute_service;
      resolves_references = true;
      poll_interval = o.poll_interval;
      connection_publishers = connection_publishers o;
    });
  }

  abbrev pub completed : ControllerBuild → Action W (Unit {0})
  completed b = do r ← call (rt.complete b); or_raise r

  unfoldable pub setup_config : Options → Action W (Unit {0})
  unfolding config_controller
  setup_config o = completed (config_controller o)

  unfoldable pub setup_namespace : Options → Action W (Unit {0})
  unfolding namespace_controller
  setup_namespace o = completed (namespace_controller o)

  unfoldable pub setup_attribute : Options → Action W (Unit {0})
  unfolding attribute_controller
  setup_attribute o = completed (attribute_controller o)

  -- The loop of Setup.
  unfoldable pub setup_each : List (Options → Action W (Unit {0})) → Options → Action W (Unit {0})
  setup_each [] o = pure tt
  setup_each (setup ∷ rest) o = do r ← attempt (setup o); or_raise r; setup_each rest o

  unfoldable pub setup : Options → Action W (Unit {0})
  unfolding setup_each setup_config setup_namespace setup_attribute
  setup o = setup_each (setup_config ∷ setup_namespace ∷ setup_attribute ∷ []) o
