-- ===== src/Controller/Runtime.antt =====
-- controller-runtime, crossplane-runtime and kingpin as the setup of the controllers and cmd/provider/main.go call
-- them: what they are given, as values, and the calls, a parameter. A manager has one client, one scheme and one
-- recorder, which every controller gets; they and the loggers are left out.
use provider_temporal.Base.{String, Bool, Option, List}
use provider_temporal.Base.Int.{ℤ}
use provider_temporal.Go.Effects.{Error, Reply}
use provider_temporal.Api.Scheme.{ObjectType, GroupKind, GroupVersionKind, SchemeBuilder}

-- controller.Options. `features` are the flags that were enabled, and `global_rate` is that of the rate limiter.
pub record Options : Type 0 where
  pub max_concurrent_reconciles : ℤ
  pub poll_interval : ℤ
  pub global_rate : ℤ
  pub features : List String

pub data ServiceConstructor : Type 0 where
  new_namespace_service new_search_attribute_service : ServiceConstructor

-- managed.ConnectionPublisher
pub data ConnectionPublisher : Type 0 where
  api_secret_publisher : ConnectionPublisher
  details_manager : GroupVersionKind → ConnectionPublisher

-- What managed.NewReconciler is given. The connector has a map of its own, empty; there are no initializers.
pub record ManagedReconciler : Type 0 where
  pub kind : GroupVersionKind
  pub new_service : ServiceConstructor
  pub resolves_references : Bool
  pub poll_interval : ℤ
  pub connection_publishers : List ConnectionPublisher

-- What providerconfig.NewReconciler is given.
pub record ConfigReconciler : Type 0 where
  pub config : GroupVersionKind
  pub usage_list : GroupVersionKind

pub data Reconciler : Type 0 where
  managed_reconciler : ManagedReconciler → Reconciler
  config_reconciler : ConfigReconciler → Reconciler

-- The calls on ctrl.NewControllerManagedBy(mgr).
pub record ControllerBuild : Type 0 where
  pub name : String
  pub options : Options
  pub desired_state_changed : Bool
  pub for_type : ObjectType
  pub watches : List ObjectType
  pub reconciler : Reconciler

-- resourcelock.LeasesResourceLock
pub data ResourceLock : Type 0 where
  leases : ResourceLock

-- ctrl.Options, with times in nanoseconds.
pub record ManagerOptions : Type 0 where
  pub sync_period : ℤ
  pub leader_election : Bool
  pub leader_election_id : String
  pub leader_election_resource_lock : ResourceLock
  pub lease_duration : ℤ
  pub renew_deadline : ℤ

-- What main sets of a StoreConfig.
pub record DefaultStoreConfig : Type 0 where
  pub name : String
  pub default_scope : String

-- A flag of the command line as it is declared.
pub record Flag : Type 0 where
  pub name : String
  pub short : Option String
  pub default_value : Option String
  pub environment : Option String

-- The values of the flags.
pub record Flags : Type 0 where
  pub debug : Bool
  pub leader_election : Bool
  pub sync_interval : ℤ
  pub poll_interval : ℤ
  pub max_reconcile_rate : ℤ
  pub namespace : String
  pub enable_external_secret_stores : Bool
  pub enable_management_policies : Bool

-- `C` is rest.Config.
pub record Runtime (W C : Type 0) : Type 0 where
  pub must_parse : List Flag → W → Reply Flags × W
  pub get_config : W → Reply C × W
  pub limit_rest_config : C → ℤ → C
  pub new_manager : C → ManagerOptions → W → Reply (Unit {0}) × W
  pub add_to_scheme : List SchemeBuilder → W → Reply (Unit {0}) × W
  pub create_store_config : DefaultStoreConfig → W → Reply (Unit {0}) × W
  pub is_already_exists : Error → Bool
  pub enabled : List String → String → Bool
  pub managed_controller_name : GroupKind → String
  pub config_controller_name : GroupKind → String
  pub complete : ControllerBuild → W → Reply (Unit {0}) × W
  pub start : W → Reply (Unit {0}) × W
