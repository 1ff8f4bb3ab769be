-- ===== src/Provider.antt =====
-- cmd/provider/main.go: the command line, the manager, and the start of the controllers.
pub mod Calls
pub mod Order
pub mod Registered
use provider_temporal.Base.{
  ℕ, ◌*◌, ◌^◌, String, Bool, true, false, Option, none, some, List, [], ◌∷◌, ◌++◌, if◌then◌else◌,
}
use provider_temporal.Base.Int.{ℤ, pos}
use provider_temporal.Go.Effects.{
  Error, Reply, reply, failure, Action, ◌>>=◌, ◌>>◌, pure, call, attempt, or_raise, or_wrap,
}
use provider_temporal.Api.Scheme.{add_to_schemes}
use provider_temporal.Controller.Runtime.{
  leases, Options, ManagerOptions, DefaultStoreConfig, Flag, Flags, Runtime,
}
use provider_temporal.Controller.Setup.{
  enable_alpha_external_secret_stores, enable_alpha_management_policies, setup,
}

abbrev flag : String → Option String → Option String → Option String → Flag
flag name short default_value environment = record {
  name = name;
  short = short;
  default_value = default_value;
  environment = environment;
}

unfoldable pub declared_flags : List Flag
declared_flags =
    flag "debug" (some "d") none none
    ∷ flag "leader-election" (some "l") (some "false") (some "LEADER_ELECTION")
    ∷ flag "sync" (some "s") (some "1h") none
    ∷ flag "poll" none (some "1m") none
    ∷ flag "max-reconcile-rate" none (some "10") none
    ∷ flag "namespace" none (some "crossplane-system") (some "POD_NAMESPACE")
    ∷ flag "enable-external-secret-stores" none (some "false")
        (some "ENABLE_EXTERNAL_SECRET_STORES")
    ∷ flag "enable-management-policies" none (some "false") (some "ENABLE_MANAGEMENT_POLICIES")
    ∷ []

-- time.Second
abbrev second : ℕ
second = 10 ^ 9

unfoldable pub manager_options : Flags → ManagerOptions
manager_options f = record {
  sync_period = f.sync_interval;
  leader_election = f.leader_election;
  leader_election_id = "crossplane-leader-election-provider-temporal";
  leader_election_resource_lock = leases;
  lease_duration = pos (60 * second);
  renew_deadline = pos (50 * second);
}

abbrev pub initial_options : Flags → Options
initial_options f = record {
  max_concurrent_reconciles = f.max_reconcile_rate;
  poll_interval = f.poll_interval;
  global_rate = f.max_reconcile_rate;
  features = [];
}

-- `o.Features.Enable(flag)`
abbrev pub enable : String → Options → Options
enable flag o = record o { features = o.features ++ (flag ∷ []) }

abbrev pub default_store_config : Flags → DefaultStoreConfig
default_store_config f = record { name = "default"; default_scope = f.namespace }

-- resource.Ignore, as it documents itself: an error that satisfies `is` is none.
abbrev pub ignore : (Error → Bool) → Reply (Unit {0}) → Reply (Unit {0})
ignore is (reply a) = reply a
ignore is (failure e) = if is e then reply tt else failure e

abbrev pub configure_policies : Flags → Options → Options
configure_policies f o =
    if f.enable_management_policies then enable enable_alpha_management_policies o else o

module _ {W C : Type 0} (rt : Runtime W C) where
  unfoldable pub configure_stores : Flags → Options → Action W Options
  configure_stores f o =
      if f.enable_external_secret_stores
      then (do
        r ← call (rt.create_store_config (default_store_config f))
        or_wrap "cannot create default store config" (ignore rt.is_already_exists r)
        pure (enable enable_alpha_external_secret_stores o))
      else pure o

  -- main after the command line. An error that kingpin.FatalIfError gets ends the process, and what follows.
  unfoldable pub run : Flags → Action W (Unit {0})
  unfolding manager_options configure_stores add_to_schemes setup
  run f = do
    r ← call rt.get_config
    cfg ← or_wrap "Cannot get API server rest config" r
    r ← call (rt.new_manager (rt.limit_rest_config cfg f.max_reconcile_rate) (manager_options f))
    or_wrap "Cannot create controller manager" r
    r ← call (rt.add_to_scheme add_to_schemes)
    or_wrap "Cannot add temporal APIs to scheme" r
    o ← configure_stores f (initial_options f)
    r ← attempt (setup rt (configure_policies f o))
    or_wrap "Cannot setup temporal controllers" r
    r ← call rt.start
    or_wrap "Cannot start controller manager" r

  unfoldable pub main : Action W (Unit {0})
  unfolding declared_flags run
  main = do r ← call (rt.must_parse declared_flags); f ← or_raise r; run f
