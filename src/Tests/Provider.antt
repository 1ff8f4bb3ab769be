-- ===== src/Tests/Provider.antt =====
-- The theorems on the start of the provider, with an API server that refuses the creation of the StoreConfig.
use provider_temporal.Base.{◌≡◌, refl, true, false, [], ◌∷◌, ◌++◌, map, All}
use provider_temporal.Base.Int.{pos}
use provider_temporal.Go.Effects.{message, reply, failure, err, wrap}
use provider_temporal.Api.Scheme.{add_to_schemes}
use provider_temporal.Controller.Runtime.{Flags, Runtime}
use provider_temporal.Controller.Setup.{
  config_controller, namespace_controller, attribute_controller,
}
use provider_temporal.Provider.{manager_options, default_store_config, run}
use provider_temporal.Provider.Calls.{
  get_config, new_manager, add_to_scheme, create_store_config, done, recording, Follows,
}
use provider_temporal.Provider.Order.{final_options, start_calls, run-Follows}
use provider_temporal.Provider.Registered.{IsServed, is_enabled, controllers-IsServed}

abbrev flags : Flags
flags = record {
  debug = false;
  leader_election = true;
  sync_interval = pos 3600;
  poll_interval = pos 60;
  max_reconcile_rate = pos 10;
  namespace = "crossplane-system";
  enable_external_secret_stores = true;
  enable_management_policies = false;
}

abbrev refusing : Runtime (Unit {0}) (Unit {0})
refusing = record {
  must_parse = λ fs w. (reply flags, w);
  get_config = λ w. (reply tt, w);
  limit_rest_config = λ c n. c;
  new_manager = λ c o w. (reply tt, w);
  add_to_scheme = λ bs w. (reply tt, w);
  create_store_config = λ s w. (failure (message "no such API"), w);
  is_already_exists = λ e. false;
  enabled = is_enabled;
  managed_controller_name = λ g. g.kind;
  config_controller_name = λ g. g.kind;
  complete = λ b w. (reply tt, w);
  start = λ w. (reply tt, w);
}

run-Follows_example : Follows (run (recording refusing) flags) (start_calls refusing flags)
run-Follows_example = run-Follows refusing flags

-- The process ends there: no controller is set up, and the manager is not started.
ends_without_store : run (recording refusing) flags (tt, []) ≡ (
  err (wrap (message "no such API") "cannot create default store config"),
  (
    tt,
    map done (get_config ∷ new_manager (manager_options flags) ∷ add_to_scheme add_to_schemes ∷ [])
        ++ ((create_store_config (default_store_config flags), false) ∷ []),
  ),
)
unfolding run
ends_without_store = refl

controllers-IsServed_example : All (IsServed add_to_schemes) (
    config_controller refusing (final_options flags)
    ∷ namespace_controller refusing (final_options flags)
    ∷ attribute_controller refusing (final_options flags)
    ∷ [])
controllers-IsServed_example = controllers-IsServed refusing (final_options flags)
