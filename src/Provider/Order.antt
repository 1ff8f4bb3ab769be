-- ===== src/Provider/Order.antt =====
-- In which order the provider starts, and where it stops.
use provider_temporal.Base.{
  ◌≡◌, refl, String, Bool-cases, false, inl, inr, List, [], ◌∷◌, ◌++◌, if◌then◌else◌,
}
use provider_temporal.Go.Effects.{wrap, Action, ◌>>=◌, ◌>>◌, pure, call, attempt, or_raise, or_wrap}
use provider_temporal.Api.Scheme.{add_to_schemes}
use provider_temporal.Controller.Runtime.{Options, ControllerBuild, Flags, Runtime}
use provider_temporal.Controller.Setup.{
  config_controller, namespace_controller, attribute_controller, completed, setup_config,
  setup_namespace, setup_attribute, setup_each, setup, enable_alpha_external_secret_stores,
  enable_alpha_management_policies, connection_publishers,
}
use provider_temporal.Provider.{
  manager_options, initial_options, enable, default_store_config, configure_stores,
  configure_policies, run, ignore,
}
use provider_temporal.Provider.Calls.{
  Call, get_config, new_manager, add_to_scheme, create_store_config, complete, start, Record,
  recording, Follows, pure-Follows, call-Follows, wrapped-Follows, assoc-Follows, attempt-Follows,
}

-- The features that the flags ask for.
abbrev pub features : Flags → List String
features f =
    (if f.enable_external_secret_stores then enable_alpha_external_secret_stores ∷ [] else [])
    ++ (if f.enable_management_policies then enable_alpha_management_policies ∷ [] else [])

abbrev pub final_options : Flags → Options
final_options f = record (initial_options f) { features = features f }

abbrev pub store_calls : Flags → List Call
store_calls f =
    if f.enable_external_secret_stores
    then create_store_config (default_store_config f) ∷ []
    else []

module _ {W C : Type 0} (rt : Runtime W C) where
  completed-Follows : (b : ControllerBuild) → Follows (completed (recording rt) b) (complete b ∷ [])
  completed-Follows b =
      call-Follows (λ e. false) (complete b) (rt.complete b) or_raise [] (λ a. pure-Follows tt)
        (λ e t. cc) (λ e t x. (e, refl))

  -- The controllers in the order in which they are set up.
  abbrev pub controllers : Options → List Call
  controllers o =
      complete (config_controller rt o)
      ∷ complete (namespace_controller rt o)
      ∷ complete (attribute_controller rt o)
      ∷ []

  each-Follows :
      (f : Options → Action (W × Record) (Unit {0}))
      (rest : List (Options → Action (W × Record) (Unit {0}))) (o : Options)
      (calls more : List Call)
      → Follows (f o) calls
      → Follows (setup_each (recording rt) rest o) more
      → Follows (setup_each (recording rt) (f ∷ rest) o) (calls ++ more)
  unfolding setup_each
  each-Follows f rest o calls more g h =
      attempt-Follows (f o) calls more (λ r. or_raise r >> setup_each (recording rt) rest o) g h
        (λ e x. (e, refl))

  pub setup-Follows : (o : Options) → Follows (setup (recording rt) o) (controllers o)
  unfolding setup setup_each setup_config setup_namespace setup_attribute config_controller
      namespace_controller attribute_controller connection_publishers
  setup-Follows o =
      each-Follows (setup_config (recording rt))
        (setup_namespace (recording rt) ∷ setup_attribute (recording rt) ∷ []) o
        (complete (config_controller rt o) ∷ [])
        (complete (namespace_controller rt o) ∷ complete (attribute_controller rt o) ∷ [])
        (completed-Follows (config_controller rt o))
        (each-Follows (setup_namespace (recording rt)) (setup_attribute (recording rt) ∷ []) o
          (complete (namespace_controller rt o) ∷ []) (complete (attribute_controller rt o) ∷ [])
          (completed-Follows (namespace_controller rt o))
          (each-Follows (setup_attribute (recording rt)) [] o
            (complete (attribute_controller rt o) ∷ []) []
            (completed-Follows (attribute_controller rt o)) (pure-Follows tt)))

  -- The calls of a start with the flags.
  abbrev pub start_calls : Flags → List Call
  start_calls f =
      get_config
      ∷ new_manager (manager_options f)
      ∷ add_to_scheme add_to_schemes
      ∷ (store_calls f ++ (controllers (final_options f) ++ (start ∷ [])))

  abbrev stored_options : Flags → Options → Options
  stored_options f o =
      if f.enable_external_secret_stores then enable enable_alpha_external_secret_stores o else o

  created-Follows :
      {A : Type 0} (f : Flags) (k : Options → Action (W × Record) A) (o : Options)
      (calls : List Call)
      → Follows (k (enable enable_alpha_external_secret_stores o)) calls
      → Follows
          ((do
            r ← call ((recording rt).create_store_config (default_store_config f))
            or_wrap "cannot create default store config" (ignore rt.is_already_exists r)
            pure (enable enable_alpha_external_secret_stores o))
            >>= k)
          (create_store_config (default_store_config f) ∷ calls)
  created-Follows f k o calls g =
      assoc-Follows (call ((recording rt).create_store_config (default_store_config f)))
        (λ r.
          or_wrap "cannot create default store config" (ignore rt.is_already_exists r)
          >> pure (enable enable_alpha_external_secret_stores o))
        k (create_store_config (default_store_config f) ∷ calls)
        (call-Follows rt.is_already_exists (create_store_config (default_store_config f))
          (rt.create_store_config (default_store_config f))
          (λ r.
            or_wrap "cannot create default store config" (ignore rt.is_already_exists r)
            >> pure (enable enable_alpha_external_secret_stores o)
            >>= k)
          calls (λ a. g) (λ e t. rw t g)
          (λ e t x. (wrap e "cannot create default store config", rw t refl)))

  stores-Follows :
      {A : Type 0} (f : Flags) (k : Options → Action (W × Record) A) (o : Options)
      (calls : List Call)
      → Follows (k (stored_options f o)) calls
      → Follows (configure_stores (recording rt) f o >>= k) (store_calls f ++ calls)
  unfolding configure_stores
  stores-Follows f k o calls g = elim (Bool-cases f.enable_external_secret_stores) [
    | inl t ↦ rw t (created-Follows f k o calls (rw t at g))
    | inr t ↦ rw t (rw t at g)
  ]

  options_lem :
      (f : Flags) → configure_policies f (stored_options f (initial_options f)) ≡ final_options f
  options_lem f = elim (Bool-cases f.enable_external_secret_stores) [
    | inl t ↦ elim (Bool-cases f.enable_management_policies) [
      | inl u ↦ rw (t, u) refl
      | inr u ↦ rw (t, u) refl
    ]
    | inr t ↦ elim (Bool-cases f.enable_management_policies) [
      | inl u ↦ rw (t, u) refl
      | inr u ↦ rw (t, u) refl
    ]
  ]

  started-Follows :
      (o : Options)
      → Follows
          (do
            r ← attempt (setup (recording rt) o)
            or_wrap "Cannot setup temporal controllers" r
            r ← call (recording rt).start
            or_wrap "Cannot start controller manager" r)
          (controllers o ++ (start ∷ []))
  started-Follows o =
      attempt-Follows (setup (recording rt) o) (controllers o) (start ∷ [])
        (λ r.
          or_wrap "Cannot setup temporal controllers" r
          >> (do r ← call (recording rt).start; or_wrap "Cannot start controller manager" r))
        (setup-Follows o)
        (call-Follows (λ e. false) start rt.start (or_wrap "Cannot start controller manager") []
          (λ a. pure-Follows tt) (λ e t. cc)
          (λ e t x. (wrap e "Cannot start controller manager", refl)))
        (λ e x. (wrap e "Cannot setup temporal controllers", refl))

  -- main after the command line makes its calls in order: the configuration, the manager, the
  -- scheme with both groups, the default StoreConfig if secret stores are enabled, the three
  -- controllers with the features that the flags ask for, and the start of the manager. It succeeds
  -- with all of them made and none failed, or ends with an error at the first that fails, with none
  -- after it made; that there is a StoreConfig already is no failure.
  pub run-Follows : (f : Flags) → Follows (run (recording rt) f) (start_calls f)
  unfolding run
  run-Follows f =
      wrapped-Follows get_config rt.get_config "Cannot get API server rest config" _ _ (λ cfg.
        wrapped-Follows (new_manager (manager_options f))
          (rt.new_manager (rt.limit_rest_config cfg f.max_reconcile_rate) (manager_options f))
          "Cannot create controller manager" _ _
          (λ _.
            wrapped-Follows (add_to_scheme add_to_schemes) (rt.add_to_scheme add_to_schemes)
              "Cannot add temporal APIs to scheme" _ _
              (λ _.
                stores-Follows f _ (initial_options f)
                  (controllers (final_options f) ++ (start ∷ []))
                  (rw (options_lem f) (started-Follows (final_options f))))))
