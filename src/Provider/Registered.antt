-- ===== src/Provider/Registered.antt =====
-- What the controllers read and watch is registered with the scheme, and connection details go to a store where the
-- command line asks for it.
use provider_temporal.Base.{
  ◌≡◌, refl, ◌⊎◌, inl, inr, String, Bool, Bool-cases, false, ◌||◌, List, [], ◌∷◌, ◌==◌, All,
  if◌then◌else◌,
}
use provider_temporal.Api.Scheme.{
  ObjectType, type_name, provider_config_usage_list, store_config, GroupVersionKind, with_kind,
  SchemeBuilder, add_to_schemes, store_config_group_version_kind,
}
use provider_temporal.Controller.Runtime.{
  Options, ConnectionPublisher, api_secret_publisher, details_manager, Reconciler,
  managed_reconciler, config_reconciler, ControllerBuild, Flags, Runtime,
}
use provider_temporal.Controller.Setup.{
  config_controller, namespace_controller, attribute_controller, connection_publishers,
  enable_alpha_external_secret_stores,
}
use provider_temporal.Provider.Order.{features, final_options}

abbrev pub IsOneOf : ObjectType → List ObjectType → Type 0
IsOneOf t [] = ⊥
IsOneOf t (u ∷ us) = (t ≡ u) ⊎ IsOneOf t us

-- The type is registered, under this kind.
abbrev pub IsKind : List SchemeBuilder → ObjectType → GroupVersionKind → Type 0
IsKind [] t g = ⊥
IsKind (b ∷ bs) t g =
    (IsOneOf t b.objects × (g ≡ with_kind b.group_version (type_name t))) ⊎ IsKind bs t g

abbrev pub IsKnown : List SchemeBuilder → ObjectType → Type 0
IsKnown bs t = (g : GroupVersionKind) × IsKind bs t g

abbrev pub PublishesTo : List SchemeBuilder → ConnectionPublisher → Type 0
PublishesTo bs api_secret_publisher = Unit
PublishesTo bs (details_manager g) = IsKind bs store_config g

abbrev pub Reconciles : List SchemeBuilder → ObjectType → Reconciler → Type 0
Reconciles bs t (managed_reconciler r) =
    IsKind bs t r.kind × All (PublishesTo bs) r.connection_publishers
Reconciles bs t (config_reconciler r) =
    IsKind bs t r.config × IsKind bs provider_config_usage_list r.usage_list

-- What the controller is for is what it reconciles, and all its types are registered.
abbrev pub IsServed : List SchemeBuilder → ControllerBuild → Type 0
IsServed bs b = Reconciles bs b.for_type b.reconciler × All (IsKnown bs) b.watches

-- `flag` is one of the flags.
abbrev pub is_enabled : List String → String → Bool
is_enabled [] flag = false
is_enabled (f ∷ fs) flag = f == flag || is_enabled fs flag

module _ {W C : Type 0} (rt : Runtime W C) where
  publishers_known : (o : Options) → All (PublishesTo add_to_schemes) (connection_publishers rt o)
  unfolding connection_publishers add_to_schemes type_name
  publishers_known o =
      elim (Bool-cases (rt.enabled o.features enable_alpha_external_secret_stores)) [
        | inl t ↦ rw t (tt, (inl (inr (inr (inr (inr (inl refl)))), refl), tt))
        | inr t ↦ rw t (tt, tt)
      ]

  -- Whatever the options, each of the three controllers reconciles the kind under which the type
  -- that it is for is registered by apis.AddToScheme, and the types that it watches, the list of
  -- usages and the store to which it publishes connection details are registered as well.
  pub controllers-IsServed :
      (o : Options)
      → All
          (IsServed add_to_schemes)
          (config_controller rt o ∷ namespace_controller rt o ∷ attribute_controller rt o ∷ [])
  unfolding add_to_schemes type_name config_controller namespace_controller attribute_controller
  controllers-IsServed o = (
    (
      ((inl (inl refl, refl)), inl (inr (inr (inr (inl refl))), refl)),
      ((_, inl (inr (inr (inl refl)), refl)), tt),
    ),
    (
      ((inr (inl (inr (inr (inl refl)), refl)), publishers_known o), tt),
      (((inr (inl (inl refl, refl)), publishers_known o), tt), tt),
    ),
  )

  -- Where Enabled says which flags were enabled: with the options that the command line leads to,
  -- connection details are published to an API secret, and to a StoreConfig as well exactly if
  -- secret stores are enabled.
  pub connection_publishers-final_options :
      ((fs : List String) (flag : String) → rt.enabled fs flag ≡ is_enabled fs flag)
      → (f : Flags)
      → connection_publishers rt (final_options f)
        ≡ api_secret_publisher
          ∷ (if f.enable_external_secret_stores
              then details_manager store_config_group_version_kind ∷ []
              else [])
  unfolding connection_publishers
  connection_publishers-final_options law f = elim (Bool-cases f.enable_external_secret_stores) [
    | inl t ↦ rw (law (features f) enable_alpha_external_secret_stores, t) refl
    | inr t ↦ elim (Bool-cases f.enable_management_policies) [
      | inl u ↦ rw (law (features f) enable_alpha_external_secret_stores, t, u) refl
      | inr u ↦ rw (law (features f) enable_alpha_external_secret_stores, t, u) refl
    ]
  ]
