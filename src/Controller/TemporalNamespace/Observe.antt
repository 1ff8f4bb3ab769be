-- ===== src/Controller/TemporalNamespace/Observe.antt =====
-- Observe against the abstract view of the server.
use mathlib.Core.Option
use provider_temporal.Base.{
  ◌≡◌, ◌≢◌, ◌⊎◌, inl, inr, refl, ap, String, String-cases, Option, none, some, true, false,
  if◌then◌else◌, arith,
}
use provider_temporal.Go.Effects.{Result, ok, err, panic}
use provider_temporal.Api.Kube.{Kube, available, unavailable, deleting}
use provider_temporal.Api.Namespace.{TemporalNamespace, TemporalNamespaceObservation}
use provider_temporal.Clients.Temporal.{Temporal}
use provider_temporal.Clients.Namespace.Service.{observe_fields}
use provider_temporal.Clients.Namespace.Compare.{NamespaceCompare, parameters, observation}
use provider_temporal.Clients.Namespace.Compare.Laws.{common, map_to_namespace_compare-common}
use provider_temporal.Clients.Namespace.Server.{Namespace, NamespaceServer}
use provider_temporal.Clients.Namespace.Refinement.{observed, describe_namespace_by_name_lem}
use provider_temporal.Controller.Managed.{ExternalObservation, Cmp, missing, compared}
use provider_temporal.Controller.TemporalNamespace.External.{
  set_observed, set_condition, report_state, observe_found, observe_namespace,
}

-- What a state makes of the status: the three states that have a condition, and all others.
abbrev pub Reports : (k : Kube) → String → k.ResourceStatus → k.ResourceStatus → Type 0
Reports k state old new =
    ((state ≡ "Registered")
      × (new ≡ k.set_conditions old (available "Namespace.State = Registered")))
    ⊎ ((state ≡ "Unspecified")
        × (new ≡ k.set_conditions old (unavailable "Namespace.State = Unspecified")))
    ⊎ ((state ≡ "Deleted") × (new ≡ k.set_conditions old (deleting "Namespace.State = Deleted")))
    ⊎ ((state ≢ "Registered") × (state ≢ "Unspecified") × (state ≢ "Deleted") × (new ≡ old))

module _ {k : Kube} where
  -- Reporting a state changes conditions only.
  pub spec-report_state :
      (state : String) (cr : TemporalNamespace k) → (report_state state cr).spec ≡ cr.spec
  unfolding report_state
  spec-report_state state cr = ground arith

  pub object_meta-report_state :
      (state : String) (cr : TemporalNamespace k)
      → (report_state state cr).object_meta ≡ cr.object_meta
  unfolding report_state
  object_meta-report_state state cr = ground arith

  pub at_provider-report_state :
      (state : String) (cr : TemporalNamespace k)
      → (report_state state cr).status.at_provider ≡ cr.status.at_provider
  unfolding report_state
  at_provider-report_state state cr = ground arith

  report_state-Reports :
      (state : String) (cr : TemporalNamespace k)
      → Reports k state cr.status.resource_status (report_state state cr).status.resource_status
  unfolding report_state set_condition
  report_state-Reports state cr = elim (String-cases state "Registered") [
    | inl (e, _) ↦ rw e (inl (refl, refl))
    | inr (a, p) ↦ elim (String-cases state "Unspecified") [
      | inl (e, _) ↦ rw e (inr (inl (refl, refl)))
      | inr (b, q) ↦ elim (String-cases state "Deleted") [
        | inl (e, _) ↦ rw e (inr (inr (inl (refl, refl))))
        | inr (c, r) ↦ rw (p, q, r) (inr (inr (inr (a, b, c, refl))))
      ]
    ]
  ]

  pub type_meta-report_state :
      (state : String) (cr : TemporalNamespace k) → (report_state state cr).type_meta ≡ cr.type_meta
  unfolding report_state
  type_meta-report_state state cr = ground arith

  -- The resource after an observation.
  abbrev pub reported : TemporalNamespaceObservation → TemporalNamespace k → TemporalNamespace k
  reported o cr = report_state o.state (set_observed o cr)

module _ {k : Kube} {W : Type 0} (t : Temporal W) where
  -- The resource after Observe, by what the server holds.
  abbrev pub after_observe : TemporalNamespace k → Option Namespace → TemporalNamespace k
  after_observe cr none = cr
  after_observe cr (some n) = reported (observed t n) cr

module _ {k : Kube} {W : Type 0} (t : Temporal W) (cmp : Cmp NamespaceCompare) where
  -- The comparison of a found namespace with the spec never fails.
  pub observe_found-some :
      (o : TemporalNamespaceObservation) (cr : TemporalNamespace k) (w : W)
      → observe_found t cmp (some o) (cr, w) ≡ (
        ok (compared cmp (common (parameters cr.spec.for_provider)) (common (observation o))),
        (reported o cr, w),
      )
  unfolding set_observed
  observe_found-some o cr w =
      rw
        (
          map_to_namespace_compare-common (observation o) w,
          map_to_namespace_compare-common (parameters (reported o cr).spec.for_provider) w,
          spec-report_state o.state (set_observed o cr),
        )
        refl

  -- Nothing observed, or the observation with its comparison.
  abbrev pub outcome : TemporalNamespace k → Option Namespace → ExternalObservation
  outcome cr none = missing
  outcome cr (some n) =
      compared cmp (common (parameters cr.spec.for_provider)) (common (observation (observed t n)))

  observe_found-outcome :
      (v : Option Namespace) (cr : TemporalNamespace k) (w : W)
      → observe_found t cmp (Option.map (observed t) v) (cr, w)
        ≡ (ok (outcome cr v), (after_observe t cr v, w))
  observe_found-outcome none cr w = refl
  observe_found-outcome (some n) cr w = observe_found-some (observed t n) cr w

  pub observe_namespace_lem :
      (s : NamespaceServer t) (cr : TemporalNamespace k) (w : W)
      → let v = s.view w cr.spec.for_provider.name in
        observe_namespace t cmp (cr, w) ≡ (ok (outcome cr v), (after_observe t cr v, w))
  unfolding observe_namespace
  observe_namespace_lem s cr w =
      rw (describe_namespace_by_name_lem t s cr.spec.for_provider.name w)
        (observe_found-outcome (s.view w cr.spec.for_provider.name) cr w)

  -- What Observe says of the namespace that the server has, or has not, and what it makes of its resource.
  abbrev pub Found :
      TemporalNamespace k → Option Namespace → ExternalObservation → TemporalNamespace k → Type 0
  Found cr none o cr' =
      (o.resource_exists ≡ false)
      × (o.resource_up_to_date ≡ false)
      × (o.diff ≡ "")
      × (o.resource_late_initialized ≡ false)
      × (cr' ≡ cr)
  Found cr (some n) o cr' =
      let asked = common (parameters cr.spec.for_provider) in
      let there = common (observation (observed t n)) in
      (o.resource_exists ≡ true)
      × (o.resource_up_to_date ≡ cmp.equal asked there)
      × (o.diff ≡ (if cmp.equal asked there then "" else cmp.diff asked there))
      × (o.resource_late_initialized ≡ false)
      × (cr'.status.at_provider ≡ observed t n)
      × (cr'.status.at_provider.id ≡ n.info.id)
      × (cr'.status.at_provider.name ≡ n.info.name)
      × (cr'.status.at_provider.state ≡ t.enums.namespace_state_string n.info.state)
      × Reports k (t.enums.namespace_state_string n.info.state) cr.status.resource_status
          cr'.status.resource_status
      × (cr'.spec ≡ cr.spec)
      × (cr'.object_meta ≡ cr.object_meta)
      × (cr'.type_meta ≡ cr.type_meta)

  abbrev pub Observes :
      NamespaceServer t
      → TemporalNamespace k
      → W
      → Result ExternalObservation × (TemporalNamespace k × W)
      → Type 0
  Observes s cr w (ok o, (cr', w')) = (w' ≡ w) × Found cr (s.view w cr.spec.for_provider.name) o cr'
  Observes s cr w (err e, _) = ⊥
  Observes s cr w (panic, _) = ⊥

  outcome-Found :
      (cr : TemporalNamespace k) (v : Option Namespace)
      → Found cr v (outcome cr v) (after_observe t cr v)
  unfolding set_observed observe_fields
  outcome-Found cr none = (refl, refl, refl, refl, refl)
  outcome-Found cr (some n) =
      let o = observed t n in
      let written = at_provider-report_state o.state (set_observed o cr) in
      (
        refl,
        refl,
        refl,
        refl,
        written,
        ap (λ x. x.id) written,
        ap (λ x. x.name) written,
        ap (λ x. x.state) written,
        report_state-Reports o.state (set_observed o cr),
        spec-report_state o.state (set_observed o cr),
        object_meta-report_state o.state (set_observed o cr),
        type_meta-report_state o.state (set_observed o cr),
      )

  -- On a server with the laws of NamespaceServer Observe always succeeds and changes nothing on it.
  -- Where the server has no namespace of the spec's name it says that there is none, and leaves the
  -- resource as it is. Else it says that there is one, up to date as the comparison of the common
  -- fields says, with a difference just if it is not; the observed namespace is in the status,
  -- Registered, Unspecified and Deleted set the condition available, unavailable and deleting with
  -- the state as message, other states none, and spec and metadata are kept.
  pub observe_namespace-Observes :
      (s : NamespaceServer t) (cr : TemporalNamespace k) (w : W)
      → Observes s cr w (observe_namespace t cmp (cr, w))
  observe_namespace-Observes s cr w =
      rw (observe_namespace_lem s cr w)
        (refl, outcome-Found cr (s.view w cr.spec.for_provider.name))
