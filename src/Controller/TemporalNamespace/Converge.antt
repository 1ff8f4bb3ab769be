-- ===== src/Controller/TemporalNamespace/Converge.antt =====
-- The controller against the abstract view of the server: what Observe says after the other methods.
use provider_temporal.Base.{
  ℕ, ◌≡◌, refl, sym, ◌∙◌, ◌↔◌, inl, inr, String, true, none, some, eq_refl,
}
use provider_temporal.Go.Effects.{Result, ok, err, panic}
use provider_temporal.Api.Kube.{Kube}
use provider_temporal.Api.Namespace.{TemporalNamespace}
use provider_temporal.Clients.Temporal.{Temporal}
use provider_temporal.Clients.Namespace.Fields.{create_retention}
use provider_temporal.Clients.Namespace.Compare.{NamespaceCompare, parameters, observation}
use provider_temporal.Clients.Namespace.Compare.Laws.{common}
use provider_temporal.Clients.Namespace.Service.{create_request, create_namespace, observe_fields}
use provider_temporal.Clients.Namespace.RoundTrip.{IsCanonical, common-stored}
use provider_temporal.Clients.Namespace.Server.{NamespaceServer, registered}
use provider_temporal.Clients.Namespace.Refinement.{observed, Creates, create_namespace-Creates}
use provider_temporal.Controller.Managed.{ExternalObservation, Cmp, IsExact}
use provider_temporal.Controller.TemporalNamespace.External.{
  set_external_name, observe_namespace, create_external,
}
use provider_temporal.Controller.TemporalNamespace.Observe.{
  outcome, after_observe, observe_namespace_lem,
}

module _ {k : Kube} {W : Type 0} (t : Temporal W) (cmp : Cmp NamespaceCompare) (exact : IsExact cmp)
    (s : NamespaceServer t) where
  -- Of a namespace that was registered for a spec, Observe says that it is up to date exactly if the
  -- spec is canonical.
  outcome-registered :
      (cr : TemporalNamespace k) (id : String) (state : ℕ)
      → let p = cr.spec.for_provider in
        let n =
          registered
            (create_request t p)
            id
            state
            (create_retention p.workflow_execution_retention_days) in
        ((outcome t cmp cr (some n)).resource_up_to_date ≡ true) ↔ IsCanonical t.enums p
  unfolding observe_fields
  outcome-registered cr id state =
      let p = cr.spec.for_provider in
      let e = exact (common (parameters p)) (
        common (
          observation (
            observed t (
              registered (create_request t p) id state
                (create_retention p.workflow_execution_retention_days))))) in
      let c = common-stored t id state p in (λ h. c.0 (sym (e.0 h)), λ h. e.1 (sym (c.1 h)))

  -- After Create.
  abbrev pub CreatesThenObserves :
      TemporalNamespace k → W → Result (Unit {0}) × (TemporalNamespace k × W) → Type 0
  CreatesThenObserves cr w (ok _, (cr', w')) =
      let p = cr.spec.for_provider in
      (cr' ≡ set_external_name p.name cr)
      × ((o : ExternalObservation) × (cr'' : TemporalNamespace k) × (observe_namespace t cmp
              (cr', w')
            ≡ (ok o, (cr'', w')))
          × (o.resource_exists ≡ true)
          × ((o.resource_up_to_date ≡ true) ↔ IsCanonical t.enums p))
  CreatesThenObserves cr w (err e, (cr', w')) =
      (cr' ≡ cr) × ((m : String) → s.view w' m ≡ s.view w m)
  CreatesThenObserves cr w (panic, s') = ⊥

  observes-created :
      (cr : TemporalNamespace k) (w w' : W)
      → s.view w cr.spec.for_provider.name ≡ none
      → Creates t s cr.spec.for_provider w (ok tt, w')
      → CreatesThenObserves cr w (ok tt, (set_external_name cr.spec.for_provider.name cr, w'))
  unfolding set_external_name
  observes-created cr w w' gone (inl ((n, there), same)) = cc
  observes-created cr w w' gone (inr (absent, (id, state, after))) =
      let p = cr.spec.for_provider in
      let n =
        registered (create_request t p) id state
          (create_retention p.workflow_execution_retention_days) in
      let found : s.view w' p.name ≡ some n = after p.name ∙ rw (eq_refl p.name) refl in
      let cr' = set_external_name p.name cr in
      (
        refl,
        (
          outcome t cmp cr' (some n),
          after_observe t cr' (some n),
          rw (observe_namespace_lem t cmp s cr' w', found) refl,
          refl,
          outcome-registered cr' id state,
        ),
      )

  -- Create of a namespace that is not there, on a server with the laws of NamespaceServer and with
  -- an exact comparison: it never panics; when it succeeds the external name is set and the next
  -- Observe finds the namespace, up to date exactly if the spec is canonical; when it fails the
  -- resource and the server's namespaces are as they were.
  pub create_external-CreatesThenObserves :
      (cr : TemporalNamespace k) (w : W)
      → s.view w cr.spec.for_provider.name ≡ none
      → CreatesThenObserves cr w (create_external t (cr, w))
  unfolding create_external
  create_external-CreatesThenObserves cr w gone =
      go (create_namespace t cr.spec.for_provider w) refl
        (create_namespace-Creates t s cr.spec.for_provider w)
    where
      go :
          (r : Result (Unit {0}) × W)
          → create_namespace t cr.spec.for_provider w ≡ r
          → Creates t s cr.spec.for_provider w r
          → CreatesThenObserves cr w (create_external t (cr, w))
      go (ok _, w') q c = rw q (observes-created cr w w' gone c)
      go (err e, w') q c = rw q (refl, c.0)
      go (panic, w') q c = absurd c
