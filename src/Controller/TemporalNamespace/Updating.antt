-- ===== src/Controller/TemporalNamespace/Updating.antt =====
-- What Observe says after Update.
use provider_temporal.Base.{◌≡◌, refl, sym, ◌∙◌, ◌↔◌, true, some, eq_refl}
use provider_temporal.Go.Effects.{Result, ok, err, panic}
use provider_temporal.Api.Kube.{Kube}
use provider_temporal.Api.Namespace.{TemporalNamespace}
use provider_temporal.Clients.Temporal.{Temporal}
use provider_temporal.Clients.Namespace.Compare.{NamespaceCompare, parameters, observation}
use provider_temporal.Clients.Namespace.Compare.Laws.{common}
use provider_temporal.Clients.Namespace.Service.{update_namespace_by_name}
use provider_temporal.Clients.Namespace.Server.{Namespace, NamespaceServer}
use provider_temporal.Clients.Namespace.Refinement.{observed, Unchanged}
use provider_temporal.Clients.Namespace.Updates.{
  NamespaceUpdates, updated_by, Updates, update_namespace_by_name-Updates, IsSettled,
  common-updated,
}
use provider_temporal.Controller.Managed.{ExternalObservation, Cmp, IsExact}
use provider_temporal.Controller.TemporalNamespace.External.{observe_namespace, update_external}
use provider_temporal.Controller.TemporalNamespace.Observe.{
  outcome, after_observe, observe_namespace_lem,
}

module _ {k : Kube} {W : Type 0} (t : Temporal W) (cmp : Cmp NamespaceCompare) (exact : IsExact cmp)
    (s : NamespaceServer t) (u : NamespaceUpdates s) where
  -- After Update.
  abbrev pub UpdatesThenObserves :
      TemporalNamespace k → W → Result (Unit {0}) × (TemporalNamespace k × W) → Type 0
  UpdatesThenObserves cr w (ok _, (cr', w')) =
      let p = cr.spec.for_provider in
      (cr' ≡ cr)
      × ((n : Namespace) × (s.view w p.name ≡ some n)
          × ((o : ExternalObservation) × (cr'' : TemporalNamespace k) × (observe_namespace t cmp
                  (cr', w')
                ≡ (ok o, (cr'', w')))
              × (o.resource_exists ≡ true)
              × ((o.resource_up_to_date ≡ true) ↔ IsSettled t u.merge p n)))
  UpdatesThenObserves cr w (err e, (cr', w')) = (cr' ≡ cr) × Unchanged t s w w'
  UpdatesThenObserves cr w (panic, s') = ⊥

  outcome-updated :
      (cr : TemporalNamespace k) (n : Namespace)
      → let p = cr.spec.for_provider in
        ((outcome t cmp cr (some (updated_by t u.merge p n))).resource_up_to_date ≡ true)
        ↔ IsSettled t u.merge p n
  outcome-updated cr n =
      let p = cr.spec.for_provider in
      let e =
        exact (common (parameters p))
          (common (observation (observed t (updated_by t u.merge p n)))) in
      let c = common-updated t u.merge p n in (λ h. c.0 (sym (e.0 h)), λ h. e.1 (sym (c.1 h)))

  observes-updated :
      (cr : TemporalNamespace k) (w w' : W)
      → Updates t s u cr.spec.for_provider w (ok tt, w')
      → UpdatesThenObserves cr w (ok tt, (cr, w'))
  observes-updated cr w w' (n, there, after) =
      let p = cr.spec.for_provider in
      let now = updated_by t u.merge p n in
      let found : s.view w' p.name ≡ some now = after p.name ∙ rw (eq_refl p.name) refl in
      (
        refl,
        (
          n,
          there,
          (
            outcome t cmp cr (some now),
            after_observe t cr (some now),
            rw (observe_namespace_lem t cmp s cr w', found) refl,
            refl,
            outcome-updated cr n,
          ),
        ),
      )

  -- Update on a server with the laws of NamespaceServer and NamespaceUpdates and with an exact
  -- comparison: it never panics and leaves the resource as it was; when it succeeds the next
  -- Observe finds the namespace, up to date exactly if it is settled by the spec: the server's
  -- record carries the spec's name, a text that the spec leaves out was not set before, none is
  -- given and empty, the retention fits an int64, and the merged data and the kept archival states
  -- are those of the spec; when it fails no namespace has changed.
  pub update_external-UpdatesThenObserves :
      (cr : TemporalNamespace k) (w : W) → UpdatesThenObserves cr w (update_external t (cr, w))
  unfolding update_external
  update_external-UpdatesThenObserves cr w =
      go (update_namespace_by_name t cr.spec.for_provider w) refl
        (update_namespace_by_name-Updates t s u cr.spec.for_provider w)
    where
      go :
          (r : Result (Unit {0}) × W)
          → update_namespace_by_name t cr.spec.for_provider w ≡ r
          → Updates t s u cr.spec.for_provider w r
          → UpdatesThenObserves cr w (update_external t (cr, w))
      go (ok _, w') q c = rw q (observes-updated cr w w' c)
      go (err e, w') q c = rw q (refl, c)
      go (panic, w') q c = absurd c
