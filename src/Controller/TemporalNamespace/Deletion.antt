-- ===== src/Controller/TemporalNamespace/Deletion.antt =====
-- What Observe says after Delete, and what the methods leave alone.
use provider_temporal.Base.{◌≡◌, refl, ◌∙◌, ◌⊎◌, inl, inr, String, Option, none, some}
use provider_temporal.Go.Effects.{Error, Result, ok, err, panic, failure, resume, caught, or_wrap}
use provider_temporal.Api.Kube.{Kube}
use provider_temporal.Api.Namespace.{TemporalNamespace, TemporalNamespaceObservation}
use provider_temporal.Clients.Temporal.{Temporal}
use provider_temporal.Clients.Namespace.Compare.{NamespaceCompare}
use provider_temporal.Clients.Namespace.Service.{
  describe_namespace_by_name, delete_namespace_by_name,
}
use provider_temporal.Clients.Namespace.Server.{NamespaceServer}
use provider_temporal.Clients.Namespace.Refinement.{
  Deletes, IsTolerated, Unchanged, delete_namespace_by_name-Deletes,
}
use provider_temporal.Controller.Managed.{ExternalObservation, Cmp, missing, beside}
use provider_temporal.Controller.TemporalNamespace.External.{
  set_observed, observe_found, observe_namespace, checked_delete, delete_external,
}
use provider_temporal.Controller.TemporalNamespace.Observe.{
  observe_namespace_lem, spec-report_state, object_meta-report_state, observe_found-some,
}

module _ {k : Kube} {W : Type 0} (t : Temporal W) (cmp : Cmp NamespaceCompare) where
  module _ (s : NamespaceServer t) where
    -- After Delete.
    abbrev pub DeletesThenObserves :
        TemporalNamespace k → W → Result (Unit {0}) × (TemporalNamespace k × W) → Type 0
    DeletesThenObserves cr w (ok _, (cr', w')) =
        (cr' ≡ cr)
        × ((observe_namespace t cmp (cr', w') ≡ (ok missing, (cr', w')))
            ⊎ ((e : Error) × (t.delete_namespace cr.spec.for_provider.name w ≡ (failure e, w'))
                × IsTolerated t s e))
    DeletesThenObserves cr w (err e, (cr', w')) = (cr' ≡ cr) × Unchanged t s w w'
    DeletesThenObserves cr w (panic, s') = ⊥

    observes-absent :
        (cr : TemporalNamespace k) (w : W)
        → s.view w cr.spec.for_provider.name ≡ none
        → observe_namespace t cmp (cr, w) ≡ (ok missing, (cr, w))
    observes-absent cr w e = observe_namespace_lem t cmp s cr w ∙ rw e refl

    observes-deleted :
        (cr : TemporalNamespace k) (w : W) (r : Result (Option String × Option Error) × W)
        → Deletes t s cr.spec.for_provider.name w r
        → DeletesThenObserves cr w (resume (checked_delete t) (beside cr r))
    observes-deleted cr w (ok (none, none), w') (absent, same) =
        (refl, inl (rw same (observes-absent cr w absent)))
    observes-deleted cr w (ok (some n, none), w') (_, inl (gone, _)) =
        (refl, inl (observes-absent cr w' gone))
    observes-deleted cr w (ok (some n, none), w') (_, inr (_, refused)) = (refl, inr refused)
    observes-deleted cr w (ok (some n, some e), w') (_, same, _) = (refl, same)
    observes-deleted cr w (ok (none, some e), w') bad = absurd bad
    observes-deleted cr w (err e, w') bad = absurd bad
    observes-deleted cr w (panic, w') bad = absurd bad

    -- On a server with the laws of NamespaceServer, when Delete succeeds the next Observe finds no
    -- namespace, unless the server refused the deletion as one of a namespace that is not found or
    -- in an invalid state. When it fails no namespace has changed. It never panics, and the
    -- resource stays as it is.
    pub delete_external-DeletesThenObserves :
        (cr : TemporalNamespace k) (w : W) → DeletesThenObserves cr w (delete_external t (cr, w))
    unfolding delete_external
    delete_external-DeletesThenObserves cr w =
        observes-deleted cr w (delete_namespace_by_name t cr.spec.for_provider.name w)
          (delete_namespace_by_name-Deletes t s cr.spec.for_provider.name w)

  -- The resource of an outcome has the spec and the metadata of `cr`.
  abbrev pub KeepsSpec :
      TemporalNamespace k → Result ExternalObservation × (TemporalNamespace k × W) → Type 0
  KeepsSpec cr s = (s.1.0.spec ≡ cr.spec) × (s.1.0.object_meta ≡ cr.object_meta)

  found-KeepsSpec :
      (cr : TemporalNamespace k) (r : Result (Option TemporalNamespaceObservation) × W)
      → KeepsSpec cr (
          resume
            (observe_found t cmp)
            (beside cr (resume (or_wrap "failed to describe Namespace resource") (caught r))))
  unfolding set_observed
  found-KeepsSpec cr (ok none, w) = (refl, refl)
  found-KeepsSpec cr (ok (some o), w) = rw (observe_found-some t cmp o cr w) (
    spec-report_state o.state (set_observed o cr),
    object_meta-report_state o.state (set_observed o cr),
  )
  found-KeepsSpec cr (err e, w) = (refl, refl)
  found-KeepsSpec cr (panic, w) = (refl, refl)

  -- Observe changes neither the spec nor the metadata of its resource, whatever the server answers.
  pub observe_namespace-KeepsSpec :
      (cr : TemporalNamespace k) (w : W) → KeepsSpec cr (observe_namespace t cmp (cr, w))
  unfolding observe_namespace
  observe_namespace-KeepsSpec cr w =
      found-KeepsSpec cr (describe_namespace_by_name t cr.spec.for_provider.name w)
