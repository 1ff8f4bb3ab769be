-- ===== src/Controller/TemporalNamespace/External.antt =====
-- internal/controller/temporalnamespace/temporalnamespace.go: the methods Observe, Create, Update and
-- Delete of `external`. Logging is left out.
use Prim.Native.String.{◌++◌}
use provider_temporal.Base.{String, Option, none, some, if◌then◌else◌, ◌==◌}
use provider_temporal.Go.Effects.{Error, message, wrap, Action, ◌>>=◌, ◌>>◌, pure, raise}
use provider_temporal.Api.Kube.{Kube, Condition, available, unavailable, deleting}
use provider_temporal.Api.Namespace.{TemporalNamespace, TemporalNamespaceObservation}
use provider_temporal.Clients.Temporal.{Temporal}
use provider_temporal.Clients.Namespace.Compare.{
  NamespaceCompare, parameters, observation, map_to_namespace_compare,
}
use provider_temporal.Clients.Namespace.Service.{
  create_namespace, update_namespace_by_name, describe_namespace_by_name, delete_namespace_by_name,
}
use provider_temporal.Controller.Managed.{
  Managed, ExternalObservation, Cmp, get, modify, service, wrapping, on_temporal_namespace, missing,
  compared,
}

abbrev pub not_temporal_namespace : Error
not_temporal_namespace = message "managed resource is not a TemporalNamespace custom resource"

abbrev pub err_describe : String
err_describe = "failed to describe Namespace resource"

abbrev pub err_create : String
err_create = "failed to create Namespace resource"

abbrev pub err_update : String
err_update = "failed to update Namespace resource"

abbrev pub err_delete : String
err_delete = "failed to delete Namespace resource"

abbrev pub err_mapping : String
err_mapping = "failed to map Namespace resource"

module _ {k : Kube} where
  unfoldable pub set_condition : Condition → TemporalNamespace k → TemporalNamespace k
  set_condition c cr = record cr {
    status = record (cr.status) { resource_status = k.set_conditions cr.status.resource_status c };
  }

  unfoldable pub set_observed :
      TemporalNamespaceObservation → TemporalNamespace k → TemporalNamespace k
  set_observed o cr = record cr { status = record (cr.status) { at_provider = o } }

  -- The three tests of the observed state, one after the other.
  unfoldable pub report_state : String → TemporalNamespace k → TemporalNamespace k
  unfolding set_condition
  report_state state cr =
      let text = "Namespace.State = " ++ state in
      let cr1 = if state == "Registered" then set_condition (available text) cr else cr in
      let cr2 = if state == "Unspecified" then set_condition (unavailable text) cr1 else cr1 in
      if state == "Deleted" then set_condition (deleting text) cr2 else cr2

  unfoldable pub set_external_name : String → TemporalNamespace k → TemporalNamespace k
  set_external_name name cr = record cr { object_meta = k.set_external_name cr.object_meta name }

module _ {k : Kube} {W : Type 0} (t : Temporal W) (cmp : Cmp NamespaceCompare) where
  abbrev pub observe_found :
      Option TemporalNamespaceObservation → Action (TemporalNamespace k × W) ExternalObservation
  observe_found none = pure missing
  observe_found (some observed) = do
    modify (set_observed observed)
    modify (report_state observed.state)
    observed_compareable ← wrapping err_mapping (map_to_namespace_compare (observation observed))
    cr ← get
    spec_compareable ←
        wrapping err_mapping (map_to_namespace_compare (parameters cr.spec.for_provider))
    pure (compared cmp spec_compareable observed_compareable)

  unfoldable pub observe_namespace : Action (TemporalNamespace k × W) ExternalObservation
  observe_namespace = do
    cr ← get
    observed ← wrapping err_describe (describe_namespace_by_name t cr.spec.for_provider.name)
    observe_found observed

  unfoldable pub observe : Action (Managed k × W) ExternalObservation
  observe = on_temporal_namespace not_temporal_namespace observe_namespace

module _ {k : Kube} {W : Type 0} (t : Temporal W) where
  unfoldable pub create_external : Action (TemporalNamespace k × W) (Unit {0})
  create_external = do
    cr ← get
    wrapping err_create (create_namespace t cr.spec.for_provider)
    modify (set_external_name cr.spec.for_provider.name)

  unfoldable pub create : Action (Managed k × W) (Unit {0})
  create = on_temporal_namespace not_temporal_namespace create_external

  unfoldable pub update_external : Action (TemporalNamespace k × W) (Unit {0})
  update_external = do
    cr ← get
    wrapping err_update (update_namespace_by_name t cr.spec.for_provider)

  unfoldable pub update : Action (Managed k × W) (Unit {0})
  update = on_temporal_namespace not_temporal_namespace update_external

  abbrev pub checked_delete :
      Option String × Option Error → Action (TemporalNamespace k × W) (Unit {0})
  checked_delete (_, none) = pure tt
  checked_delete (_, some e) = raise (wrap e err_delete)

  unfoldable pub delete_external : Action (TemporalNamespace k × W) (Unit {0})
  delete_external = do
    cr ← get
    r ← service (delete_namespace_by_name t cr.spec.for_provider.name)
    checked_delete r

  unfoldable pub delete : Action (Managed k × W) (Unit {0})
  delete = on_temporal_namespace not_temporal_namespace delete_external
