-- ===== src/Tests/Namespaces.antt =====
-- The theorems on namespaces, for one namespace on a server in memory.
use provider_temporal.Base.{◌≡◌, refl, ◌↔◌, List, none, some, [], ◌∷◌}
use provider_temporal.Base.Int.{pos}
use provider_temporal.Go.Effects.{ok}
use provider_temporal.Api.Namespace.{TemporalNamespaceParameters, TemporalNamespace}
use provider_temporal.Clients.Namespace.Compare.{parameters, map_to_namespace_compare}
use provider_temporal.Clients.Namespace.Compare.Laws.{common, map_to_namespace_compare-common}
use provider_temporal.Clients.Namespace.Fields.{create_retention, retention_days}
use provider_temporal.Clients.Namespace.Fields.Laws.{IsRetainable, retention_days-create_retention}
use provider_temporal.Clients.Namespace.RoundTrip.{IsCanonical, stored_observation, common-stored}
use provider_temporal.Clients.Namespace.Compare.{observation}
use provider_temporal.Clients.Namespace.Service.{
  create_namespace, create_request, delete_namespace_by_name,
}
use provider_temporal.Clients.Namespace.Server.{Namespace, registered}
use provider_temporal.Clients.Namespace.Refinement.{
  Creates, create_namespace-Creates, Deletes, delete_namespace_by_name-Deletes,
}
use provider_temporal.Controller.TemporalNamespace.External.{
  observe_namespace, create_external, delete_external,
}
use provider_temporal.Controller.TemporalNamespace.Observe.{Observes, observe_namespace-Observes}
use provider_temporal.Controller.TemporalNamespace.Converge.{
  CreatesThenObserves, create_external-CreatesThenObserves,
}
use provider_temporal.Controller.TemporalNamespace.Deletion.{
  DeletesThenObserves, delete_external-DeletesThenObserves, KeepsSpec, observe_namespace-KeepsSpec,
}
use provider_temporal.Clients.Namespace.Service.{list_all_namespaces}
use provider_temporal.Clients.Namespace.Listing.{IsIn, IsListedOf, list_all_namespaces-Lists}
use provider_temporal.Api.Namespace.{TemporalNamespaceObservation}
use provider_temporal.Controller.TemporalNamespace.External.{update_external}
use provider_temporal.Controller.TemporalNamespace.Updating.{
  UpdatesThenObserves, update_external-UpdatesThenObserves,
}
use provider_temporal.Tests.Server.{World, temporal, server, updates, enums}
use provider_temporal.Tests.Equality.{cmp_namespace, cmp_namespace-IsExact}
use provider_temporal.Tests.Connections.{kube}

abbrev pub spec : TemporalNamespaceParameters
spec = record {
  name = "orders";
  description = some "Orders";
  owner_email = none;
  workflow_execution_retention_days = pos 30;
  data_map = some (some (("team", "shop") ∷ []));
  history_archival_state = "Disabled";
  history_archival_uri = none;
  visibility_archival_state = "Disabled";
  visibility_archival_uri = none;
}

abbrev pub resource : TemporalNamespace kube
resource = record {
  type_meta = tt;
  object_meta = "";
  spec = record { resource_spec = tt; provider_reference = none; for_provider = spec };
  status = record {
    resource_status = [];
    at_provider = record {
      id = "";
      name = "";
      description = none;
      owner_email = none;
      workflow_execution_retention_days = pos 0;
      data_map = none;
      history_archival_state = "";
      history_archival_uri = none;
      visibility_archival_state = "";
      visibility_archival_uri = none;
      state = "";
    };
  };
}

abbrev orders : Namespace
orders = registered (create_request temporal spec) "id" 1 (create_retention (pos 30))

abbrev empty : World
empty = record { namespaces = []; attributes = [] }

abbrev filled : World
filled = record { namespaces = ("orders", orders) ∷ []; attributes = [] }

create_external-CreatesThenObserves_example :
    CreatesThenObserves temporal cmp_namespace cmp_namespace-IsExact server resource empty
      (create_external temporal (resource, empty))
create_external-CreatesThenObserves_example =
    create_external-CreatesThenObserves temporal cmp_namespace cmp_namespace-IsExact server resource
      empty refl

observe_namespace-Observes_example :
    Observes temporal cmp_namespace server resource filled
      (observe_namespace temporal cmp_namespace (resource, filled))
observe_namespace-Observes_example =
    observe_namespace-Observes temporal cmp_namespace server resource filled

delete_external-DeletesThenObserves_example :
    DeletesThenObserves temporal cmp_namespace server resource filled
      (delete_external temporal (resource, filled))
delete_external-DeletesThenObserves_example =
    delete_external-DeletesThenObserves temporal cmp_namespace server resource filled

observe_namespace-KeepsSpec_example :
    KeepsSpec temporal cmp_namespace resource
      (observe_namespace temporal cmp_namespace (resource, filled))
observe_namespace-KeepsSpec_example =
    observe_namespace-KeepsSpec temporal cmp_namespace resource filled

create_namespace-Creates_example :
    Creates temporal server spec empty (create_namespace temporal spec empty)
create_namespace-Creates_example = create_namespace-Creates temporal server spec empty

delete_namespace_by_name-Deletes_example :
    Deletes temporal server "orders" filled (delete_namespace_by_name temporal "orders" filled)
delete_namespace_by_name-Deletes_example =
    delete_namespace_by_name-Deletes temporal server "orders" filled

map_to_namespace_compare-common_example :
    map_to_namespace_compare (parameters spec) empty ≡ (ok (common (parameters spec)), empty)
map_to_namespace_compare-common_example = map_to_namespace_compare-common (parameters spec) empty

retention_days-create_retention_example :
    (retention_days (create_retention (pos 106752)) ≡ pos 106752) ↔ IsRetainable (pos 106752)
retention_days-create_retention_example = retention_days-create_retention (pos 106752)

common-stored_example :
    (common (observation (stored_observation temporal "id" 1 spec)) ≡ common (parameters spec))
    ↔ IsCanonical enums spec
common-stored_example = common-stored temporal "id" 1 spec

-- The namespace was described otherwise and had no data.
abbrev described_otherwise : World
described_otherwise = record {
  namespaces =
      (
        "orders",
        record orders { info = record (orders.info) { description = "Old"; data_map = none } },
      )
      ∷ [];
  attributes = [];
}

update_external-UpdatesThenObserves_example :
    UpdatesThenObserves temporal cmp_namespace cmp_namespace-IsExact server updates resource
      described_otherwise
      (update_external temporal (resource, described_otherwise))
update_external-UpdatesThenObserves_example =
    update_external-UpdatesThenObserves temporal cmp_namespace cmp_namespace-IsExact server updates
      resource described_otherwise

list_all_namespaces-Lists_example :
    (os : List TemporalNamespaceObservation) × (list_all_namespaces temporal filled
      ≡ (ok os, filled))
    × ((o : TemporalNamespaceObservation) → IsIn o os ↔ IsListedOf temporal (orders ∷ []) o)
list_all_namespaces-Lists_example =
    list_all_namespaces-Lists temporal (orders ∷ []) filled filled refl
