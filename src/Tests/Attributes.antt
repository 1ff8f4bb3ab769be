-- ===== src/Tests/Attributes.antt =====
-- The theorems on search attributes, for one attribute on a server in memory.
use provider_temporal.Base.{◌≡◌, refl, some, none, [], ◌∷◌}
use provider_temporal.Go.Effects.{ok}
use provider_temporal.Api.SearchAttribute.{SearchAttributeParameters, SearchAttribute}
use provider_temporal.Clients.SearchAttribute.Service.{describe_search_attribute_by_name}
use provider_temporal.Clients.SearchAttribute.Refinement.{
  observed, describe_search_attribute_by_name_lem,
}
use provider_temporal.Clients.SearchAttribute.Server.{find}
use provider_temporal.Controller.SearchAttribute.External.{
  observe_attribute, create_external, delete_external,
}
use provider_temporal.Controller.SearchAttribute.Observe.{Observes, observe_attribute-Observes}
use provider_temporal.Controller.SearchAttribute.Converge.{
  AddsThenObserves, create_external-AddsThenObserves, RemovesThenObserves,
  delete_external-RemovesThenObserves,
}
use provider_temporal.Tests.Server.{World, temporal, attributes}
use provider_temporal.Tests.Equality.{cmp_attribute, cmp_attribute-IsExact}
use provider_temporal.Tests.Connections.{kube}

abbrev pub spec : SearchAttributeParameters (Unit {0}) (Unit {0})
spec = record {
  name = "customer";
  type = "Keyword";
  temporal_namespace_name = some "orders";
  temporal_namespace_name_ref = none;
  temporal_namespace_name_selector = none;
}

abbrev pub resource : SearchAttribute kube
resource = record {
  type_meta = tt;
  object_meta = "";
  spec = record { resource_spec = tt; provider_reference = none; for_provider = spec };
  status = record {
    resource_status = [];
    at_provider = record { name = ""; type = ""; temporal_namespace_name = "" };
  };
}

abbrev pub empty : World
empty = record { namespaces = []; attributes = [] }

abbrev filled : World
filled = record { namespaces = []; attributes = ("total", 3) ∷ ("customer", 2) ∷ [] }

create_external-AddsThenObserves_example :
    AddsThenObserves temporal cmp_attribute cmp_attribute-IsExact attributes resource "orders" empty
      (create_external temporal (resource, empty))
create_external-AddsThenObserves_example =
    create_external-AddsThenObserves temporal cmp_attribute cmp_attribute-IsExact attributes
      resource "orders" empty refl

delete_external-RemovesThenObserves_example :
    RemovesThenObserves temporal cmp_attribute cmp_attribute-IsExact attributes resource "orders"
      filled
      (delete_external temporal (resource, filled))
delete_external-RemovesThenObserves_example =
    delete_external-RemovesThenObserves temporal cmp_attribute cmp_attribute-IsExact attributes
      resource "orders" filled refl

observe_attribute-Observes_example :
    Observes temporal cmp_attribute resource "orders" filled.attributes filled
      (observe_attribute temporal cmp_attribute (resource, filled))
observe_attribute-Observes_example =
    observe_attribute-Observes temporal cmp_attribute attributes resource "orders" filled.attributes
      filled refl refl

describe_search_attribute_by_name_lem_example :
    describe_search_attribute_by_name temporal "orders" "customer" filled
    ≡ (ok (some (observed temporal "orders" "customer" 2)), filled)
unfolding find
describe_search_attribute_by_name_lem_example =
    describe_search_attribute_by_name_lem temporal attributes "orders" "customer" filled.attributes
      filled refl

-- An attribute that comes to the controller of namespaces.
