-- ===== src/Controller/SearchAttribute/External.antt =====
-- internal/controller/searchattribute/searchattribute.go: the methods Observe, Create, Update and
-- Delete of `external`. Logging is left out.
use Prim.Native.String.{◌++◌}
use provider_temporal.Base.{String, Option, none, some}
use provider_temporal.Go.Effects.{Error, message, Action, ◌>>=◌, ◌>>◌, pure, raise, deref}
use provider_temporal.Api.Kube.{Kube, available}
use provider_temporal.Api.SearchAttribute.{SearchAttribute, SearchAttributeObservation}
use provider_temporal.Clients.Temporal.{Temporal}
use provider_temporal.Clients.SearchAttribute.Compare.{
  SearchAttributeCompare, References, parameters, observation, map_to_search_attribute_compare,
}
use provider_temporal.Clients.SearchAttribute.Service.{
  create_search_attribute, describe_search_attribute_by_name, delete_search_attribute_by_name,
}
use provider_temporal.Controller.Managed.{
  Managed, ExternalObservation, Cmp, get, modify, wrapping, on_search_attribute, missing, compared,
}

abbrev pub not_search_attribute : Error
not_search_attribute = message "managed resource is not a SearchAttribute custom resource"

abbrev pub err_describe : String
err_describe = "failed to describe SearchAttribute resource"

abbrev pub err_create : String
err_create = "failed to create SearchAttribute resource"

abbrev pub err_delete : String
err_delete = "failed to delete SearchAttribute resource"

abbrev pub err_mapping : String
err_mapping = "failed to map SearchAttribute resource as comparable"

module _ {k : Kube} where
  -- The status of an attribute that was found.
  unfoldable pub report_found : SearchAttributeObservation → SearchAttribute k → SearchAttribute k
  report_found o cr = record cr {
    status = record {
      resource_status =
          k.set_conditions cr.status.resource_status (available "SearchAttribute exists");
      at_provider = o;
    };
  }

  unfoldable pub set_external_name : String → SearchAttribute k → SearchAttribute k
  set_external_name name cr = record cr { object_meta = k.set_external_name cr.object_meta name }

abbrev pub references : (k : Kube) → References k.Reference k.Selector
references k = record { reference_json = k.reference_json; selector_json = k.selector_json }

-- `errors.New("TemporalNamespaceName not set")`
abbrev pub namespace_of : {C W : Type 0} → Option String → Action (C × W) String
namespace_of none = raise (message "TemporalNamespaceName not set")
namespace_of (some namespace) = pure namespace

module _ {k : Kube} {W : Type 0} (t : Temporal W) (cmp : Cmp SearchAttributeCompare) where
  abbrev pub observe_found :
      Option SearchAttributeObservation → Action (SearchAttribute k × W) ExternalObservation
  observe_found none = pure missing
  observe_found (some observed) = do
    modify (report_found observed)
    observed_compareable ←
        wrapping err_mapping (map_to_search_attribute_compare (references k) (observation observed))
    cr ← get
    spec_compareable ←
        wrapping err_mapping
          (map_to_search_attribute_compare (references k) (parameters cr.spec.for_provider))
    pure (compared cmp spec_compareable observed_compareable)

  unfoldable pub observe_attribute : Action (SearchAttribute k × W) ExternalObservation
  observe_attribute = do
    cr ← get
    namespace ← namespace_of cr.spec.for_provider.temporal_namespace_name
    observed ←
        wrapping err_describe
          (describe_search_attribute_by_name t namespace cr.spec.for_provider.name)
    observe_found observed

  unfoldable pub observe : Action (Managed k × W) ExternalObservation
  observe = on_search_attribute not_search_attribute observe_attribute

module _ {k : Kube} {W : Type 0} (t : Temporal W) where
  unfoldable pub create_external : Action (SearchAttribute k × W) (Unit {0})
  create_external = do
    cr ← get
    wrapping err_create (create_search_attribute t cr.spec.for_provider)
    namespace ← deref cr.spec.for_provider.temporal_namespace_name
    modify (set_external_name (namespace ++ "." ++ cr.spec.for_provider.name))

  unfoldable pub create : Action (Managed k × W) (Unit {0})
  create = on_search_attribute not_search_attribute create_external

  unfoldable pub delete_external : Action (SearchAttribute k × W) (Unit {0})
  delete_external = do
    cr ← get
    namespace ← deref cr.spec.for_provider.temporal_namespace_name
    wrapping err_delete (delete_search_attribute_by_name t namespace cr.spec.for_provider.name)

  unfoldable pub delete : Action (Managed k × W) (Unit {0})
  delete = on_search_attribute not_search_attribute delete_external

abbrev pub immutable : String → Error
immutable name =
    message ("Search Attribute '" ++ name ++ "' can not be updated! All properties are immutable!")

module _ {k : Kube} {W : Type 0} where
  unfoldable pub update_external : Action (SearchAttribute k × W) (Unit {0})
  update_external = do cr ← get; raise (immutable (k.get_external_name cr.object_meta))

  unfoldable pub update : Action (Managed k × W) (Unit {0})
  update = on_search_attribute not_search_attribute update_external
