-- ===== src/Clients/SearchAttribute/Service.antt =====
-- internal/clients/searchattribute.go: the calls about search attributes.
use provider_temporal.Base.{ℕ, String, Option, none, some, List, [], ◌∷◌, map, if◌then◌else◌, ◌==◌}
use provider_temporal.Go.Effects.{
  Reply, reply, failure, Action, ◌>>=◌, pure, raise, deref, call, or_raise,
}
use provider_temporal.Api.SearchAttribute.{SearchAttributeParameters, SearchAttributeObservation}
use provider_temporal.Clients.Temporal.{Temporal, AddSearchAttributesRequest, index}

module _ {W : Type 0} (t : Temporal W) where
  open t.enums use {indexed_value_type_value, indexed_value_type_string}

  -- The request of CreateSearchAttribute for a namespace.
  unfoldable pub add_request :
      {R S : Type 0} → String → SearchAttributeParameters R S → AddSearchAttributesRequest
  add_request namespace p = record {
    namespace = namespace;
    search_attributes = (p.name, index indexed_value_type_value p.type) ∷ [];
  }

  -- It panics on a spec without a namespace.
  unfoldable pub create_search_attribute :
      {R S : Type 0} → SearchAttributeParameters R S → Action W (Unit {0})
  create_search_attribute p = do
    namespace ← deref p.temporal_namespace_name
    r ← call (t.add_search_attributes (add_request namespace p))
    or_raise r

  unfoldable pub custom_attribute : String → String × ℕ → SearchAttributeObservation
  custom_attribute namespace (attr_name, attr_type) = record {
    name = attr_name;
    type = indexed_value_type_string attr_type;
    temporal_namespace_name = namespace;
  }

  abbrev pub listed :
      String → Reply (Option (List (String × ℕ))) → Action W (List SearchAttributeObservation)
  listed namespace (reply none) = pure []
  listed namespace (reply (some attributes)) = pure (map (custom_attribute namespace) attributes)
  listed namespace (failure e) = raise e

  unfoldable pub list_search_attributes_by_namespace :
      String → Action W (List SearchAttributeObservation)
  list_search_attributes_by_namespace namespace = do
    r ← call (t.list_search_attributes namespace)
    listed namespace r

  unfoldable pub find_by_name :
      String → List SearchAttributeObservation → Option SearchAttributeObservation
  find_by_name name [] = none
  find_by_name name (a ∷ rest) = if a.name == name then some a else find_by_name name rest

  unfoldable pub describe_search_attribute_by_name :
      String → String → Action W (Option SearchAttributeObservation)
  describe_search_attribute_by_name namespace name = do
    attributes ← list_search_attributes_by_namespace namespace
    pure (find_by_name name attributes)

  unfoldable pub delete_search_attribute_by_name : String → String → Action W (Unit {0})
  delete_search_attribute_by_name namespace name = do
    r ← call (
        t.remove_search_attributes
          (record { namespace = namespace; search_attributes = name ∷ [] }))
    or_raise r
