-- ===== src/Clients/SearchAttribute/Compare.antt =====
-- internal/clients/searchattribute.go: SearchAttributeCompare, and MapToSearchAttributeCompare, which takes
-- the fields that a spec and an observation share by way of JSON.
pub mod Laws
use provider_temporal.Base.{String, Option, none, some}
use provider_temporal.Go.Effects.{Action, ◌>>=◌, pure, raise, message}
use provider_temporal.Go.Json.{
  Json, null, text, object, end, put, text_pointer_omitempty, read, assign_text,
  assign_text_pointer,
}
use provider_temporal.Api.SearchAttribute.{SearchAttributeParameters, SearchAttributeObservation}
use provider_temporal.Clients.Namespace.Compare.{decoded}

pub record SearchAttributeCompare : Type 0 where
  pub name : String
  pub type : String
  pub temporal_namespace_name : Option String

-- How crossplane-runtime's types are written.
pub record References (Reference Selector : Type 0) : Type 0 where
  pub reference_json : Reference → Json
  pub selector_json : Selector → Json

abbrev pub given : {A : Type 0} → (A → Json) → Option A → Option Json
given f none = none
given f (some a) = some (f a)

-- The types that the controller hands to MapToSearchAttributeCompare as an `interface{}`.
pub data Comparable (R S : Type 0) : Type 0 where
  parameters : SearchAttributeParameters R S → Comparable R S
  observation : SearchAttributeObservation → Comparable R S

module _ {R S : Type 0} (refs : References R S) where
  -- json.Marshal by the tags of the two structs.
  unfoldable pub marshal : Comparable R S → Json
  marshal (parameters p) = object (
      put "name" (some (text p.name)) (
        put "type" (some (text p.type)) (
          put "temporalNamespaceName" (text_pointer_omitempty p.temporal_namespace_name) (
            put "temporalNamespaceNameRef" (given refs.reference_json p.temporal_namespace_name_ref)
              (put "temporalNamespaceNameSelector"
                (given refs.selector_json p.temporal_namespace_name_selector) end)))))
  marshal (observation o) = object (
      put "name" (some (text o.name)) (
        put "type" (some (text o.type))
          (put "temporalNamespaceName" (some (text o.temporal_namespace_name)) end)))

-- json.Unmarshal by the tags of SearchAttributeCompare, into a fresh struct.
unfoldable pub unmarshal : {W : Type 0} → Json → Action W SearchAttributeCompare
unmarshal (object ms) = do
  name ← decoded (read assign_text "name" (some "") ms)
  type ← decoded (read assign_text "type" (some "") ms)
  namespace ← decoded (read assign_text_pointer "temporalNamespaceName" (some none) ms)
  pure (record { name = name; type = type; temporal_namespace_name = namespace })
unmarshal null = pure (record { name = ""; type = ""; temporal_namespace_name = none })
unmarshal _ = raise (message "json: cannot unmarshal")

unfoldable pub map_to_search_attribute_compare :
    {R S : Type 0}
    → References R S
    → {W : Type 0} → Comparable R S
    → Action W SearchAttributeCompare
map_to_search_attribute_compare refs c = unmarshal (marshal refs c)
