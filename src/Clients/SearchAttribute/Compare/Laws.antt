-- ===== src/Clients/SearchAttribute/Compare/Laws.antt =====
-- What MapToSearchAttributeCompare keeps of a spec and of an observation.
use provider_temporal.Base.{◌≡◌, refl, none, some}
use provider_temporal.Go.Effects.{ok}
use provider_temporal.Go.Json.{Members, read, same_key, assign_text, assign_text_pointer}
use provider_temporal.Go.Json.Laws.{read-put, read-end}
use provider_temporal.Clients.SearchAttribute.Compare.{
  SearchAttributeCompare, References, Comparable, parameters, observation, marshal, unmarshal,
  map_to_search_attribute_compare,
}
use provider_temporal.Clients.Namespace.Compare.Laws.{fill-text_pointer, members_of_object}

module _ {R S : Type 0} where
  -- The fields that a spec and an observation share.
  abbrev pub common : Comparable R S → SearchAttributeCompare
  common (parameters p) = record {
    name = p.name;
    type = p.type;
    temporal_namespace_name = p.temporal_namespace_name;
  }
  common (observation o) = record {
    name = o.name;
    type = o.type;
    temporal_namespace_name = some o.temporal_namespace_name;
  }

module _ {R S : Type 0} (refs : References R S) where
  abbrev members_of : Comparable R S → Members
  members_of c = members_of_object (marshal refs c)

  read-name :
      (c : Comparable R S) → read assign_text "name" (some "") (members_of c) ≡ some (common c).name
  unfolding marshal same_key
  read-name (parameters p) = simp (read-put, read-end)
  read-name (observation o) = simp (read-put, read-end)

  read-type :
      (c : Comparable R S) → read assign_text "type" (some "") (members_of c) ≡ some (common c).type
  unfolding marshal same_key
  read-type (parameters p) = simp (read-put, read-end)
  read-type (observation o) = simp (read-put, read-end)

  read-temporal_namespace_name :
      (c : Comparable R S)
      → read assign_text_pointer "temporalNamespaceName" (some none) (members_of c)
        ≡ some (common c).temporal_namespace_name
  unfolding marshal same_key
  read-temporal_namespace_name (parameters p) =
      simp (read-put, read-end) (fill-text_pointer p.temporal_namespace_name)
  read-temporal_namespace_name (observation o) = simp (read-put, read-end)

  -- MapToSearchAttributeCompare never fails, changes nothing, and gives just the fields that a spec
  -- and an observation share.
  pub map_to_search_attribute_compare-common :
      {W : Type 0} (c : Comparable R S) (w : W)
      → map_to_search_attribute_compare refs c w ≡ (ok (common c), w)
  unfolding map_to_search_attribute_compare unmarshal marshal
  map_to_search_attribute_compare-common (parameters p) w =
      rw
        (
          read-name (parameters p),
          read-type (parameters p),
          read-temporal_namespace_name (parameters p),
        )
        refl
  map_to_search_attribute_compare-common (observation o) w =
      rw
        (
          read-name (observation o),
          read-type (observation o),
          read-temporal_namespace_name (observation o),
        )
        refl
