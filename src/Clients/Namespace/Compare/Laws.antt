-- ===== src/Clients/Namespace/Compare/Laws.antt =====
-- What MapToNamespaceCompare keeps of a spec and of an observation.
use provider_temporal.Base.{
  ◌≡◌, refl, ap, String, Option, none, some, arith, String-cases, inl, inr, sym,
}
use provider_temporal.Base.Int.{ℤ, pos, negsuc}
use provider_temporal.Go.Effects.{ok}
use provider_temporal.Go.Json.{
  Json, Members, end, object, StringMap, text_omitempty, int_omitempty, text_pointer_omitempty,
  map_pointer_omitempty, read, same_key, assign_text, assign_int, assign_text_pointer,
  assign_map_pointer,
}
use provider_temporal.Go.Json.Laws.{read-put, read-end, read_entries-entries}
use provider_temporal.Clients.Namespace.Compare.{
  NamespaceCompare, Comparable, parameters, observation, marshal, unmarshal,
  map_to_namespace_compare,
}

-- JSON writes a pointer to a nil map as null, which is read as a nil pointer.
abbrev pub keep_map : Option StringMap → Option StringMap
keep_map none = none
keep_map (some none) = none
keep_map (some (some m)) = some (some m)

-- The fields that a spec and an observation share.
abbrev pub common : Comparable → NamespaceCompare
common (parameters p) = record {
  name = p.name;
  description = p.description;
  owner_email = p.owner_email;
  workflow_execution_retention_days = p.workflow_execution_retention_days;
  data_map = keep_map p.data_map;
  history_archival_state = p.history_archival_state;
  history_archival_uri = p.history_archival_uri;
  visibility_archival_state = p.visibility_archival_state;
  visibility_archival_uri = p.visibility_archival_uri;
}
common (observation o) = record {
  name = o.name;
  description = o.description;
  owner_email = o.owner_email;
  workflow_execution_retention_days = o.workflow_execution_retention_days;
  data_map = keep_map o.data_map;
  history_archival_state = o.history_archival_state;
  history_archival_uri = o.history_archival_uri;
  visibility_archival_state = o.visibility_archival_state;
  visibility_archival_uri = o.visibility_archival_uri;
}

-- What a present field does to a fresh one.
module _ {A : Type 0} (assign : A → Json → Option A) where
  abbrev pub fill : A → Option Json → Option A
  fill a none = some a
  fill a (some v) = assign a v

fill-text : (s : String) → fill assign_text "" (text_omitempty s) ≡ some s
fill-text s = elim (String-cases s "") [
  | inl (e, b) ↦ rw b (ap some (sym e))
  | inr (_, b) ↦ rw b refl
]

fill-int : (z : ℤ) → fill assign_int (pos 0) (int_omitempty z) ≡ some z
fill-int (pos n) = ground arith
fill-int (negsuc n) = refl

pub fill-text_pointer :
    (o : Option String) → fill assign_text_pointer none (text_pointer_omitempty o) ≡ some o
fill-text_pointer none = refl
fill-text_pointer (some s) = refl

fill-map_pointer :
    (o : Option StringMap)
    → fill assign_map_pointer none (map_pointer_omitempty o) ≡ some (keep_map o)
fill-map_pointer none = refl
fill-map_pointer (some none) = refl
fill-map_pointer (some (some m)) = rw (read_entries-entries m, assign_map_pointer) refl

abbrev pub members_of_object : Json → Members
members_of_object (object ms) = ms
members_of_object _ = end

abbrev members_of : Comparable → Members
members_of c = members_of_object (marshal c)

read-name :
    (c : Comparable) → read assign_text "name" (some "") (members_of c) ≡ some (common c).name
unfolding marshal same_key
read-name (parameters p) = simp (read-put, read-end)
read-name (observation o) = simp (read-put, read-end)

read-description :
    (c : Comparable)
    → read assign_text_pointer "description" (some none) (members_of c)
      ≡ some (common c).description
unfolding marshal same_key
read-description (parameters p) = simp (read-put, read-end) (fill-text_pointer p.description)
read-description (observation o) = simp (read-put, read-end) (fill-text_pointer o.description)

read-owner_email :
    (c : Comparable)
    → read assign_text_pointer "ownerEmail" (some none) (members_of c) ≡ some (common c).owner_email
unfolding marshal same_key
read-owner_email (parameters p) = simp (read-put, read-end) (fill-text_pointer p.owner_email)
read-owner_email (observation o) = simp (read-put, read-end) (fill-text_pointer o.owner_email)

read-workflow_execution_retention_days :
    (c : Comparable)
    → read assign_int "workflowExecutionRetentionDays" (some (pos 0)) (members_of c)
      ≡ some (common c).workflow_execution_retention_days
unfolding marshal same_key
read-workflow_execution_retention_days (parameters p) =
    simp (read-put, read-end) (fill-int p.workflow_execution_retention_days)
read-workflow_execution_retention_days (observation o) =
    simp (read-put, read-end) (fill-int o.workflow_execution_retention_days)

read-data_map :
    (c : Comparable)
    → read assign_map_pointer "data" (some none) (members_of c) ≡ some (common c).data_map
unfolding marshal same_key
read-data_map (parameters p) = simp (read-put, read-end) (fill-map_pointer p.data_map)
read-data_map (observation o) = simp (read-put, read-end) (fill-map_pointer o.data_map)

read-history_archival_state :
    (c : Comparable)
    → read assign_text "historyArchivalState" (some "") (members_of c)
      ≡ some (common c).history_archival_state
unfolding marshal same_key
read-history_archival_state (parameters p) =
    simp (read-put, read-end) (fill-text p.history_archival_state)
read-history_archival_state (observation o) =
    simp (read-put, read-end) (fill-text o.history_archival_state)

read-history_archival_uri :
    (c : Comparable)
    → read assign_text_pointer "historyArchivalUri" (some none) (members_of c)
      ≡ some (common c).history_archival_uri
unfolding marshal same_key
read-history_archival_uri (parameters p) =
    simp (read-put, read-end) (fill-text_pointer p.history_archival_uri)
read-history_archival_uri (observation o) =
    simp (read-put, read-end) (fill-text_pointer o.history_archival_uri)

read-visibility_archival_state :
    (c : Comparable)
    → read assign_text "visibilityArchivalState" (some "") (members_of c)
      ≡ some (common c).visibility_archival_state
unfolding marshal same_key
read-visibility_archival_state (parameters p) =
    simp (read-put, read-end) (fill-text p.visibility_archival_state)
read-visibility_archival_state (observation o) =
    simp (read-put, read-end) (fill-text o.visibility_archival_state)

read-visibility_archival_uri :
    (c : Comparable)
    → read assign_text_pointer "visibilityArchivalUri" (some none) (members_of c)
      ≡ some (common c).visibility_archival_uri
unfolding marshal same_key
read-visibility_archival_uri (parameters p) =
    simp (read-put, read-end) (fill-text_pointer p.visibility_archival_uri)
read-visibility_archival_uri (observation o) =
    simp (read-put, read-end) (fill-text_pointer o.visibility_archival_uri)

-- MapToNamespaceCompare never fails, changes nothing, and gives just the fields that a spec and an
-- observation share; a pointer to a nil map becomes nil.
pub map_to_namespace_compare-common :
    {W : Type 0} (c : Comparable) (w : W) → map_to_namespace_compare c w ≡ (ok (common c), w)
unfolding map_to_namespace_compare unmarshal marshal
map_to_namespace_compare-common (parameters p) w =
    rw
      (
        read-name (parameters p),
        read-description (parameters p),
        read-owner_email (parameters p),
        read-workflow_execution_retention_days (parameters p),
        read-data_map (parameters p),
        read-history_archival_state (parameters p),
        read-history_archival_uri (parameters p),
        read-visibility_archival_state (parameters p),
        read-visibility_archival_uri (parameters p),
      )
      refl
map_to_namespace_compare-common (observation o) w =
    rw
      (
        read-name (observation o),
        read-description (observation o),
        read-owner_email (observation o),
        read-workflow_execution_retention_days (observation o),
        read-data_map (observation o),
        read-history_archival_state (observation o),
        read-history_archival_uri (observation o),
        read-visibility_archival_state (observation o),
        read-visibility_archival_uri (observation o),
      )
      refl
