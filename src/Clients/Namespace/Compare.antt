-- ===== src/Clients/Namespace/Compare.antt =====
-- internal/clients/namespace.go: NamespaceCompare, and MapToNamespaceCompare, which takes the fields that
-- a spec and an observation share by way of JSON.
pub mod Laws
use provider_temporal.Base.{
  ℕ, ◌*◌, ◌≡◌, String, Bool, true, false, not, ◌&&◌, Option, none, some, List, [], ◌∷◌, ◌++◌,
  if◌then◌else◌, ◌==◌,
}
use provider_temporal.Base.Int.{ℤ, pos, ◌*ℤ◌, ◌/ℤ◌}
use provider_temporal.Go.Word.{wrap64}
use provider_temporal.Go.Effects.{
  Error, namespace_already_exists, namespace_not_found, namespace_invalid_state, errors_as, Reply,
  reply, failure, Result, ok, err, panic, Action, ◌>>=◌, ◌>>◌, pure, raise, panics, message, deref,
  call, attempt, or_raise,
}
use provider_temporal.Go.Json.{
  Json, Members, null, number, text, end, object, StringMap, put, text_omitempty, int_omitempty,
  text_pointer_omitempty, map_pointer_omitempty, read, assign_text, assign_int, assign_text_pointer,
  assign_map_pointer,
}
use provider_temporal.Api.Namespace.{TemporalNamespaceParameters, TemporalNamespaceObservation}
use provider_temporal.Clients.Temporal.{
  Temporal, Enums, RegisterNamespaceRequest, UpdateNamespaceRequest, UpdateNamespaceInfo,
  NamespaceConfig, NamespaceInfo, DescribeNamespaceResponse, index,
}

pub record NamespaceCompare : Type 0 where
  pub name : String
  pub description : Option String
  pub owner_email : Option String
  pub workflow_execution_retention_days : ℤ
  pub data_map : Option StringMap
  pub history_archival_state : String
  pub history_archival_uri : Option String
  pub visibility_archival_state : String
  pub visibility_archival_uri : Option String

-- The types that the controller hands to MapToNamespaceCompare as an `interface{}`.
pub data Comparable : Type 0 where
  parameters : TemporalNamespaceParameters → Comparable
  observation : TemporalNamespaceObservation → Comparable

-- json.Marshal by the tags of the two structs.
unfoldable pub marshal : Comparable → Json
marshal (parameters p) = object (
    put "name" (some (text p.name)) (
      put "description" (text_pointer_omitempty p.description) (
        put "ownerEmail" (text_pointer_omitempty p.owner_email) (
          put "workflowExecutionRetentionDays" (int_omitempty p.workflow_execution_retention_days) (
            put "data" (map_pointer_omitempty p.data_map) (
              put "historyArchivalState" (text_omitempty p.history_archival_state) (
                put "historyArchivalUri" (text_pointer_omitempty p.history_archival_uri) (
                  put "visibilityArchivalState" (text_omitempty p.visibility_archival_state) (
                    put "visibilityArchivalUri" (text_pointer_omitempty p.visibility_archival_uri)
                      end)))))))))
marshal (observation o) = object (
    put "id" (some (text o.id)) (
      put "name" (some (text o.name)) (
        put "description" (text_pointer_omitempty o.description) (
          put "ownerEmail" (text_pointer_omitempty o.owner_email) (
            put "workflowExecutionRetentionDays" (int_omitempty o.workflow_execution_retention_days)
              (put "data" (map_pointer_omitempty o.data_map) (
                put "historyArchivalState" (text_omitempty o.history_archival_state) (
                  put "historyArchivalUri" (text_pointer_omitempty o.history_archival_uri) (
                    put "visibilityArchivalState" (text_omitempty o.visibility_archival_state) (
                      put "visibilityArchivalUri" (text_pointer_omitempty o.visibility_archival_uri)
                        (put "state" (some (text o.state)) end)))))))))))

-- A decoded field, or json's type error.
abbrev pub decoded : {W A : Type 0} → Option A → Action W A
decoded none = raise (message "json: cannot unmarshal")
decoded (some a) = pure a

abbrev zero_compare : NamespaceCompare
zero_compare = record {
  name = "";
  description = none;
  owner_email = none;
  workflow_execution_retention_days = pos 0;
  data_map = none;
  history_archival_state = "";
  history_archival_uri = none;
  visibility_archival_state = "";
  visibility_archival_uri = none;
}

-- json.Unmarshal by the tags of NamespaceCompare, into a fresh struct.
unfoldable pub unmarshal : {W : Type 0} → Json → Action W NamespaceCompare
unmarshal (object ms) = do
  name ← decoded (read assign_text "name" (some "") ms)
  description ← decoded (read assign_text_pointer "description" (some none) ms)
  owner_email ← decoded (read assign_text_pointer "ownerEmail" (some none) ms)
  days ← decoded (read assign_int "workflowExecutionRetentionDays" (some (pos 0)) ms)
  data_map ← decoded (read assign_map_pointer "data" (some none) ms)
  history_state ← decoded (read assign_text "historyArchivalState" (some "") ms)
  history_uri ← decoded (read assign_text_pointer "historyArchivalUri" (some none) ms)
  visibility_state ← decoded (read assign_text "visibilityArchivalState" (some "") ms)
  visibility_uri ← decoded (read assign_text_pointer "visibilityArchivalUri" (some none) ms)
  pure (record {
    name = name;
    description = description;
    owner_email = owner_email;
    workflow_execution_retention_days = days;
    data_map = data_map;
    history_archival_state = history_state;
    history_archival_uri = history_uri;
    visibility_archival_state = visibility_state;
    visibility_archival_uri = visibility_uri;
  })
unmarshal null = pure zero_compare
unmarshal _ = raise (message "json: cannot unmarshal")

unfoldable pub map_to_namespace_compare : {W : Type 0} → Comparable → Action W NamespaceCompare
map_to_namespace_compare c = unmarshal (marshal c)
