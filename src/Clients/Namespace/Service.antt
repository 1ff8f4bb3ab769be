-- ===== src/Clients/Namespace/Service.antt =====
-- internal/clients/namespace.go: the calls about namespaces.
use provider_temporal.Base.{
  String, Bool, not, ◌&&◌, Option, none, some, List, [], ◌∷◌, ◌++◌, if◌then◌else◌, ◌==◌,
}
use provider_temporal.Base.Int.{ℤ}
use provider_temporal.Go.Effects.{
  Error, namespace_already_exists, namespace_not_found, namespace_invalid_state, errors_as, Reply,
  reply, failure, Action, ◌>>=◌, pure, raise, panics, deref, call, attempt, or_raise,
}
use provider_temporal.Api.Namespace.{TemporalNamespaceParameters, TemporalNamespaceObservation}
use provider_temporal.Clients.Temporal.{
  Temporal, RegisterNamespaceRequest, UpdateNamespaceRequest, NamespaceConfig, NamespaceInfo,
  DescribeNamespaceResponse, index,
}
use provider_temporal.Clients.Namespace.Fields.{
  create_retention, update_retention, retention_days, resolve_ptr_or_default,
  create_ptr_or_nil_if_default, data_or_nil, is_non_empty,
}

module _ {W : Type 0} (t : Temporal W) where
  open t.enums use {archival_state_value, archival_state_string, namespace_state_string}

  unfoldable pub create_request : TemporalNamespaceParameters → RegisterNamespaceRequest
  create_request p = record {
    namespace = p.name;
    description = resolve_ptr_or_default p.description;
    owner_email = resolve_ptr_or_default p.owner_email;
    workflow_execution_retention_period =
        some (create_retention p.workflow_execution_retention_days);
    data_map = data_or_nil p.data_map;
    history_archival_state = index archival_state_value p.history_archival_state;
    history_archival_uri = resolve_ptr_or_default p.history_archival_uri;
    visibility_archival_state = index archival_state_value p.visibility_archival_state;
    visibility_archival_uri = resolve_ptr_or_default p.visibility_archival_uri;
  }

  -- A namespace that is there already counts as created.
  abbrev pub created : Reply (Unit {0}) → Action W (Unit {0})
  created (reply _) = pure tt
  created (failure e) = if errors_as namespace_already_exists e then pure tt else raise e

  unfoldable pub create_namespace : TemporalNamespaceParameters → Action W (Unit {0})
  create_namespace p = do r ← call (t.register_namespace (create_request p)); created r

  unfoldable pub update_request : TemporalNamespaceParameters → UpdateNamespaceRequest
  update_request p = record {
    namespace = p.name;
    update_info = some (record {
      description = resolve_ptr_or_default p.description;
      owner_email = resolve_ptr_or_default p.owner_email;
      data_map = data_or_nil p.data_map;
    });
    config = some (record {
      workflow_execution_retention_ttl =
          some (update_retention p.workflow_execution_retention_days);
      history_archival_state = index archival_state_value p.history_archival_state;
      history_archival_uri = resolve_ptr_or_default p.history_archival_uri;
      visibility_archival_state = index archival_state_value p.visibility_archival_state;
      visibility_archival_uri = resolve_ptr_or_default p.visibility_archival_uri;
    });
  }

  unfoldable pub update_namespace_by_name : TemporalNamespaceParameters → Action W (Unit {0})
  update_namespace_by_name p = do r ← call (t.update_namespace (update_request p)); or_raise r

  -- The fields of a response, where none of its pointers is nil.
  unfoldable pub observe_fields : NamespaceInfo → NamespaceConfig → ℤ → TemporalNamespaceObservation
  observe_fields info config ttl = record {
    id = info.id;
    name = info.name;
    description = create_ptr_or_nil_if_default info.description;
    owner_email = create_ptr_or_nil_if_default info.owner_email;
    workflow_execution_retention_days = retention_days ttl;
    data_map = if is_non_empty info.data_map then some info.data_map else none;
    history_archival_state = archival_state_string config.history_archival_state;
    history_archival_uri = create_ptr_or_nil_if_default config.history_archival_uri;
    visibility_archival_state = archival_state_string config.visibility_archival_state;
    visibility_archival_uri = create_ptr_or_nil_if_default config.visibility_archival_uri;
    state = namespace_state_string info.state;
  }

  unfoldable pub map_describe_namespace_response :
      DescribeNamespaceResponse → Action W TemporalNamespaceObservation
  map_describe_namespace_response response = do
    info ← deref response.namespace_info
    config ← deref response.config
    ttl ← deref config.workflow_execution_retention_ttl
    pure (observe_fields info config ttl)

  abbrev pub described :
      Reply (Option DescribeNamespaceResponse) → Action W (Option TemporalNamespaceObservation)
  described (reply none) = pure none
  described (reply (some response)) = do o ← map_describe_namespace_response response; pure (some o)
  described (failure e) = if errors_as namespace_not_found e then pure none else raise e

  -- No observation and no error: the namespace does not exist.
  unfoldable pub describe_namespace_by_name :
      String → Action W (Option TemporalNamespaceObservation)
  describe_namespace_by_name name = do r ← call (t.describe_namespace name); described r

  -- The name that was found is returned beside any error.
  abbrev pub deleted : String → Reply (Option (Unit {0})) → Action W (Option String × Option Error)
  deleted name (reply none) = panics
  deleted name (reply (some _)) = pure (some name, none)
  deleted name (failure e) =
      if errors_as namespace_invalid_state e
      then pure (some name, none)
      else if errors_as namespace_not_found e
      then pure (some name, none)
      else pure (some name, some e)

  abbrev pub delete_described :
      String → Reply (Option TemporalNamespaceObservation) → Action W (Option String × Option Error)
  delete_described name (reply none) = pure (none, none)
  delete_described name (reply (some namespace)) = do
    r ← call (t.delete_namespace name)
    deleted namespace.name r
  delete_described name (failure e) = pure (none, some e)

  unfoldable pub delete_namespace_by_name : String → Action W (Option String × Option Error)
  delete_namespace_by_name name = do
    found ← attempt (describe_namespace_by_name name)
    delete_described name found

  -- The system's namespace and those that are deleted already are left out.
  unfoldable pub is_listed : TemporalNamespaceObservation → Bool
  is_listed o = not (o.name == "temporal-system") && not (o.state == "Deleted")

  unfoldable pub list_responses :
      List DescribeNamespaceResponse → Action W (List TemporalNamespaceObservation)
  list_responses [] = pure []
  list_responses (response ∷ responses) = do
    o ← map_describe_namespace_response response
    rest ← list_responses responses
    pure (if is_listed o then o ∷ rest else rest)

  abbrev pub listed :
      Reply (Option (List DescribeNamespaceResponse)) → Action W (List TemporalNamespaceObservation)
  listed (reply none) = panics
  listed (reply (some responses)) = list_responses responses
  listed (failure e) = raise e

  unfoldable pub list_all_namespaces : Action W (List TemporalNamespaceObservation)
  list_all_namespaces = do r ← call (t.list_namespaces 100); listed r

  -- The loop of DeleteAllNamespaces: it stops at the first error, with what was deleted before.
  unfoldable pub delete_each :
      List TemporalNamespaceObservation
      → List (Option String)
      → Action W (List (Option String) × Option Error)
  delete_each [] done = pure (done, none)
  delete_each (namespace ∷ rest) done = do
    d ← delete_namespace_by_name namespace.name
    elim d.1 [ some e ↦ pure (done, some e) | none ↦ delete_each rest (done ++ d.0 ∷ []) ]

  abbrev pub delete_listed :
      Reply (List TemporalNamespaceObservation) → Action W (List (Option String) × Option Error)
  delete_listed (reply namespaces) = delete_each namespaces []
  delete_listed (failure e) = pure ([], some e)

  unfoldable pub delete_all_namespaces : Action W (List (Option String) × Option Error)
  delete_all_namespaces = do r ← attempt list_all_namespaces; delete_listed r
