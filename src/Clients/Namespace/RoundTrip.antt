-- ===== src/Clients/Namespace/RoundTrip.antt =====
-- A spec that is created, or updated, and then described.
use provider_temporal.Base.{ℕ, ◌≡◌, ap, ◌≢◌, ◌↔◌, String, some, []}
use provider_temporal.Api.Namespace.{TemporalNamespaceParameters, TemporalNamespaceObservation}
use provider_temporal.Clients.Temporal.{
  Temporal, Enums, NamespaceConfig, NamespaceInfo, DescribeNamespaceResponse, index,
}
use provider_temporal.Clients.Namespace.Fields.{create_retention}
use provider_temporal.Clients.Namespace.Compare.{NamespaceCompare, parameters, observation}
use provider_temporal.Clients.Namespace.Compare.Laws.{common}
use provider_temporal.Clients.Namespace.Fields.Laws.{
  IsRetainable, retention_days-create_retention, create_ptr-resolve_ptr, observed_map-data_or_nil,
}
use provider_temporal.Clients.Namespace.Service.{create_request, observe_fields}

-- The number of an archival state goes by the name that the spec gave.
abbrev pub IsKnown : Enums → String → Type 0
IsKnown e s = e.archival_state_string (index e.archival_state_value s) ≡ s

-- A spec that the server can hold: no text or map is given and empty, the retention fits, and the
-- archival states are names of the enum.
pub record IsCanonical (e : Enums) (p : TemporalNamespaceParameters) : Type 0 where
  pub description_given : p.description ≢ some ""
  pub owner_email_given : p.owner_email ≢ some ""
  pub retention_fits : IsRetainable p.workflow_execution_retention_days
  pub data_given : p.data_map ≢ some (some [])
  pub history_state_known : IsKnown e p.history_archival_state
  pub history_uri_given : p.history_archival_uri ≢ some ""
  pub visibility_state_known : IsKnown e p.visibility_archival_state
  pub visibility_uri_given : p.visibility_archival_uri ≢ some ""

module _ {W : Type 0} (t : Temporal W) (id : String) (state : ℕ)
    (p : TemporalNamespaceParameters) where
  -- What a server describes that stores the request of CreateNamespace as it is.
  abbrev pub stored_info : NamespaceInfo
  stored_info =
      let r = create_request t p in
      record {
        id = id;
        name = r.namespace;
        description = r.description;
        owner_email = r.owner_email;
        data_map = r.data_map;
        state = state;
      }

  abbrev pub stored_config : NamespaceConfig
  stored_config =
      let r = create_request t p in
      record {
        workflow_execution_retention_ttl = r.workflow_execution_retention_period;
        history_archival_state = r.history_archival_state;
        history_archival_uri = r.history_archival_uri;
        visibility_archival_state = r.visibility_archival_state;
        visibility_archival_uri = r.visibility_archival_uri;
      }

  abbrev pub stored_response : DescribeNamespaceResponse
  stored_response = record { namespace_info = some stored_info; config = some stored_config }

  abbrev pub stored_observation : TemporalNamespaceObservation
  stored_observation =
      observe_fields t stored_info stored_config
        (create_retention p.workflow_execution_retention_days)

  IsCanonical-common :
      common (observation stored_observation) ≡ common (parameters p) → IsCanonical t.enums p
  unfolding create_request observe_fields
  IsCanonical-common h = record {
    description_given =
        (create_ptr-resolve_ptr p.description).0 (ap (λ (c : NamespaceCompare). c.description) h);
    owner_email_given =
        (create_ptr-resolve_ptr p.owner_email).0 (ap (λ (c : NamespaceCompare). c.owner_email) h);
    retention_fits =
        (retention_days-create_retention _).0
          (ap (λ (c : NamespaceCompare). c.workflow_execution_retention_days) h);
    data_given =
        (observed_map-data_or_nil p.data_map).0 (ap (λ (c : NamespaceCompare). c.data_map) h);
    history_state_known = ap (λ (c : NamespaceCompare). c.history_archival_state) h;
    history_uri_given =
        (create_ptr-resolve_ptr p.history_archival_uri).0
          (ap (λ (c : NamespaceCompare). c.history_archival_uri) h);
    visibility_state_known = ap (λ (c : NamespaceCompare). c.visibility_archival_state) h;
    visibility_uri_given =
        (create_ptr-resolve_ptr p.visibility_archival_uri).0
          (ap (λ (c : NamespaceCompare). c.visibility_archival_uri) h);
  }

  common-IsCanonical :
      IsCanonical t.enums p → common (observation stored_observation) ≡ common (parameters p)
  unfolding create_request observe_fields
  common-IsCanonical c = λ i. record {
    name = p.name;
    description = (create_ptr-resolve_ptr p.description).1 c.description_given i;
    owner_email = (create_ptr-resolve_ptr p.owner_email).1 c.owner_email_given i;
    workflow_execution_retention_days =
        (retention_days-create_retention p.workflow_execution_retention_days).1 c.retention_fits i;
    data_map = (observed_map-data_or_nil p.data_map).1 c.data_given i;
    history_archival_state = c.history_state_known i;
    history_archival_uri = (create_ptr-resolve_ptr p.history_archival_uri).1 c.history_uri_given i;
    visibility_archival_state = c.visibility_state_known i;
    visibility_archival_uri =
        (create_ptr-resolve_ptr p.visibility_archival_uri).1 c.visibility_uri_given i;
  }

  -- A spec whose request is stored as it is and then described compares equal to itself exactly if
  -- it is canonical: no text or map is given and empty, the retention fits an int64, and the
  -- archival states are names of the enum.
  pub common-stored :
      (common (observation stored_observation) ≡ common (parameters p)) ↔ IsCanonical t.enums p
  common-stored = (IsCanonical-common, common-IsCanonical)
