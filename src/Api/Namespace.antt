-- ===== src/Api/Namespace.antt =====
-- apis/core/v1alpha1/temporalnamespace_types.go: what a user asks of a namespace, and what was
-- observed. A Go `*string` is an `Option String`; `data` is a reserved word, so that field is
-- `data_map`.
use provider_temporal.Api.Kube.{Kube}
use provider_temporal.Base.{String, Option, List}
use provider_temporal.Base.Int.{ℤ}
use provider_temporal.Go.Json.{StringMap}

pub record TemporalNamespaceParameters : Type 0 where
  pub name : String
  pub description : Option String
  pub owner_email : Option String
  pub workflow_execution_retention_days : ℤ
  pub data_map : Option StringMap
  pub history_archival_state : String
  pub history_archival_uri : Option String
  pub visibility_archival_state : String
  pub visibility_archival_uri : Option String

pub record TemporalNamespaceObservation : Type 0 where
  pub id : String
  pub name : String
  pub description : Option String
  pub owner_email : Option String
  pub workflow_execution_retention_days : ℤ
  pub data_map : Option StringMap
  pub history_archival_state : String
  pub history_archival_uri : Option String
  pub visibility_archival_state : String
  pub visibility_archival_uri : Option String
  pub state : String

module _ (k : Kube) where
  open k use {TypeMeta, ObjectMeta, ResourceSpec, ResourceStatus, Reference}

  pub record TemporalNamespaceSpec : Type 0 where
    pub resource_spec : ResourceSpec
    pub provider_reference : Option Reference
    pub for_provider : TemporalNamespaceParameters

  pub record TemporalNamespaceStatus : Type 0 where
    pub resource_status : ResourceStatus
    pub at_provider : TemporalNamespaceObservation

  pub record TemporalNamespace : Type 0 where
    pub type_meta : TypeMeta
    pub object_meta : ObjectMeta
    pub spec : TemporalNamespaceSpec
    pub status : TemporalNamespaceStatus

  -- `items` is a slice, which may be nil.
  pub record TemporalNamespaceList : Type 0 where
    pub type_meta : TypeMeta
    pub list_meta : k.ListMeta
    pub items : Option (List TemporalNamespace)
