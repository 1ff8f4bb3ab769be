-- ===== src/Clients/Temporal.antt =====
-- What the code uses of go.temporal.io/api and go.temporal.io/sdk, as a parameter: the messages with
-- the fields that the code writes or reads, the tables of the enums, and one call for each method.
-- `W` is the state of the server and of whatever else can change between two calls.
use provider_temporal.Base.{ℕ, String, Option, List, [], ◌∷◌, if◌then◌else◌, ◌==◌}
use provider_temporal.Base.Int.{ℤ}
use provider_temporal.Go.Effects.{Reply}
use provider_temporal.Go.Json.{StringMap}

pub record RegisterNamespaceRequest : Type 0 where
  pub namespace : String
  pub description : String
  pub owner_email : String
  pub workflow_execution_retention_period : Option ℤ
  pub data_map : StringMap
  pub history_archival_state : ℕ
  pub history_archival_uri : String
  pub visibility_archival_state : ℕ
  pub visibility_archival_uri : String

pub record NamespaceInfo : Type 0 where
  pub id : String
  pub name : String
  pub description : String
  pub owner_email : String
  pub data_map : StringMap
  pub state : ℕ

pub record NamespaceConfig : Type 0 where
  pub workflow_execution_retention_ttl : Option ℤ
  pub history_archival_state : ℕ
  pub history_archival_uri : String
  pub visibility_archival_state : ℕ
  pub visibility_archival_uri : String

pub record DescribeNamespaceResponse : Type 0 where
  pub namespace_info : Option NamespaceInfo
  pub config : Option NamespaceConfig

pub record UpdateNamespaceInfo : Type 0 where
  pub description : String
  pub owner_email : String
  pub data_map : StringMap

pub record UpdateNamespaceRequest : Type 0 where
  pub namespace : String
  pub update_info : Option UpdateNamespaceInfo
  pub config : Option NamespaceConfig

-- The maps of these two requests by their entries, in the order in which Go's `range` visits them.
pub record AddSearchAttributesRequest : Type 0 where
  pub namespace : String
  pub search_attributes : List (String × ℕ)

pub record RemoveSearchAttributesRequest : Type 0 where
  pub namespace : String
  pub search_attributes : List String

-- The tables of the enums, by name and by number. They are Go maps and methods of generated code.
pub record Enums : Type 0 where
  pub archival_state_value : List (String × ℕ)
  pub archival_state_string : ℕ → String
  pub namespace_state_string : ℕ → String
  pub indexed_value_type_value : List (String × ℕ)
  pub indexed_value_type_string : ℕ → String

-- A response that is a pointer may be nil. Of the response to DeleteNamespace only the presence
-- counts, and of the response to ListSearchAttributes its map CustomAttributes.
pub record Temporal (W : Type 0) : Type 0 where
  pub enums : Enums
  pub register_namespace : RegisterNamespaceRequest → W → Reply (Unit {0}) × W
  pub describe_namespace : String → W → Reply (Option DescribeNamespaceResponse) × W
  pub update_namespace : UpdateNamespaceRequest → W → Reply (Unit {0}) × W
  pub delete_namespace : String → W → Reply (Option (Unit {0})) × W
  pub list_namespaces : ℕ → W → Reply (Option (List DescribeNamespaceResponse)) × W
  pub add_search_attributes : AddSearchAttributesRequest → W → Reply (Unit {0}) × W
  pub list_search_attributes : String → W → Reply (Option (List (String × ℕ))) × W
  pub remove_search_attributes : RemoveSearchAttributesRequest → W → Reply (Unit {0}) × W

-- Go's `m[k]` on a map from texts to numbers: 0 where the key is missing.
unfoldable pub index : List (String × ℕ) → String → ℕ
index [] k = 0
index ((j, v) ∷ m) k = if j == k then v else index m k
