-- ===== src/Clients/Namespace/Server.antt =====
-- What the calls rely on of a Temporal server: it keeps namespaces by name. Each law is documented
-- behaviour of the server's API; the code of the server is not part of this repository.
use provider_temporal.Base.{ℕ, ◌≡◌, ◌≢◌, ◌⊎◌, String, true, Option, none, some, if◌then◌else◌, ◌==◌}
use provider_temporal.Base.Int.{ℤ}
use provider_temporal.Go.Effects.{
  Error, reply, failure, errors_as, namespace_already_exists, namespace_not_found,
}
use provider_temporal.Clients.Temporal.{
  Temporal, RegisterNamespaceRequest, NamespaceConfig, NamespaceInfo, DescribeNamespaceResponse,
}

-- A namespace as the server keeps it. Its retention is always set.
pub record Namespace : Type 0 where
  pub info : NamespaceInfo
  pub config : NamespaceConfig
  pub ttl : ℤ

abbrev pub response : Namespace → DescribeNamespaceResponse
response n = record {
  namespace_info = some n.info;
  config = some (record (n.config) { workflow_execution_retention_ttl = some n.ttl });
}

-- The namespace that a request for one registers, with an id and a state of the server's choice.
abbrev pub registered : RegisterNamespaceRequest → String → ℕ → ℤ → Namespace
registered r id state ttl = record {
  info = record {
    id = id;
    name = r.namespace;
    description = r.description;
    owner_email = r.owner_email;
    data_map = r.data_map;
    state = state;
  };
  config = record {
    workflow_execution_retention_ttl = some ttl;
    history_archival_state = r.history_archival_state;
    history_archival_uri = r.history_archival_uri;
    visibility_archival_state = r.visibility_archival_state;
    visibility_archival_uri = r.visibility_archival_uri;
  };
  ttl = ttl;
}

-- What a deletion leaves of another name: what it had, or, under a name that was free, the namespace that is
-- being deleted.
abbrev pub Left : {W : Type 0} → Temporal W → Option Namespace → Option Namespace → Type 0
Left t old new =
    (new ≡ old)
    ⊎ ((old ≡ none)
        × ((n : Namespace) × (new ≡ some n)
            × (t.enums.namespace_state_string n.info.state ≡ "Deleted")))

-- `view w m` is the namespace of that name, if there is one.
pub record NamespaceServer {W : Type 0} (t : Temporal W) : Type 0 where
  pub view : W → String → Option Namespace
  pub describe_present :
      (w : W) (m : String) (n : Namespace)
      → view w m ≡ some n
      → t.describe_namespace m w ≡ (reply (some (response n)), w)
  pub describe_absent :
      (w : W) (m : String)
      → view w m ≡ none
      → (e : Error) × (t.describe_namespace m w ≡ (failure e, w))
        × (errors_as namespace_not_found e ≡ true)
  -- A request without a retention is refused, so a success had one.
  pub register_success :
      (r : RegisterNamespaceRequest) (w w' : W)
      → t.register_namespace r w ≡ (reply tt, w')
      → (id : String) × (state : ℕ) × (ttl : ℤ) × (r.workflow_execution_retention_period ≡ some ttl)
        × (view w r.namespace ≡ none)
        × ((m : String)
            → view w' m ≡ (if m == r.namespace then some (registered r id state ttl) else view w m))
  pub register_failure :
      (r : RegisterNamespaceRequest) (e : Error) (w w' : W)
      → t.register_namespace r w ≡ (failure e, w')
      → ((m : String) → view w' m ≡ view w m)
        × (errors_as namespace_already_exists e ≡ true
            → (n : Namespace) × (view w r.namespace ≡ some n))
  -- The deleted namespace goes on for some time under a temporary name.
  pub delete_success :
      (k : String) (u : Option (Unit {0})) (w w' : W)
      → t.delete_namespace k w ≡ (reply u, w')
      → (u ≡ some tt) × (view w' k ≡ none) × ((m : String) → m ≢ k → Left t (view w m) (view w' m))
  pub delete_failure :
      (k : String) (e : Error) (w w' : W)
      → t.delete_namespace k w ≡ (failure e, w')
      → ((m : String) → view w' m ≡ view w m)
