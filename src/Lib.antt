-- ===== src/Lib.antt =====
-- A model of provider-temporal, a Crossplane provider that keeps the namespaces and the search attributes
-- of a Temporal server as Kubernetes resources, with theorems on it.
--
-- The program has three layers. internal/clients calls a Temporal server: namespace.go and
-- searchattribute.go turn the spec of a resource into requests and responses into observations, and
-- service.go connects. internal/controller/temporalnamespace/temporalnamespace.go and
-- internal/controller/searchattribute/searchattribute.go are what crossplane-runtime calls for a resource:
-- Connect, then Observe and, by what it says, Create, Update or Delete, then Disconnect. apis has the types
-- of the resources. The two controllers have the same connector, which shares a client between all workers
-- that have the same credentials.
--
-- The files:
-- - Base, Base/Tests, Base/Int: the names that all modules share, Boolean tests, signed integers.
-- - Go/Word: int64. Go/Effects: a function of the program is an Action, a function of the world that returns
--   a value, returns an error or panics, with the world that it leaves. Go/Json: encoding/json for the
--   structs that the program writes and reads.
-- - Go/Memory: variables at addresses, pointers, slices and maps, with the idioms of generated deep copies;
--   Regions says what a value in memory reads as, Pointers, Slices, Maps and Copyable prove the idioms.
-- - Api/Namespace, Api/SearchAttribute, Api/ProviderConfig, Api/ProviderConfigUsage, Api/StoreConfig: the
--   types of apis/core/v1alpha1 and apis/v1alpha1, as values. Api/Kube: what they take from Kubernetes and
--   crossplane-runtime, a parameter.
-- - Api/Copies: these types as structs in memory, and DeepCopyInto, DeepCopy and DeepCopyObject of both
--   zz_generated.deepcopy.go (deep_copy_into_namespace, deep_copy_namespace and deep_copy_namespace_object
--   for TemporalNamespace, and so on); Foreign has the structs that are not this program's, a parameter.
-- - Api/Accessors: the generated getters and setters of the resources and of the provider types, over the
--   fields of crossplane-runtime's structs, a parameter.
-- - Clients/Temporal: the API of the Temporal server, a parameter. Clients/Namespace: namespace.go, with
--   Service (CreateNamespace is create_namespace, and so on), Fields (resolvePtrOrDefault,
--   createPtrOrNilIfDefault, the retention), Compare (MapToNamespaceCompare), RoundTrip, Listing, and
--   Refinement, Updates and DeleteAll against Server, which says that the server keeps namespaces by name.
--   Clients/SearchAttribute: searchattribute.go in the same way. Clients/Service: NewTemporalService, Reading
--   how its configuration is read.
-- - Controller/Managed: the resources as the runtime hands them over. Controller/TemporalNamespace and
--   Controller/SearchAttribute: External has the methods of `external`, Connector has Connect and Disconnect;
--   Observe, Converge, Updating, Deletion and Rejection prove what the methods do one after the other.
--   Resolve has ResolveReferences of apis/core/v1alpha1/zz_generated.resolvers.go.
-- - Controller/Connector: Cache has the counters, sync.Map, and the cache's part of Connect and Disconnect;
--   Connect has the rest of Connect; Invariant, Remaining, Disconnect, Checkout, Account, Service, Histories,
--   Runs, Order, Drain and Hash prove what is kept over them. Workers has the steps of Connects of many
--   workers at once, with what is kept over them, and a Disconnect in the middle of a Connect. Shared has the
--   steps of Connects and Disconnects of many workers, on objects at addresses: Ownership, Keeping, Counters
--   and Safety prove what is kept over them, Visits and Progress that they come to an end, Race has a run
--   that loses a client, and View, Atomic, Visit, Entry and Range prove that the steps of one worker alone do
--   what Cache says. Interleaving is about steps of one of many workers, whatever they do.
-- - Api/Scheme: the kinds and their registration (apis/temporal.go, groupversion_info.go, the init
--   functions). Api/Items: GetItems of the lists. Controller/Runtime: what controller-runtime and
--   crossplane-runtime are given, and their calls, a parameter. Controller/Setup: the Setup functions of
--   internal/controller. Provider: cmd/provider/main.go, with Calls, Order and Registered about its start.
-- - Tests: a server, connections and resources small enough to compute with, and each theorem at an input.
--
-- There is no fuel: all loops are over lists. A Go map is the list of its entries. `int` is int64; the
-- usage counter is not wrapped, since it would take 2 ^ 63 users. A Go pointer is an Option, and nil that
-- is followed panics. Logging is left out.
--
-- Connect and Disconnect are atomic steps, but in Controller/Connector/Workers, where Connects interleave
-- and Disconnect is one step, and in Controller/Connector/Shared, where a step is an access to what is
-- shared. An error that ends the process by kingpin.FatalIfError is the error of `run`. Go's type system is
-- taken for granted: a pointer leads to a variable of its type. Of the server's answers the theorems of
-- Refinement, Updates, DeleteAll and of the controllers assume only the laws of Clients/Namespace/Server,
-- of Clients/Namespace/Updates and of Clients/SearchAttribute/Server, of go-cmp that it is exact, of
-- dialing that a success opens one new connection, and of deep copies that are not this program's what is
-- proved of those that are. Not modelled are logging, and what the libraries do with what they are given.
pub mod Base
pub mod Go
pub mod Api
pub mod Clients
pub mod Controller
pub mod Provider
pub mod Tests
