-- ===== src/Tests/Server.antt =====
-- A server in memory, which meets what is asked of one.
use provider_temporal.Base.{
  ℕ, ◌≡◌, refl, sym, ap, ◌∙◌, ◌≢◌, String, String-cases, true, Option, none, some, List, [], ◌∷◌,
  map, ◌++◌, Option-cases, inl, inr, if◌then◌else◌, ◌==◌, eq_iff, eq_refl, nat_eq, arith,
}
use provider_temporal.Base.Int.{ℤ}
use provider_temporal.Go.Effects.{
  Error, service_error, namespace_already_exists, namespace_not_found, namespace_invalid_state,
  other_service_error, message, wrap, errors_as, Reply, reply, failure,
}
use provider_temporal.Clients.Temporal.{
  Temporal, Enums, RegisterNamespaceRequest, DescribeNamespaceResponse, AddSearchAttributesRequest,
}
use provider_temporal.Clients.Temporal.{
  UpdateNamespaceRequest, UpdateNamespaceInfo, NamespaceConfig,
}
use provider_temporal.Go.Json.{StringMap}
use provider_temporal.Clients.Namespace.Updates.{NamespaceUpdates, updated}
use provider_temporal.Clients.Namespace.Server.{Namespace, NamespaceServer, response, registered}
use provider_temporal.Clients.SearchAttribute.Server.{find, AttributeServer}

module _ {V : Type 0} where
  abbrev pub lookup : String → List (String × V) → Option V
  lookup k [] = none
  lookup k ((j, v) ∷ m) = if k == j then some v else lookup k m

  abbrev pub erase : String → List (String × V) → List (String × V)
  erase k [] = []
  erase k ((j, v) ∷ m) = if j == k then erase k m else (j, v) ∷ erase k m

  pub lookup-erase :
      (j k : String) (m : List (String × V))
      → lookup j (erase k m) ≡ (if j == k then none else lookup j m)
  lookup-erase j k [] = ground arith
  lookup-erase j k ((i, v) ∷ m) =
      ground (arith, eq_iff i k, eq_iff j i, eq_iff j k, lookup-erase j k m)

pub record World : Type 0 where
  pub namespaces : List (String × Namespace)
  pub attributes : List (String × ℕ)

abbrev pub enums : Enums
enums = record {
  archival_state_value = ("Unspecified", 0) ∷ ("Disabled", 1) ∷ ("Enabled", 2) ∷ [];
  archival_state_string =
      λ n. if nat_eq n 1 then "Disabled" else if nat_eq n 2 then "Enabled" else "Unspecified";
  namespace_state_string =
      λ n. if nat_eq n 1 then "Registered" else if nat_eq n 2 then "Deprecated" else "Deleted";
  indexed_value_type_value = ("Text", 1) ∷ ("Keyword", 2) ∷ ("Int", 3) ∷ [];
  indexed_value_type_string =
      λ n. if nat_eq n 1 then "Text" else if nat_eq n 2 then "Keyword" else "Int";
}

abbrev describe_found : World → Option Namespace → Reply (Option DescribeNamespaceResponse) × World
describe_found w none = (failure (service_error namespace_not_found "not found"), w)
describe_found w (some n) = (reply (some (response n)), w)

abbrev register_at :
    RegisterNamespaceRequest → World → Option Namespace → Option ℤ → Reply (Unit {0}) × World
register_at r w (some n) _ = (failure (service_error namespace_already_exists "exists"), w)
register_at r w none none = (failure (service_error other_service_error "no retention"), w)
register_at r w none (some ttl) =
    (reply tt, record w { namespaces = (r.namespace, registered r "id" 1 ttl) ∷ w.namespaces })

abbrev add_first : AddSearchAttributesRequest → World → List (String × ℕ) → Reply (Unit {0}) × World
add_first r w [] = (failure (service_error other_service_error "nothing to add"), w)
add_first r w (a ∷ _) = (reply tt, record w { attributes = a ∷ w.attributes })

abbrev remove_first : World → List String → Reply (Unit {0}) × World
remove_first w [] = (failure (service_error other_service_error "nothing to remove"), w)
remove_first w (k ∷ _) = (reply tt, record w { attributes = erase k w.attributes })

-- New entries come before those that were there.
abbrev pub merge : StringMap → StringMap → StringMap
merge old none = old
merge none (some new) = some new
merge (some old) (some new) = some (new ++ old)

abbrev store_update :
    World
    → String
    → Namespace
    → Option UpdateNamespaceInfo
    → Option NamespaceConfig
    → Reply (Unit {0}) × World
store_update w name n (some info) (some config) = elim config.workflow_execution_retention_ttl [
  | some ttl ↦
      (reply tt, record w { namespaces = (name, updated merge info config ttl n) ∷ w.namespaces })
  | none ↦ (failure (service_error other_service_error "no retention"), w)
]
store_update w name n _ _ = (failure (service_error other_service_error "nothing to update"), w)

abbrev pub update_at : UpdateNamespaceRequest → World → Option Namespace → Reply (Unit {0}) × World
update_at r w none = (failure (service_error namespace_not_found "not found"), w)
update_at r w (some n) = store_update w r.namespace n r.update_info r.config

abbrev pub temporal : Temporal World
temporal = record {
  enums = enums;
  register_namespace = λ r w.
      register_at r w (lookup r.namespace w.namespaces) r.workflow_execution_retention_period;
  describe_namespace = λ m w. describe_found w (lookup m w.namespaces);
  update_namespace = λ r w. update_at r w (lookup r.namespace w.namespaces);
  delete_namespace = λ m w. (reply (some tt), record w { namespaces = erase m w.namespaces });
  list_namespaces = λ n w. (reply (some (map (λ p. response p.1) w.namespaces)), w);
  add_search_attributes = λ r w. add_first r w r.search_attributes;
  list_search_attributes = λ ns w. (reply (some w.attributes), w);
  remove_search_attributes = λ r w. remove_first w r.search_attributes;
}

pub register-success :
    (r : RegisterNamespaceRequest) (w w' : World) (o : Option Namespace) (p : Option ℤ)
    → lookup r.namespace w.namespaces ≡ o
    → r.workflow_execution_retention_period ≡ p
    → register_at r w o p ≡ (reply tt, w')
    → (id : String) × (state : ℕ) × (ttl : ℤ) × (r.workflow_execution_retention_period ≡ some ttl)
      × (lookup r.namespace w.namespaces ≡ none)
      × ((m : String)
          → lookup m w'.namespaces ≡ (
              if m == r.namespace then some (registered r id state ttl) else lookup m w.namespaces))
register-success r w w' (some n) p a b q = cc
register-success r w w' none none a b q = cc
register-success r w w' none (some ttl) a b q =
    ("id", 1, ttl, b, a, λ m. sym (ap (λ x. lookup m x.1.namespaces) q))

not_other :
    (e : Error)
    → service_error other_service_error "no retention" ≡ e
    → errors_as namespace_already_exists e ≢ true
unfolding errors_as
not_other (service_error namespace_already_exists s) q t = cc
not_other (service_error namespace_not_found s) q t = cc
not_other (service_error namespace_invalid_state s) q t = cc
not_other (service_error other_service_error s) q t = cc
not_other (message s) q t = cc
not_other (wrap e s) q t = cc

pub register-failure :
    (r : RegisterNamespaceRequest) (e : Error) (w w' : World) (o : Option Namespace) (p : Option ℤ)
    → lookup r.namespace w.namespaces ≡ o
    → register_at r w o p ≡ (failure e, w')
    → ((m : String) → lookup m w'.namespaces ≡ lookup m w.namespaces)
      × (errors_as namespace_already_exists e ≡ true
          → (n : Namespace) × (lookup r.namespace w.namespaces ≡ some n))
unfolding errors_as
register-failure r e w w' (some n) p a q =
    ((λ m. sym (ap (λ x. lookup m x.1.namespaces) q)), λ _. (n, a))
register-failure r e w w' none none a q =
    ((λ m. sym (ap (λ x. lookup m x.1.namespaces) q)), λ t. absurd (not_other e (cc) t))
register-failure r e w w' none (some ttl) a q = cc

pub describe-none :
    (w : World) (o : Option Namespace)
    → o ≡ none
    → (e : Error) × (describe_found w o ≡ (failure e, w)) × (errors_as namespace_not_found e ≡ true)
unfolding errors_as
describe-none w none q = (service_error namespace_not_found "not found", refl, refl)
describe-none w (some n) q = cc

pub other_kept :
    {o o' : Option Namespace} (m k : String) → o' ≡ (if m == k then none else o) → m ≢ k → o' ≡ o
other_kept m k after other = elim (String-cases m k) [
  | inl (same, _) ↦ absurd (other same)
  | inr (_, t) ↦ rw t at after
]

abbrev pub server : NamespaceServer temporal
server = record {
  view = λ w m. lookup m w.namespaces;
  describe_present = λ w m n q. rw q refl;
  describe_absent = λ w m q. describe-none w _ q;
  register_success = λ r w w' q. register-success r w w' _ _ refl refl q;
  register_failure = λ r e w w' q. register-failure r e w w' _ _ refl q;
  delete_success = λ k u w w' q.
      let after : (m : String)
          → lookup m w'.namespaces ≡ (if m == k then none else lookup m w.namespaces) =
        λ m. sym (ap (λ x. lookup m x.1.namespaces) q) ∙ lookup-erase m k w.namespaces in
      (cc, after k ∙ rw (eq_refl k) refl, λ m other. inl (other_kept m k (after m) other));
  delete_failure = λ k e w w' q. cc;
}

pub update-success :
    (name : String) (info : UpdateNamespaceInfo) (config : NamespaceConfig) (ttl : ℤ) (w w' : World)
    (o : Option Namespace)
    → lookup name w.namespaces ≡ o
    → config.workflow_execution_retention_ttl ≡ some ttl
    → update_at (record { namespace = name; update_info = some info; config = some config }) w o
      ≡ (reply tt, w')
    → (n : Namespace) × (lookup name w.namespaces ≡ some n)
      × ((m : String)
          → lookup m w'.namespaces
            ≡ (if m == name then some (updated merge info config ttl n) else lookup m w.namespaces))
update-success name info config ttl w w' none a b q = cc
update-success name info config ttl w w' (some n) a b q =
    (n, a, λ m. sym (ap (λ x. lookup m x.1.namespaces) (rw b at q)))

pub update-failure :
    (r : UpdateNamespaceRequest) (e : Error) (w w' : World) (o : Option Namespace)
    → update_at r w o ≡ (failure e, w')
    → w ≡ w'
update-failure r e w w' none q = ap (λ x. x.1) q
update-failure r e w w' (some n) q = store-failure r.update_info r.config q
  where
    store-failure :
        (i : Option UpdateNamespaceInfo) (c : Option NamespaceConfig)
        → store_update w r.namespace n i c ≡ (failure e, w')
        → w ≡ w'
    store-failure none c q = ap (λ x. x.1) q
    store-failure (some i) none q = ap (λ x. x.1) q
    store-failure (some i) (some c) q = elim (Option-cases c.workflow_execution_retention_ttl) [
      | inl z ↦ ap (λ x. x.1) (rw z at q)
      | inr (ttl, z) ↦ cc (rw z at q)
    ]

abbrev pub updates : NamespaceUpdates server
updates = record {
  merge = merge;
  update_success =
      λ name info config ttl w w' b q. update-success name info config ttl w w' _ refl b q;
  update_failure =
      λ r e w w' q m. sym (ap (λ x. lookup m x.namespaces) (update-failure r e w w' _ q));
}

pub find-erase : (k : String) (m : List (String × ℕ)) → find k (erase k m) ≡ none
unfolding find
find-erase k [] = refl
find-erase k ((j, v) ∷ m) = ground (arith, find-erase k m)

pub find-first : (k : String) (v : ℕ) (m : List (String × ℕ)) → find k ((k, v) ∷ m) ≡ some v
unfolding find
find-first k v m = rw (eq_refl k) refl

abbrev pub attributes : AttributeServer temporal
attributes = record {
  view = λ w ns. some w.attributes;
  list_present = λ w ns m q. cc;
  list_absent = λ w ns q. cc;
  add_success = λ ns k v w w' q.
      ((k, v) ∷ w.attributes, sym (ap (λ x. some x.1.attributes) q), find-first k v w.attributes);
  remove_success = λ ns k w w' q.
      (erase k w.attributes, sym (ap (λ x. some x.1.attributes) q), find-erase k w.attributes);
}
