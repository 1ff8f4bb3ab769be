-- ===== src/Tests/Cache.antt =====
-- The theorems on connections and their cache, in a world of numbered connections.
use provider_temporal.Base.{
  ℕ, ◌≡◌, refl, inl, inr, String-cases, Bool-cases, ◌==◌, false, some, List, [], ◌∷◌, arith,
}
use provider_temporal.Controller.Connector.Order.{Agree, disconnect_in_any_order}
use provider_temporal.Controller.Connector.Drain.{disconnect_times, disconnect_times-Drains}
use provider_temporal.Base.Int.{◌+ℤ◌, ◌-ℤ◌}
use provider_temporal.Go.Effects.{ok}
use provider_temporal.Clients.Service.{
  unmarshal_config, new_temporal_service, read_config, transport_credentials,
}
use provider_temporal.Clients.Service.Laws.{Dials, new_temporal_service-Dials}
use provider_temporal.Controller.Managed.{temporal_namespace}
use provider_temporal.Controller.Connector.Cache.{
  Clients, load, checkout, disconnect, release_entry, load_or_store, modify_entry,
  increment_usage_counter, decrement_usage_counter, clamp, is_unused, get_usage_counter,
  set_usage_counter,
}
use provider_temporal.Controller.Connector.Invariant.{owned, IsCache, IsExactly}
use provider_temporal.Controller.Connector.Disconnect.{Disconnects, disconnect-Disconnects}
use provider_temporal.Controller.Connector.Checkout.{Checks, checkout-Checks}
use provider_temporal.Controller.Connector.Histories.{Shares, Uses, Shares-Uses}
use provider_temporal.Controller.Connector.Connect.{hash, hex_encode, connect_by}
use provider_temporal.Go.Json.{read, same_key}
use provider_temporal.Tests.Namespaces.{resource}
use provider_temporal.Controller.Connector.Account.{Accounts}
use provider_temporal.Controller.Connector.Runs.{Runs}
use provider_temporal.Controller.TemporalNamespace.Connector.{
  connect, connect-Accounts, connected-IsExactly, new_namespace_service,
  get_provider_config_reference,
}
use provider_temporal.Tests.Connections.{close, connections, dialer, cluster, environment, client}

-- Two keys: one client with two users, one with a single one.
abbrev cache : Clients
cache = ("a", client 1 2) ∷ ("b", client 2 1) ∷ []

cache-IsCache : IsCache cache
unfolding load owned
cache-IsCache = (refl, (1, 1, refl, refl, refl), (refl, (2, 0, refl, refl, refl), tt))

cache-IsExactly : IsExactly connections (1 ∷ 2 ∷ []) cache
unfolding owned
cache-IsExactly d = refl

disconnect-Disconnects_example : Disconnects connections cache (disconnect close cache (1 ∷ 2 ∷ []))
disconnect-Disconnects_example =
    disconnect-Disconnects connections cache (1 ∷ 2 ∷ []) cache-IsCache cache-IsExactly

loaded_b : load "b" cache ≡ some (client 2 1)
unfolding load
loaded_b = refl

checkout-Checks_example :
    Checks connections "b"
      (client 4 0)
      cache
      (checkout close "b" (client 4 0) cache (4 ∷ 1 ∷ 2 ∷ []))
unfolding owned
checkout-Checks_example =
    checkout-Checks connections "b" (client 4 0) cache (4 ∷ 1 ∷ 2 ∷ []) cache-IsCache
      (record { handle = 4; served = refl; unused = refl; apart = refl; opened = λ d. refl })

new_temporal_service-Dials_example :
    Dials dialer [] (1 ∷ []) (new_temporal_service dialer [] (1 ∷ []))
new_temporal_service-Dials_example = new_temporal_service-Dials dialer [] (1 ∷ [])

-- A digest for which any two credentials collide.
same : hash cluster (1 ∷ []) ≡ hash cluster (2 ∷ [])
unfolding hash
same = refl

-- Two workers connect with the same credentials, and one disconnects.
abbrev one_user : Clients
one_user = ("a", client 1 1) ∷ []

abbrev two_users : Clients
two_users = ("a", client 1 2) ∷ []

shared : Shares connections "a" 1 one_user (1 ∷ [])
unfolding checkout load_or_store load modify_entry increment_usage_counter decrement_usage_counter
    ◌+ℤ◌ ◌-ℤ◌ disconnect release_entry clamp is_unused get_usage_counter set_usage_counter
shared =
    Shares.disconnects {m = two_users} {w = 1 ∷ []}
      (Shares.connects {m = one_user} {w = 1 ∷ []} {w1 = 2 ∷ 1 ∷ []} {ext = client 1 2} (client 2 0)
        (Shares.connects {m = []} {w = []} {w1 = 1 ∷ []} {ext = client 1 1} (client 1 0)
          (Shares.starts [] λ d. refl)
          (record { handle = 1; served = refl; unused = refl; closed = refl; opened = λ d. refl })
          refl)
        (record { handle = 2; served = refl; unused = refl; closed = refl; opened = λ d. refl })
        refl)
      refl

Shares-Uses_example : Uses connections 1 (load "a" one_user)
Shares-Uses_example = Shares-Uses connections shared

abbrev connected : Clients
connected = ("11ff", client 1 1) ∷ []

run : Runs connections (connect dialer cluster) (disconnect close) connected (1 ∷ [])
unfolding connect connect_by checkout load_or_store load modify_entry increment_usage_counter ◌+ℤ◌
    hash hex_encode new_namespace_service get_provider_config_reference new_temporal_service
    unmarshal_config read_config read same_key transport_credentials
run =
    Runs.connects {m = []} {w = []} {ext = client 1 1} (temporal_namespace resource)
      (Runs.starts [] λ i. refl) refl

connected-IsExactly_example : IsCache connected × IsExactly connections (1 ∷ []) connected
connected-IsExactly_example = connected-IsExactly dialer cluster environment run

connect-Accounts_example :
    Accounts connections cache
      (connect dialer cluster (temporal_namespace resource) cache (1 ∷ 2 ∷ []))
connect-Accounts_example =
    connect-Accounts dialer cluster environment (temporal_namespace resource) cache (1 ∷ 2 ∷ [])
      cache-IsCache cache-IsExactly

-- The same cache in another order.
abbrev turned : Clients
turned = ("b", client 2 1) ∷ ("a", client 1 2) ∷ []

turned-IsCache : IsCache turned
unfolding load owned
turned-IsCache = (refl, (2, 0, refl, refl, refl), (refl, (1, 1, refl, refl, refl), tt))

cache-turned : Agree cache turned
unfolding load
cache-turned k = elim (String-cases "a" k) [
  | inl (same, t) ↦ rw (← same) refl
  | inr (other, t) ↦ rw t (elim (Bool-cases ("b" == k)) [ inl u ↦ rw u refl | inr u ↦ rw u refl ])
]

disconnect_in_any_order_example :
    (m' : Clients) × (n' : Clients) × (w1 : List ℕ) × (w2 : List ℕ) × (disconnect close cache
        (1 ∷ 2 ∷ [])
      ≡ (ok m', w1))
    × (disconnect close turned (1 ∷ 2 ∷ []) ≡ (ok n', w2))
    × Agree m' n'
    × ((d : ℕ) → connections.is_open w1 d ≡ connections.is_open w2 d)
disconnect_in_any_order_example =
    disconnect_in_any_order connections cache turned (1 ∷ 2 ∷ []) cache-IsCache turned-IsCache
      cache-turned cache-IsExactly

disconnect_times-Drains_example :
    (w' : List ℕ) × (disconnect_times close 2 cache (1 ∷ 2 ∷ []) ≡ (ok [], w'))
    × ((d : ℕ) → connections.is_open w' d ≡ false)
disconnect_times-Drains_example =
    disconnect_times-Drains connections 2 cache (1 ∷ 2 ∷ []) cache-IsCache cache-IsExactly
      ((2, refl, omega arith), ((1, refl, omega arith), tt))
