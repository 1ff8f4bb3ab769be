-- ===== src/Controller/SearchAttribute/Connector.antt =====
-- internal/controller/searchattribute/searchattribute.go: Connect and Disconnect of the connector.
use provider_temporal.Base.{ℕ, Option, List}
use provider_temporal.Go.Effects.{Action, raise}
use provider_temporal.Api.Kube.{Kube}
use provider_temporal.Api.SearchAttribute.{SearchAttribute}
use provider_temporal.Clients.Service.{Dialer, new_temporal_service}
use provider_temporal.Controller.Managed.{
  Managed, temporal_namespace, search_attribute, other_managed,
}
use provider_temporal.Controller.Connector.Cache.{External, Clients}
use provider_temporal.Controller.Connector.Connect.{Cluster, connect_by}
use provider_temporal.Controller.Connector.Invariant.{IsCache, IsExactly}
use provider_temporal.Controller.Connector.Disconnect.{disconnect-Disconnects}
use provider_temporal.Controller.Connector.Cache.{disconnect}
use provider_temporal.Controller.Connector.Runs.{Runs, Runs-IsExactly}
use provider_temporal.Controller.Connector.Account.{Accounts, connect_by-Accounts}
use provider_temporal.Controller.Connector.Service.{Environment, service-Opens}
use provider_temporal.Controller.SearchAttribute.External.{not_search_attribute}

-- mg.Spec.ProviderConfigReference
unfoldable pub get_provider_config_reference : {k : Kube} → SearchAttribute k → Option k.Reference
get_provider_config_reference {k} cr = k.provider_config_reference cr.spec.resource_spec

module _ {W Certificate CertPool : Type 0} (d : Dialer W Certificate CertPool) where
  -- clients.NewSearchAttributeService
  unfoldable pub new_search_attribute_service : List ℕ → Action W ℕ
  new_search_attribute_service config_data = new_temporal_service d config_data

module _ {k : Kube} {W Certificate CertPool : Type 0} (d : Dialer W Certificate CertPool)
    (cluster : Cluster k W) where
  unfoldable pub connect : Managed k → Clients → Action W (External × Clients)
  unfolding new_search_attribute_service get_provider_config_reference
  connect (search_attribute cr) clients =
      connect_by cluster d.close (new_search_attribute_service d) (get_provider_config_reference cr)
        (search_attribute cr) clients
  connect (temporal_namespace cr) clients = raise not_search_attribute
  connect other_managed clients = raise not_search_attribute

  -- Disconnect, by the text of the other controller's.
  unfoldable pub disconnect_clients : Clients → Action W Clients
  disconnect_clients clients = disconnect d.close clients

  -- From a well-formed cache whose connections are just the open ones, and in an Environment:
  -- however a Connect of this controller ends, just the connections of the cache are open, and the
  -- cache that a success gives is well-formed.
  pub connect-Accounts_attribute :
      (e : Environment d cluster) (mg : Managed k) (m : Clients) (w : W)
      → IsCache m
      → IsExactly e.connections w m
      → Accounts e.connections m (connect mg m w)
  unfolding connect
  connect-Accounts_attribute e (search_attribute cr) m w v exact =
      connect_by-Accounts e.connections cluster (new_temporal_service d) (service-Opens d cluster e)
        m v _ (search_attribute cr) w exact
  connect-Accounts_attribute e (temporal_namespace cr) m w v exact = exact
  connect-Accounts_attribute e other_managed m w v exact = exact

  -- After any history of this controller's Connect, with whatever outcome, and Disconnect, from an
  -- empty cache with no connection open and in an Environment, each key of the cache has one client
  -- with a user at least, and open are just the connections of these clients.
  connected-IsExactly_attribute :
      (e : Environment d cluster) {m : Clients} {w : W}
      → Runs e.connections connect disconnect_clients m w
      → IsCache m × IsExactly e.connections w m
  unfolding disconnect_clients
  connected-IsExactly_attribute e =
      Runs-IsExactly e.connections connect disconnect_clients (connect-Accounts_attribute e)
        (disconnect-Disconnects e.connections)
