-- ===== src/Controller/TemporalNamespace/Rejection.antt =====
-- What Connect and the methods of `external` do with a resource of another kind.
use provider_temporal.Base.{◌≡◌, refl}
use provider_temporal.Go.Effects.{err}
use provider_temporal.Api.Kube.{Kube}
use provider_temporal.Clients.Temporal.{Temporal}
use provider_temporal.Clients.Service.{Dialer}
use provider_temporal.Clients.Namespace.Compare.{NamespaceCompare}
use provider_temporal.Controller.Managed.{
  Managed, temporal_namespace, search_attribute, other_managed, Cmp,
}
use provider_temporal.Controller.Connector.Cache.{Clients}
use provider_temporal.Controller.Connector.Connect.{Cluster}
use provider_temporal.Controller.TemporalNamespace.Connector.{connect}
use provider_temporal.Controller.TemporalNamespace.External.{
  not_temporal_namespace, observe, create, update, delete,
}

abbrev pub IsOtherKind : {k : Kube} → Managed k → Type 0
IsOtherKind (temporal_namespace cr) = ⊥
IsOtherKind (search_attribute cr) = Unit
IsOtherKind other_managed = Unit

module _ {k : Kube} {W V Certificate CertPool : Type 0} (t : Temporal W)
    (cmp : Cmp NamespaceCompare) (d : Dialer V Certificate CertPool) (cluster : Cluster k V) where
  -- Refused with the world, the resource and the cache as they were.
  abbrev pub Refuses : Managed k → Clients → W → V → Type 0
  Refuses mg clients w v =
      (connect d cluster mg clients v ≡ (err not_temporal_namespace, v))
      × (observe t cmp (mg, w) ≡ (err not_temporal_namespace, (mg, w)))
      × (create t (mg, w) ≡ (err not_temporal_namespace, (mg, w)))
      × (update t (mg, w) ≡ (err not_temporal_namespace, (mg, w)))
      × (delete t (mg, w) ≡ (err not_temporal_namespace, (mg, w)))

  -- Of a resource of any other kind Connect, Observe, Create, Update and Delete of the namespace
  -- controller give the error that it is not a TemporalNamespace, with the resource, the server and
  -- the connections as they were.
  pub Refuses-other_kind :
      (mg : Managed k) (clients : Clients) (w : W) (v : V) → IsOtherKind mg → Refuses mg clients w v
  unfolding connect observe create update delete
  Refuses-other_kind (temporal_namespace cr) clients w v o = absurd o
  Refuses-other_kind (search_attribute cr) clients w v o = (refl, refl, refl, refl, refl)
  Refuses-other_kind other_managed clients w v o = (refl, refl, refl, refl, refl)
