-- ===== src/Controller/Connector/Service.antt =====
-- The connector over the real constructor of its service: what Account asks of a new service holds of
-- NewTemporalService, if it holds of the dialer.
use provider_temporal.Base.{ℕ, ◌≡◌, refl, inl, inr, String, false, ◌||◌, List, nat_eq, subst}
use provider_temporal.Go.Effects.{Error, reply, failure, Result, ok, err, panic}
use provider_temporal.Api.Kube.{Kube}
use provider_temporal.Controller.Managed.{Managed}
use provider_temporal.Clients.Service.{ClientOptions, Dialer, new_temporal_service}
use provider_temporal.Clients.Service.Laws.{Dials, new_temporal_service-Dials}
use provider_temporal.Controller.Connector.Invariant.{Connections}
use provider_temporal.Controller.Connector.Connect.{Cluster}
use provider_temporal.Controller.Connector.Account.{Opens}

-- client.Dial opens one connection that was not open before, and none if it fails; the calls of
-- Kubernetes and uuid open and close none.
pub record Environment {k : Kube} {W Certificate CertPool : Type 0}
    (d : Dialer W Certificate CertPool) (cluster : Cluster k W) : Type 0 where
  pub connections : Connections d.close
  pub dial_success :
      (o : ClientOptions Certificate CertPool) (w w' : W) (h : ℕ)
      → d.dial o w ≡ (reply h, w')
      → (connections.is_open w h ≡ false)
        × ((i : ℕ) → connections.is_open w' i ≡ (nat_eq i h || connections.is_open w i))
  pub dial_failure :
      (o : ClientOptions Certificate CertPool) (w w' : W) (e : Error)
      → d.dial o w ≡ (failure e, w')
      → (i : ℕ) → connections.is_open w' i ≡ connections.is_open w i
  pub track_open :
      (mg : Managed k) (w : W) (i : ℕ)
      → connections.is_open (cluster.track mg w).1 i ≡ connections.is_open w i
  pub get_open :
      (n : String) (w : W) (i : ℕ)
      → connections.is_open (cluster.get_provider_config n w).1 i ≡ connections.is_open w i
  pub extract_open :
      (s : k.CredentialsSource) (l : k.CommonCredentialSelectors) (w : W) (i : ℕ)
      → connections.is_open (cluster.extract s l w).1 i ≡ connections.is_open w i
  pub uuid_open :
      (w : W) (i : ℕ) → connections.is_open (cluster.new_uuid w).1 i ≡ connections.is_open w i

module _ {k : Kube} {W Certificate CertPool : Type 0} (d : Dialer W Certificate CertPool)
    (cluster : Cluster k W) (e : Environment d cluster) where
  open e use {connections}

  abbrev dials :
      (creds : List ℕ) (w : W) (r : Result ℕ × W)
      → new_temporal_service d creds w ≡ r
      → Dials d creds w r
  dials creds w r q = subst (Dials d creds w) q (new_temporal_service-Dials d creds w)

  service_none :
      (creds : List ℕ) (w w' : W) (f : Error)
      → Dials d creds w (err f, w')
      → (i : ℕ) → connections.is_open w' i ≡ connections.is_open w i
  service_none creds w w' f (inl (same, _)) i = rw same refl
  service_none creds w w' f (inr (conf, t, g, _, _, q)) i = e.dial_failure _ w w' g q i

  pub service-Opens : Opens connections cluster (new_temporal_service d)
  service-Opens = record {
    opens_one = λ creds w w' h q.
        let (conf, t, _, _, p) = dials creds w (ok h, w') q in e.dial_success _ w w' h p;
    opens_none = λ creds w w' f q. service_none creds w w' f (dials creds w (err f, w') q);
    no_panic = λ creds w w' q. dials creds w (panic, w') q;
    track_open = e.track_open;
    get_open = e.get_open;
    extract_open = e.extract_open;
    uuid_open = e.uuid_open;
  }
