-- ===== src/Controller/Connector/Account.antt =====
-- The account of the open connections over a whole Connect, on every branch.
use provider_temporal.Base.{
  ℕ, ◌≡◌, refl, sym, ap, ◌∙◌, String, false, ◌||◌, Option, none, some, List, nat_eq,
}
use provider_temporal.Base.Int.{pos}
use provider_temporal.Go.Effects.{
  Error, Reply, reply, failure, Result, ok, err, panic, Action, ◌>>=◌, resume, caught, or_wrap,
  deref,
}
use provider_temporal.Api.Kube.{Kube}
use provider_temporal.Controller.Managed.{Managed}
use provider_temporal.Controller.Connector.Cache.{External, Clients, checkout}
use provider_temporal.Controller.Connector.Invariant.{owned, IsCache, Connections, IsExactly}
use provider_temporal.Controller.Connector.Checkout.{Checks, checkout-Checks}
use provider_temporal.Controller.Connector.Connect.{Cluster, hash, uuid, connect_by}

-- What Connect relies on: a new service opens one connection that was not open before, and none if it
-- fails; the calls of Kubernetes and uuid open and close none.
pub record Opens {k : Kube} {W : Type 0} {close : ℕ → W → W} (c : Connections close)
    (cluster : Cluster k W) (new_service_fn : List ℕ → Action W ℕ) : Type 0 where
  pub opens_one :
      (creds : List ℕ) (w w' : W) (h : ℕ)
      → new_service_fn creds w ≡ (ok h, w')
      → (c.is_open w h ≡ false) × ((d : ℕ) → c.is_open w' d ≡ (nat_eq d h || c.is_open w d))
  pub opens_none :
      (creds : List ℕ) (w w' : W) (e : Error)
      → new_service_fn creds w ≡ (err e, w')
      → (d : ℕ) → c.is_open w' d ≡ c.is_open w d
  pub no_panic : (creds : List ℕ) (w w' : W) → new_service_fn creds w ≡ (panic, w') → ⊥
  pub track_open :
      (mg : Managed k) (w : W) (d : ℕ) → c.is_open (cluster.track mg w).1 d ≡ c.is_open w d
  pub get_open :
      (n : String) (w : W) (d : ℕ) → c.is_open (cluster.get_provider_config n w).1 d ≡ c.is_open w d
  pub extract_open :
      (s : k.CredentialsSource) (l : k.CommonCredentialSelectors) (w : W) (d : ℕ)
      → c.is_open (cluster.extract s l w).1 d ≡ c.is_open w d
  pub uuid_open : (w : W) (d : ℕ) → c.is_open (cluster.new_uuid w).1 d ≡ c.is_open w d

module _ {W : Type 0} {close : ℕ → W → W} (c : Connections close) (m : Clients) where
  -- How a Connect ends: with a client and a cache, or with an error or a panic and the old cache. In
  -- each case the open connections are those of the cache.
  abbrev pub Accounts : Result (External × Clients) × W → Type 0
  Accounts (ok (ext, m'), w') = IsCache m' × IsExactly c w' m'
  Accounts (err e, w') = IsExactly c w' m
  Accounts (panic, w') = IsExactly c w' m

  -- A call that may fail, and what follows it.
  Accounts-reply :
      {A : Type 0} (msg : String) (f : A → Action W (External × Clients)) (x : Reply A × W)
      → IsExactly c x.1 m
      → ((a : A) (w : W) → IsExactly c w m → Accounts (f a w))
      → Accounts (resume f (or_wrap msg x.0 x.1))
  Accounts-reply msg f (reply a, w) exact g = g a w exact
  Accounts-reply msg f (failure e, w) exact g = exact

  Accounts-deref :
      {A : Type 0} (f : A → Action W (External × Clients)) (o : Option A) (w : W)
      → IsExactly c w m
      → ((a : A) (w : W) → IsExactly c w m → Accounts (f a w))
      → Accounts (resume f (deref o w))
  Accounts-deref f none w exact g = exact
  Accounts-deref f (some a) w exact g = g a w exact

module _ {k : Kube} {W : Type 0} {close : ℕ → W → W} (c : Connections close) (cluster : Cluster k W)
    (new_service_fn : List ℕ → Action W ℕ) (o : Opens c cluster new_service_fn) (m : Clients)
    (v : IsCache m) where
  Accounts-checkout :
      (key id : String) (h : ℕ) (w : W)
      → owned m h ≡ false
      → ((d : ℕ) → c.is_open w d ≡ (nat_eq d h || owned m d))
      → Accounts c m
          (checkout close key (record { service = some h; id = id; usage_counter = pos 0 }) m w)
  Accounts-checkout key id h w apart opened = go _ (
      checkout-Checks c key fresh m w v
        (record { handle = h; served = refl; unused = refl; apart = apart; opened = opened }))
    where
      fresh : External
      fresh = record { service = some h; id = id; usage_counter = pos 0 }

      go : (r : Result (External × Clients) × W) → Checks c key fresh m r → Accounts c m r
      go (ok (ext, m'), w') checks = (checks.0, checks.1)
      go (err e, w') checks = absurd checks
      go (panic, w') checks = absurd checks

  abbrev made : (creds : List ℕ) → Result ℕ × W → Result (External × Clients) × W
  made creds r =
      resume
        (λ made. or_wrap "cannot create new Service" made >>= λ svc. uuid cluster >>= λ id.
          checkout close (hash cluster creds)
            (record { service = some svc; id = id; usage_counter = pos 0 }) m)
        (caught r)

  Accounts-made :
      (creds : List ℕ) (w : W) (r : Result ℕ × W)
      → new_service_fn creds w ≡ r
      → IsExactly c w m
      → Accounts c m (made creds r)
  Accounts-made creds w (ok h, w') q exact =
      let (closed, opened) = o.opens_one creds w w' h q in
      Accounts-checkout (hash cluster creds) _ h _ (sym (exact h) ∙ closed)
        (λ d. o.uuid_open w' d ∙ opened d ∙ ap (λ b. nat_eq d h || b) (exact d))
  Accounts-made creds w (err e, w') q exact = λ d. o.opens_none creds w w' e q d ∙ exact d
  Accounts-made creds w (panic, w') q exact = absurd (o.no_panic creds w w' q)

  -- However a Connect ends, just the connections of its cache are open: a service that is not used,
  -- because its credentials have a client already, is closed again.
  pub connect_by-Accounts :
      (reference : Option k.Reference) (mg : Managed k) (w : W)
      → IsExactly c w m
      → Accounts c m (connect_by cluster close new_service_fn reference mg m w)
  unfolding connect_by
  connect_by-Accounts reference mg w exact =
      Accounts-reply c m _ _ (cluster.track mg w) (λ d. o.track_open mg w d ∙ exact d)
        λ _ w1 x1. Accounts-deref c m _ reference w1 x1 λ ref w2 x2.
          Accounts-reply c m _ _ (cluster.get_provider_config (k.reference_name ref) w2)
            (λ d. o.get_open (k.reference_name ref) w2 d ∙ x2 d)
            λ pc w3 x3.
              let cd = pc.spec.credentials in
              Accounts-reply c m _ _ (cluster.extract cd.source cd.common_credential_selectors w3)
                (λ d. o.extract_open cd.source cd.common_credential_selectors w3 d ∙ x3 d)
                λ creds w4 x4. Accounts-made creds w4 (new_service_fn creds w4) refl x4
