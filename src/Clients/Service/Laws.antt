-- ===== src/Clients/Service/Laws.antt =====
-- What a service was connected with.
use provider_temporal.Base.{
  ℕ, ◌≡◌, refl, true, false, Bool-cases, String-cases, some, none, List, [], ◌∷◌, ◌⊎◌, inl, inr,
  ◌≢◌,
}
use provider_temporal.Go.Effects.{
  Error, Reply, reply, failure, Result, ok, err, panic, Action, ◌>>=◌, Reply-cases, call, or_wrap,
  resume,
}
use provider_temporal.Go.Json.{Json}
use provider_temporal.Clients.Service.{
  TemporalServiceConfig, TransportCredentials, insecure, new_tls, Dialer, unmarshal_config,
  is_incomplete, tls_credentials, transport_credentials, new_temporal_service,
}
use provider_temporal.Clients.Service.Reading.{Reads, Misreads, Option-split, read_config-IsDecoded}

module _ {W Certificate CertPool : Type 0} (d : Dialer W Certificate CertPool) where
  -- How a service of this configuration may be connected: without TLS if that is off, and else with
  -- the given certificate, key and authority, all three present, and TLS 1.2 at least.
  abbrev pub Transports : TemporalServiceConfig → TransportCredentials Certificate CertPool → Type 0
  Transports conf t =
      ((conf.use_tls ≡ false) × (t ≡ insecure))
      ⊎ ((conf.use_tls ≡ true)
          × ((conf.ca_cert_pem ≢ "") × (conf.cert_pem ≢ "") × (conf.key_pem ≢ ""))
          × ((cert : Certificate) × (pool : CertPool) × (d.x509_key_pair conf.cert_pem conf.key_pem
                ≡ reply cert)
              × (d.append_certs conf.ca_cert_pem ≡ some pool)
              × (t ≡ new_tls 0x0303 (cert ∷ []) pool)))

  -- Why a configuration is refused: TLS is on, and of certificate, key and authority one is missing or is
  -- not accepted.
  abbrev pub Refuses : TemporalServiceConfig → Type 0
  Refuses conf =
      (conf.use_tls ≡ true)
      × (((conf.ca_cert_pem ≡ "") ⊎ (conf.cert_pem ≡ "") ⊎ (conf.key_pem ≡ ""))
          ⊎ ((e : Error) × (d.x509_key_pair conf.cert_pem conf.key_pem ≡ failure e))
          ⊎ (d.append_certs conf.ca_cert_pem ≡ none))

  is_incomplete-cases :
      (conf : TemporalServiceConfig)
      → ((is_incomplete d conf ≡ true)
          × ((conf.ca_cert_pem ≡ "") ⊎ (conf.cert_pem ≡ "") ⊎ (conf.key_pem ≡ "")))
        ⊎ ((is_incomplete d conf ≡ false)
            × ((conf.ca_cert_pem ≢ "") × (conf.cert_pem ≢ "") × (conf.key_pem ≢ "")))
  unfolding is_incomplete
  is_incomplete-cases conf = elim (String-cases conf.ca_cert_pem "") [
    | inl (e, _) ↦ inl (rw e refl, inl e)
    | inr (a, p) ↦ elim (String-cases conf.cert_pem "") [
      | inl (e, _) ↦ inl (rw (p, e) refl, inr (inl e))
      | inr (b, q) ↦ elim (String-cases conf.key_pem "") [
        | inl (e, _) ↦ inl (rw (p, q, e) refl, inr (inr e))
        | inr (c, r) ↦ inr (rw (p, q, r) refl, (a, b, c))
      ]
    ]
  ]

  abbrev pub Transported :
      TemporalServiceConfig → W → Result (TransportCredentials Certificate CertPool) × W → Type 0
  Transported conf w (ok t, w') = (w' ≡ w) × Transports conf t
  Transported conf w (err e, w') = (w' ≡ w) × Refuses conf
  Transported conf w (panic, w') = ⊥

  Reply-split :
      {A : Type 0} (r : Reply A) → ((a : A) × (r ≡ reply a)) ⊎ ((e : Error) × (r ≡ failure e))
  Reply-split (reply a) = inl (a, refl)
  Reply-split (failure e) = inr (e, refl)

  transport_credentials-Transported :
      (conf : TemporalServiceConfig) (w : W) → Transported conf w (transport_credentials d conf w)
  unfolding transport_credentials tls_credentials
  transport_credentials-Transported conf w = elim (Bool-cases conf.use_tls) [
    | inr off ↦ simp off (refl, inl (refl, refl))
    | inl on ↦ elim (is_incomplete-cases conf) [
      | inl (incomplete, why) ↦ simp (on, incomplete) (refl, (refl, inl why))
      | inr (complete, all) ↦ elim (Reply-split (d.x509_key_pair conf.cert_pem conf.key_pem)) [
        | inr (e, q) ↦ simp (on, complete, q) (refl, (refl, inr (inl (e, refl))))
        | inl (cert, q) ↦ elim (Option-split (d.append_certs conf.ca_cert_pem)) [
          | inr p ↦ simp (on, complete, q, p) (refl, (refl, inr (inr refl)))
          | inl (pool, p) ↦
              simp (on, complete, q, p) (refl, inr (refl, all, (cert, pool, refl, refl, refl)))
        ]
      ]
    ]
  ]

  -- The argument of NewTemporalService is JSON of this configuration.
  abbrev pub Configures : List ℕ → TemporalServiceConfig → Type 0
  Configures config_data conf = (j : Json) × (d.parse config_data ≡ some j) × Reads j conf

  -- Why nothing is dialed: the argument is not JSON of a configuration, or the configuration is refused.
  abbrev pub Rejects : List ℕ → Type 0
  Rejects config_data =
      (d.parse config_data ≡ none)
      ⊎ ((j : Json) × (d.parse config_data ≡ some j) × Misreads j)
      ⊎ ((conf : TemporalServiceConfig) × Configures config_data conf × Refuses conf)

  -- How a call of NewTemporalService ended.
  abbrev pub Dials : List ℕ → W → Result ℕ × W → Type 0
  Dials config_data w (ok h, w') =
      (conf : TemporalServiceConfig) × (t : TransportCredentials Certificate CertPool) × Configures
        config_data conf
      × Transports conf t
      × (d.dial (record { host_port = conf.host_port; transport = t }) w ≡ (reply h, w'))
  Dials config_data w (err e, w') =
      ((w' ≡ w) × Rejects config_data)
      ⊎ ((conf : TemporalServiceConfig) × (t : TransportCredentials Certificate CertPool)
          × (f : Error) × Configures config_data conf
          × Transports conf t
          × (d.dial (record { host_port = conf.host_port; transport = t }) w ≡ (failure f, w')))
  Dials config_data w (panic, w') = ⊥

  abbrev connect : TemporalServiceConfig → TransportCredentials Certificate CertPool → Action W ℕ
  connect conf t = do
    r ← call (d.dial (record { host_port = conf.host_port; transport = t }))
    or_wrap "failed to dial Temporal client" r

  connect-Dials :
      (config_data : List ℕ) (conf : TemporalServiceConfig)
      (t : TransportCredentials Certificate CertPool) (w : W)
      → Configures config_data conf
      → Transports conf t
      → Dials config_data w (connect conf t w)
  connect-Dials config_data conf t w c ts =
      elim (Reply-cases (d.dial (record { host_port = conf.host_port; transport = t }) w)) [
        | inl (h, w', q) ↦ rw q (conf, t, c, ts, q)
        | inr (f, w', q) ↦ rw q (inr (conf, t, f, c, ts, q))
      ]

  transported-Dials :
      (config_data : List ℕ) (conf : TemporalServiceConfig) (w : W)
      (r : Result (TransportCredentials Certificate CertPool) × W)
      → Configures config_data conf
      → Transported conf w r
      → Dials config_data w (resume (connect conf) r)
  transported-Dials config_data conf w (ok t, w') c (same, ts) =
      rw same (connect-Dials config_data conf t w c ts)
  transported-Dials config_data conf w (err e, w') c (same, why) =
      inl (same, inr (inr (conf, c, why)))
  transported-Dials config_data conf w (panic, w') c bad = absurd bad

  -- NewTemporalService never panics. When it succeeds its argument is JSON of a configuration, and
  -- the dialer connected to the host of it, without TLS if that is off, and else with TLS 1.2 at
  -- least and the given certificate, key and authority, none of them missing. When it fails either
  -- the dialer did, called in this way, or nothing has changed, and the argument is not JSON of a
  -- configuration, or TLS is on and of certificate, key and authority one is missing or is not
  -- accepted.
  pub new_temporal_service-Dials :
      (config_data : List ℕ) (w : W) → Dials config_data w (new_temporal_service d config_data w)
  unfolding new_temporal_service unmarshal_config
  new_temporal_service-Dials config_data w = elim (Option-split (d.parse config_data)) [
    | inr none_read ↦ rw none_read (inl (refl, inl none_read))
    | inl (j, p) ↦ elim (read_config-IsDecoded W j) [
      | inl (conf, reads, q) ↦
          rw (p, q w)
            (transported-Dials config_data conf w (transport_credentials d conf w) (j, p, reads)
              (transport_credentials-Transported conf w))
      | inr (bad, (e, q)) ↦ rw (p, q w) (inl (refl, inr (inl (j, p, bad))))
    ]
  ]
