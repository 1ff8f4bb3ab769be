-- ===== src/Clients/Service.antt =====
-- internal/clients/service.go: NewTemporalService, which connects to a server by a JSON configuration.
-- What it calls is a parameter: JSON's syntax, x509 and the dialing of the Temporal SDK. A service is
-- known by the number of its connection.
pub mod Laws
pub mod Reading
use provider_temporal.Base.{
  ℕ, String, Bool, true, false, ◌||◌, Option, none, some, List, [], ◌∷◌, if◌then◌else◌, ◌==◌,
}
use provider_temporal.Go.Effects.{
  Error, Reply, message, wrap, Action, ◌>>=◌, pure, raise, call, or_wrap, attempt,
}
use provider_temporal.Go.Json.{Json, null, object, read, assign_text, assign_bool}
use provider_temporal.Clients.Namespace.Compare.{decoded}

pub record TemporalServiceConfig : Type 0 where
  pub host_port : String
  pub use_tls : Bool
  pub ca_cert_pem : String
  pub cert_pem : String
  pub key_pem : String

-- grpc's transport credentials; of a tls.Config the fields that the code sets.
pub data TransportCredentials (Certificate CertPool : Type 0) : Type 0 where
  insecure : TransportCredentials Certificate CertPool
  new_tls : ℕ → List Certificate → CertPool → TransportCredentials Certificate CertPool

pub record ClientOptions (Certificate CertPool : Type 0) : Type 0 where
  pub host_port : String
  pub transport : TransportCredentials Certificate CertPool

-- `parse` is the syntax of json.Unmarshal; `append_certs` is AppendCertsFromPEM on an empty pool, and
-- nothing where that returns false.
pub record Dialer (W Certificate CertPool : Type 0) : Type 0 where
  pub parse : List ℕ → Option Json
  pub x509_key_pair : String → String → Reply Certificate
  pub append_certs : String → Option CertPool
  pub dial : ClientOptions Certificate CertPool → W → Reply ℕ × W
  pub close : ℕ → W → W

-- tls.VersionTLS12
abbrev pub version_tls12 : ℕ
version_tls12 = 0x0303

-- json.Unmarshal by the tags of TemporalServiceConfig, into a fresh struct.
unfoldable pub read_config : {W : Type 0} → Json → Action W TemporalServiceConfig
read_config (object ms) = do
  host_port ← decoded (read assign_text "hostPort" (some "") ms)
  use_tls ← decoded (read assign_bool "useTLS" (some false) ms)
  ca_cert_pem ← decoded (read assign_text "caCertPem" (some "") ms)
  cert_pem ← decoded (read assign_text "certPem" (some "") ms)
  key_pem ← decoded (read assign_text "keyPem" (some "") ms)
  pure (record {
    host_port = host_port;
    use_tls = use_tls;
    ca_cert_pem = ca_cert_pem;
    cert_pem = cert_pem;
    key_pem = key_pem;
  })
read_config null =
    pure (record { host_port = ""; use_tls = false; ca_cert_pem = ""; cert_pem = ""; key_pem = "" })
read_config _ = raise (message "json: cannot unmarshal")

module _ {W Certificate CertPool : Type 0} (d : Dialer W Certificate CertPool) where
  abbrev pub parsed : Option Json → Action W TemporalServiceConfig
  parsed none = raise (message "json: syntax error")
  parsed (some j) = read_config j

  unfoldable pub unmarshal_config : List ℕ → Action W TemporalServiceConfig
  unmarshal_config config_data = do
    r ← attempt (parsed (d.parse config_data))
    or_wrap "failed to unmarshal config data" r

  abbrev pub appended : Option CertPool → Action W CertPool
  appended none = raise (message "failed to append CA certificate")
  appended (some pool) = pure pool

  unfoldable pub is_incomplete : TemporalServiceConfig → Bool
  is_incomplete conf = conf.ca_cert_pem == "" || conf.cert_pem == "" || conf.key_pem == ""

  unfoldable pub tls_credentials :
      TemporalServiceConfig → Action W (TransportCredentials Certificate CertPool)
  tls_credentials conf = do
    cert ← or_wrap "failed to load client certificate" (d.x509_key_pair conf.cert_pem conf.key_pem)
    pool ← appended (d.append_certs conf.ca_cert_pem)
    pure (new_tls version_tls12 (cert ∷ []) pool)

  unfoldable pub transport_credentials :
      TemporalServiceConfig → Action W (TransportCredentials Certificate CertPool)
  transport_credentials conf =
      if conf.use_tls
      then (if is_incomplete conf
          then raise
              (message "TLS is enabled but one or more of the certificates or key are missing")
          else tls_credentials conf)
      else pure insecure

  unfoldable pub new_temporal_service : List ℕ → Action W ℕ
  new_temporal_service config_data = do
    conf ← unmarshal_config config_data
    credentials ← transport_credentials conf
    r ← call (d.dial (record { host_port = conf.host_port; transport = credentials }))
    or_wrap "failed to dial Temporal client" r
