-- ===== src/Controller/Connector/Connect.antt =====
-- Connect, but for the type assertion that each controller begins with: usage, ProviderConfig,
-- credentials, a new service, and the cache. What it calls of crossplane-runtime, Kubernetes, uuid and
-- SHA-256 is a parameter.
use Prim.Native.Char.{Char}
use provider_temporal.Base.{ℕ, ◌/◌, ◌%◌, zero, suc, String, Option, some, List, [], ◌∷◌}
use provider_temporal.Base.Int.{pos}
use provider_temporal.Go.Effects.{Reply, ok, Action, ◌>>=◌, ◌>>◌, deref, call, or_wrap, attempt}
use provider_temporal.Api.Kube.{Kube}
use provider_temporal.Api.ProviderConfig.{ProviderConfig}
use provider_temporal.Controller.Managed.{Managed}
use provider_temporal.Controller.Connector.Cache.{External, Clients, checkout}

pub record Cluster (k : Kube) (W : Type 0) : Type 0 where
  pub track : Managed k → W → Reply (Unit {0}) × W
  pub get_provider_config : String → W → Reply (ProviderConfig k) × W
  pub extract : k.CredentialsSource → k.CommonCredentialSelectors → W → Reply (List ℕ) × W
  pub sha256 : List ℕ → List ℕ
  pub new_uuid : W → String × W

abbrev pub hex_digits : List Char
hex_digits =
    "0" ∷ "1" ∷ "2" ∷ "3" ∷ "4" ∷ "5" ∷ "6" ∷ "7" ∷ "8" ∷ "9" ∷ "a" ∷ "b" ∷ "c" ∷ "d" ∷ "e" ∷ "f"
    ∷ []

abbrev pub digit_of : List Char → ℕ → Char
digit_of [] i = "0"
digit_of (c ∷ cs) zero = c
digit_of (c ∷ cs) (suc i) = digit_of cs i

-- encoding/hex: two digits for each byte.
unfoldable pub hex_encode : List ℕ → String
hex_encode [] = ""
hex_encode (b ∷ bs) =
    String.◌∷◌ (digit_of hex_digits (b / 16))
      (String.◌∷◌ (digit_of hex_digits (b % 16)) (hex_encode bs))

module _ {k : Kube} {W : Type 0} (cluster : Cluster k W) where
  unfoldable pub hash : List ℕ → String
  hash content = hex_encode (cluster.sha256 content)

  abbrev pub uuid : Action W String
  uuid w = let (id, w') = cluster.new_uuid w in (ok id, w')

  -- Both controllers pass the reference of their resource, the resource and the constructor of their
  -- service. A resource without a reference panics.
  unfoldable pub connect_by :
      (ℕ → W → W)
      → (List ℕ → Action W ℕ)
      → Option k.Reference
      → Managed k
      → Clients
      → Action W (External × Clients)
  connect_by close new_service_fn reference mg clients = do
    tracked ← call (cluster.track mg)
    or_wrap "cannot track ProviderConfig usage" tracked
    ref ← deref reference
    got ← call (cluster.get_provider_config (k.reference_name ref))
    pc ← or_wrap "cannot get ProviderConfig" got
    extracted ←
        call (
          cluster.extract pc.spec.credentials.source
            pc.spec.credentials.common_credential_selectors)
    creds ← or_wrap "cannot get credentials" extracted
    made ← attempt (new_service_fn creds)
    svc ← or_wrap "cannot create new Service" made
    id ← uuid
    checkout close (hash creds) (record { service = some svc; id = id; usage_counter = pos 0 })
        clients
