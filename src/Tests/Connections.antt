-- ===== src/Tests/Connections.antt =====
-- A world of open connections, with a dialer, a cluster and Kubernetes types for it.
use provider_temporal.Base.{
  ℕ, suc, ◌+◌, ◌≡◌, refl, sym, ap, ◌∙◌, String, Bool, false, ◌||◌, some, List, [], ◌∷◌,
  if◌then◌else◌, nat_eq, arith,
}
use provider_temporal.Base.Int.{pos}
use provider_temporal.Go.Effects.{Reply, reply}
use provider_temporal.Go.Json.{null, object, member, text, end}
use provider_temporal.Api.Kube.{Kube, Condition}
use provider_temporal.Clients.Service.{Dialer}
use provider_temporal.Controller.Connector.Cache.{External}
use provider_temporal.Controller.Connector.Connect.{Cluster}
use provider_temporal.Controller.Connector.Invariant.{Connections}
use provider_temporal.Controller.Connector.Service.{Environment}

abbrev pub is_open : List ℕ → ℕ → Bool
is_open [] d = false
is_open (h ∷ w) d = nat_eq d h || is_open w d

abbrev pub close : ℕ → List ℕ → List ℕ
close h [] = []
close h (d ∷ w) = if nat_eq d h then close h w else d ∷ close h w

pub is_open-close :
    (h d : ℕ) (w : List ℕ) → is_open (close h w) d ≡ (if nat_eq d h then false else is_open w d)
is_open-close h d [] = ground arith
is_open-close h d (i ∷ w) = ground (arith, is_open-close h d w)

abbrev sum : List ℕ → ℕ
sum [] = 0
sum (h ∷ w) = h + sum w

-- A number that no open connection has.
abbrev pub next : List ℕ → ℕ
next w = suc (sum w)

is_open_beyond : (w : List ℕ) (n : ℕ) → is_open w (suc (sum w + n)) ≡ false
is_open_beyond [] n = refl
is_open_beyond (h ∷ w) n =
    let e : suc (sum (h ∷ w) + n) ≡ suc (sum w + (h + n)) = omega arith in
    ground (arith, e, is_open_beyond w (h + n), ap (is_open w) e)

pub is_open-next : (w : List ℕ) → is_open w (next w) ≡ false
is_open-next w =
    let e : suc (sum w + 0) ≡ suc (sum w) = omega arith in
    sym (ap (is_open w) e) ∙ is_open_beyond w 0

abbrev pub connections : Connections close
connections = record { is_open = is_open; close_lem = is_open-close }

-- The external name is all of the metadata, and a status is its conditions.
abbrev pub kube : Kube
kube = record {
  TypeMeta = Unit;
  ObjectMeta = String;
  ResourceSpec = Unit;
  ResourceStatus = List Condition;
  Reference = Unit;
  Selector = Unit;
  CredentialsSource = Unit;
  CommonCredentialSelectors = Unit;
  ProviderConfigStatus = Unit;
  ListMeta = Unit;
  ProviderConfigUsage = Unit;
  SecretStoreConfig = Unit;
  ConditionedStatus = Unit;
  provider_config_reference = λ _. some tt;
  reference_name = λ _. "default";
  get_external_name = λ m. m;
  set_external_name = λ _ n. n;
  set_conditions = λ s c. c ∷ s;
  reference_json = λ _. null;
  selector_json = λ _. null;
}

abbrev pub dialer : Dialer (List ℕ) (Unit {0}) (Unit {0})
dialer = record {
  parse = λ _. some (object (member "hostPort" (text "localhost:7233") end));
  x509_key_pair = λ _ _. reply tt;
  append_certs = λ _. some tt;
  dial = λ _ w. (reply (next w), next w ∷ w);
  close = close;
}

abbrev pub cluster : Cluster kube (List ℕ)
cluster = record {
  track = λ _ w. (reply tt, w);
  get_provider_config = λ _ w. (
    reply (record {
      type_meta = tt;
      object_meta = "default";
      spec = record { credentials = record { source = tt; common_credential_selectors = tt } };
      status = record { provider_config_status = tt };
    }),
    w,
  );
  extract = λ _ _ w. (reply (1 ∷ 2 ∷ []), w);
  sha256 = λ _. 17 ∷ 255 ∷ [];
  new_uuid = λ w. ("uuid", w);
}

pub dial_opens :
    (w w' : List ℕ) (h : ℕ)
    → ◌≡◌ {A = Reply ℕ × List ℕ} (reply (next w), next w ∷ w) (reply h, w')
    → (is_open w h ≡ false) × ((i : ℕ) → is_open w' i ≡ (nat_eq i h || is_open w i))
dial_opens w w' h q =
    let e : next w ≡ h = cc in
    (
      ap (is_open w) (sym e) ∙ is_open-next w,
      λ i. sym (ap (λ x. is_open x.1 i) q) ∙ ap (λ n. nat_eq i n || is_open w i) e,
    )

abbrev pub environment : Environment dialer cluster
environment = record {
  connections = connections;
  dial_success = λ o w w' h q. dial_opens w w' h q;
  dial_failure = λ o w w' e q. absurd (cc);
  track_open = λ mg w i. refl;
  get_open = λ n w i. refl;
  extract_open = λ s l w i. refl;
  uuid_open = λ w i. refl;
}

-- A client with `n` users.
abbrev pub client : ℕ → ℕ → External
client h n = record { service = some h; id = "uuid"; usage_counter = pos n }
