-- ===== src/Clients/Service/Reading.antt =====
-- How json.Unmarshal reads a TemporalServiceConfig.
use provider_temporal.Base.{◌≡◌, refl, ◌⊎◌, inl, inr, false, Option, none, some}
use provider_temporal.Go.Effects.{Error, ok, err, message}
use provider_temporal.Go.Json.{
  Json, Members, null, bool, number, text, object, read, assign_text, assign_bool,
}
use provider_temporal.Clients.Service.{TemporalServiceConfig, read_config}

-- An object has the five tags, each text empty and TLS off where its member is missing; null is the
-- zero configuration.
abbrev pub Reads : Json → TemporalServiceConfig → Type 0
Reads (object ms) conf =
    (read assign_text "hostPort" (some "") ms ≡ some conf.host_port)
    × (read assign_bool "useTLS" (some false) ms ≡ some conf.use_tls)
    × (read assign_text "caCertPem" (some "") ms ≡ some conf.ca_cert_pem)
    × (read assign_text "certPem" (some "") ms ≡ some conf.cert_pem)
    × (read assign_text "keyPem" (some "") ms ≡ some conf.key_pem)
Reads null conf =
    (conf.host_port ≡ "")
    × (conf.use_tls ≡ false)
    × (conf.ca_cert_pem ≡ "")
    × (conf.cert_pem ≡ "")
    × (conf.key_pem ≡ "")
Reads _ conf = ⊥

-- A member has a type that its field does not take, or the whole is no object.
abbrev pub Misreads : Json → Type 0
Misreads (object ms) =
    (read assign_text "hostPort" (some "") ms ≡ none)
    ⊎ (read assign_bool "useTLS" (some false) ms ≡ none)
    ⊎ (read assign_text "caCertPem" (some "") ms ≡ none)
    ⊎ (read assign_text "certPem" (some "") ms ≡ none)
    ⊎ (read assign_text "keyPem" (some "") ms ≡ none)
Misreads null = ⊥
Misreads _ = Unit

pub Option-split : {A : Type 0} (o : Option A) → ((a : A) × (o ≡ some a)) ⊎ (o ≡ none)
Option-split none = inr refl
Option-split (some a) = inl (a, refl)

abbrev mismatch : Error
mismatch = message "json: cannot unmarshal"

module _ (W : Type 0) where
  -- Reading changes nothing, and does not panic.
  abbrev pub IsDecoded : Json → Type 0
  IsDecoded j =
      ((conf : TemporalServiceConfig) × Reads j conf
        × ((w : W) → read_config {W = W} j w ≡ (ok conf, w)))
      ⊎ (Misreads j × ((e : Error) × ((w : W) → read_config {W = W} j w ≡ (err e, w))))

  object-IsDecoded : (ms : Members) → IsDecoded (object ms)
  unfolding read_config
  object-IsDecoded ms = elim (Option-split (read assign_text "hostPort" (some "") ms)) [
    | inr a ↦ inr (inl a, (mismatch, λ w. rw a refl))
    | inl (host_port, a) ↦ elim (Option-split (read assign_bool "useTLS" (some false) ms)) [
      | inr b ↦ inr (inr (inl b), (mismatch, λ w. rw (a, b) refl))
      | inl (use_tls, b) ↦ elim (Option-split (read assign_text "caCertPem" (some "") ms)) [
        | inr c ↦ inr (inr (inr (inl c)), (mismatch, λ w. rw (a, b, c) refl))
        | inl (ca, c) ↦ elim (Option-split (read assign_text "certPem" (some "") ms)) [
          | inr e ↦ inr (inr (inr (inr (inl e))), (mismatch, λ w. rw (a, b, c, e) refl))
          | inl (cert, e) ↦ elim (Option-split (read assign_text "keyPem" (some "") ms)) [
            | inr f ↦ inr (inr (inr (inr (inr f))), (mismatch, λ w. rw (a, b, c, e, f) refl))
            | inl (key, f) ↦ inl (
              record {
                host_port = host_port;
                use_tls = use_tls;
                ca_cert_pem = ca;
                cert_pem = cert;
                key_pem = key;
              },
              (a, b, c, e, f),
              λ w. rw (a, b, c, e, f) refl,
            )
          ]
        ]
      ]
    ]
  ]

  pub read_config-IsDecoded : (j : Json) → IsDecoded j
  unfolding read_config
  read_config-IsDecoded null = inl (_, (refl, refl, refl, refl, refl), λ w. refl)
  read_config-IsDecoded (object ms) = object-IsDecoded ms
  read_config-IsDecoded (bool b) = inr (tt, (_, λ w. refl))
  read_config-IsDecoded (number n) = inr (tt, (_, λ w. refl))
  read_config-IsDecoded (text s) = inr (tt, (_, λ w. refl))
