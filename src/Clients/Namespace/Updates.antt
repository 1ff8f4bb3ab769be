-- ===== src/Clients/Namespace/Updates.antt =====
-- UpdateNamespaceByName against the abstract view of the server, and when an updated namespace compares
-- equal to the spec.
use provider_temporal.Base.{
  ℕ, ◌≡◌, refl, ap, ◌≢◌, ◌↔◌, inl, inr, String, String-cases, Option, none, some, if◌then◌else◌,
  ◌==◌, nat_eq, arith,
}
use provider_temporal.Base.Int.{ℤ}
use provider_temporal.Go.Effects.{Error, reply, failure, Result, ok, err, panic, Reply-cases}
use provider_temporal.Go.Json.{StringMap}
use provider_temporal.Api.Namespace.{TemporalNamespaceParameters}
use provider_temporal.Clients.Temporal.{
  Temporal, NamespaceConfig, UpdateNamespaceInfo, UpdateNamespaceRequest, index,
}
use provider_temporal.Clients.Namespace.Fields.{
  create_retention, update_retention, resolve_ptr_or_default, create_ptr_or_nil_if_default,
  data_or_nil, is_non_empty,
}
use provider_temporal.Clients.Namespace.Fields.Laws.{IsRetainable, retention_days-create_retention}
use provider_temporal.Clients.Namespace.Compare.{NamespaceCompare, parameters, observation}
use provider_temporal.Clients.Namespace.Compare.Laws.{common, keep_map}
use provider_temporal.Clients.Namespace.Service.{
  update_request, update_namespace_by_name, observe_fields,
}
use provider_temporal.Clients.Namespace.Server.{Namespace, NamespaceServer}
use provider_temporal.Clients.Namespace.Refinement.{observed, Unchanged}

-- A text that is not empty replaces the one before, and so does a state that is not Unspecified.
abbrev pub kept_text : String → String → String
kept_text old given = if given == "" then old else given

abbrev pub kept_state : ℕ → ℕ → ℕ
kept_state old given = if nat_eq given 0 then old else given

-- The namespace after a request; `merge` is what the server makes of the old data and the new.
abbrev pub updated :
    (StringMap → StringMap → StringMap)
    → UpdateNamespaceInfo
    → NamespaceConfig
    → ℤ
    → Namespace
    → Namespace
updated merge info config ttl n = record {
  info = record (n.info) {
    description = kept_text n.info.description info.description;
    owner_email = kept_text n.info.owner_email info.owner_email;
    data_map = merge n.info.data_map info.data_map;
  };
  config = record {
    workflow_execution_retention_ttl = some ttl;
    history_archival_state =
        kept_state n.config.history_archival_state config.history_archival_state;
    history_archival_uri = kept_text n.config.history_archival_uri config.history_archival_uri;
    visibility_archival_state =
        kept_state n.config.visibility_archival_state config.visibility_archival_state;
    visibility_archival_uri =
        kept_text n.config.visibility_archival_uri config.visibility_archival_uri;
  };
  ttl = ttl;
}

-- What the calls rely on of UpdateNamespace on a cluster with archival and no default URI, for requests with all three parts: it changes the named namespace
-- and no other, keeps what the request leaves empty, and merges the data.
pub record NamespaceUpdates {W : Type 0} {t : Temporal W} (s : NamespaceServer t) : Type 0 where
  pub merge : StringMap → StringMap → StringMap
  pub update_success :
      (name : String) (info : UpdateNamespaceInfo) (config : NamespaceConfig) (ttl : ℤ) (w w' : W)
      → config.workflow_execution_retention_ttl ≡ some ttl
      → t.update_namespace
          (record { namespace = name; update_info = some info; config = some config })
          w
        ≡ (reply tt, w')
      → (n : Namespace) × (s.view w name ≡ some n)
        × ((m : String)
            → s.view w' m
              ≡ (if m == name then some (updated merge info config ttl n) else s.view w m))
  pub update_failure :
      (r : UpdateNamespaceRequest) (e : Error) (w w' : W)
      → t.update_namespace r w ≡ (failure e, w')
      → ((m : String) → s.view w' m ≡ s.view w m)

module _ {W : Type 0} (t : Temporal W) (merge : StringMap → StringMap → StringMap) where
  -- The namespace that an update by a spec leaves.
  abbrev pub updated_by : TemporalNamespaceParameters → Namespace → Namespace
  updated_by p n =
      let value = t.enums.archival_state_value in
      updated merge
        (record {
          description = resolve_ptr_or_default p.description;
          owner_email = resolve_ptr_or_default p.owner_email;
          data_map = data_or_nil p.data_map;
        })
        (record {
          workflow_execution_retention_ttl =
              some (update_retention p.workflow_execution_retention_days);
          history_archival_state = index value p.history_archival_state;
          history_archival_uri = resolve_ptr_or_default p.history_archival_uri;
          visibility_archival_state = index value p.visibility_archival_state;
          visibility_archival_uri = resolve_ptr_or_default p.visibility_archival_uri;
        })
        (update_retention p.workflow_execution_retention_days) n

module _ {W : Type 0} (t : Temporal W) (s : NamespaceServer t) (u : NamespaceUpdates s) where
  abbrev pub Updates : TemporalNamespaceParameters → W → Result (Unit {0}) × W → Type 0
  Updates p w (ok _, w') =
      (n : Namespace) × (s.view w p.name ≡ some n)
      × ((m : String)
          → s.view w' m ≡ (if m == p.name then some (updated_by t u.merge p n) else s.view w m))
  Updates p w (err e, w') = Unchanged t s w w'
  Updates p w (panic, w') = ⊥

  -- On a server with the laws of NamespaceServer and NamespaceUpdates UpdateNamespaceByName never
  -- panics. When it succeeds the namespace was there and is updated by the spec, no other touched;
  -- when it fails no namespace has changed.
  pub update_namespace_by_name-Updates :
      (p : TemporalNamespaceParameters) (w : W) → Updates p w (update_namespace_by_name t p w)
  unfolding update_namespace_by_name update_request
  update_namespace_by_name-Updates p w =
      elim (Reply-cases (t.update_namespace (update_request t p) w)) [
        | inl (_, w', q) ↦ rw q (
            u.update_success p.name _ _ (update_retention p.workflow_execution_retention_days) w w'
              refl q)
        | inr (e, w', q) ↦ rw q (u.update_failure (update_request t p) e w w' q)
      ]

-- A text of the spec is what is observed after an update: it is given and not empty, or the namespace had none.
abbrev pub IsTextSettled : String → Option String → Type 0
IsTextSettled old o = (o ≢ some "") × (o ≡ none → old ≡ "")

pub kept_text-IsTextSettled :
    (old : String) (o : Option String)
    → (create_ptr_or_nil_if_default (kept_text old (resolve_ptr_or_default o)) ≡ o)
      ↔ IsTextSettled old o
unfolding create_ptr_or_nil_if_default resolve_ptr_or_default
kept_text-IsTextSettled old none = elim (String-cases old "") [
  | inl (e, b) ↦ (λ h. ((λ q. cc), λ _. e), λ h. rw b refl)
  | inr (ne, b) ↦ (λ h. cc (rw b at h), λ h. absurd (ne (h.1 refl)))
]
kept_text-IsTextSettled old (some given) = elim (String-cases given "") [
  | inl (e, b) ↦ (
    λ h. elim (String-cases old "") [
      | inl (eo, bo) ↦ absurd (ground (arith, rw (b, bo) at h))
      | inr (neo, bo) ↦ absurd (neo (cc (rw (b, bo) at h)))
    ],
    λ h. absurd (h.0 (ap some e)),
  )
  | inr (ne, b) ↦ (λ h. ((λ q. ne (cc)), λ q. cc), λ h. rw b (rw b refl))
]

module _ {W : Type 0} (t : Temporal W) (merge : StringMap → StringMap → StringMap) where
  -- What an update by the spec makes of a namespace is what the spec says.
  pub record IsSettled (p : TemporalNamespaceParameters) (n : Namespace) : Type 0 where
    pub name_same : n.info.name ≡ p.name
    pub description_settled : IsTextSettled n.info.description p.description
    pub owner_email_settled : IsTextSettled n.info.owner_email p.owner_email
    pub retention_fits : IsRetainable p.workflow_execution_retention_days
    pub data_settled :
        let merged = merge n.info.data_map (data_or_nil p.data_map) in
        keep_map (if is_non_empty merged then some merged else none) ≡ keep_map p.data_map
    pub history_state_settled :
        t.enums.archival_state_string (
          kept_state n.config.history_archival_state
            (index t.enums.archival_state_value p.history_archival_state))
        ≡ p.history_archival_state
    pub history_uri_settled : IsTextSettled n.config.history_archival_uri p.history_archival_uri
    pub visibility_state_settled :
        t.enums.archival_state_string (
          kept_state n.config.visibility_archival_state
            (index t.enums.archival_state_value p.visibility_archival_state))
        ≡ p.visibility_archival_state
    pub visibility_uri_settled :
        IsTextSettled n.config.visibility_archival_uri p.visibility_archival_uri

  module _ (p : TemporalNamespaceParameters) (n : Namespace) where
    IsSettled-common :
        common (observation (observed t (updated_by t merge p n))) ≡ common (parameters p)
        → IsSettled p n
    unfolding observe_fields update_retention create_retention
    IsSettled-common h = record {
      name_same = ap (λ (c : NamespaceCompare). c.name) h;
      description_settled =
          (kept_text-IsTextSettled _ p.description).0
            (ap (λ (c : NamespaceCompare). c.description) h);
      owner_email_settled =
          (kept_text-IsTextSettled _ p.owner_email).0
            (ap (λ (c : NamespaceCompare). c.owner_email) h);
      retention_fits =
          (retention_days-create_retention _).0
            (ap (λ (c : NamespaceCompare). c.workflow_execution_retention_days) h);
      data_settled = ap (λ (c : NamespaceCompare). c.data_map) h;
      history_state_settled = ap (λ (c : NamespaceCompare). c.history_archival_state) h;
      history_uri_settled =
          (kept_text-IsTextSettled _ p.history_archival_uri).0
            (ap (λ (c : NamespaceCompare). c.history_archival_uri) h);
      visibility_state_settled = ap (λ (c : NamespaceCompare). c.visibility_archival_state) h;
      visibility_uri_settled =
          (kept_text-IsTextSettled _ p.visibility_archival_uri).0
            (ap (λ (c : NamespaceCompare). c.visibility_archival_uri) h);
    }

    common-IsSettled :
        IsSettled p n
        → common (observation (observed t (updated_by t merge p n))) ≡ common (parameters p)
    unfolding observe_fields update_retention create_retention
    common-IsSettled c = λ i. record {
      name = c.name_same i;
      description =
          (kept_text-IsTextSettled n.info.description p.description).1 c.description_settled i;
      owner_email =
          (kept_text-IsTextSettled n.info.owner_email p.owner_email).1 c.owner_email_settled i;
      workflow_execution_retention_days =
          (retention_days-create_retention p.workflow_execution_retention_days).1 c.retention_fits
            i;
      data_map = c.data_settled i;
      history_archival_state = c.history_state_settled i;
      history_archival_uri =
          (kept_text-IsTextSettled n.config.history_archival_uri p.history_archival_uri).1
            c.history_uri_settled i;
      visibility_archival_state = c.visibility_state_settled i;
      visibility_archival_uri =
          (kept_text-IsTextSettled n.config.visibility_archival_uri p.visibility_archival_uri).1
            c.visibility_uri_settled i;
    }

    pub common-updated :
        (common (observation (observed t (updated_by t merge p n))) ≡ common (parameters p))
        ↔ IsSettled p n
    common-updated = (IsSettled-common, common-IsSettled)
