-- ===== src/Clients/Namespace/Refinement.antt =====
-- The calls about namespaces against the abstract view of the server: a map from names.
use mathlib.Core.Option
use provider_temporal.Base.{
  ℕ, ◌≡◌, refl, ap, ◌⊎◌, inl, inr, String, String-cases, true, false, Bool-cases, Option-cases,
  Option, none, some, if◌then◌else◌, ◌==◌,
}
use provider_temporal.Go.Effects.{
  Error, namespace_already_exists, namespace_not_found, namespace_invalid_state, errors_as, reply,
  failure, Result, ok, err, panic, Reply-cases, attempt, ◌>>=◌,
}
use provider_temporal.Api.Namespace.{TemporalNamespaceParameters, TemporalNamespaceObservation}
use provider_temporal.Clients.Temporal.{Temporal}
use provider_temporal.Clients.Namespace.Fields.{create_retention}
use provider_temporal.Clients.Namespace.Service.{
  create_request, create_namespace, observe_fields, map_describe_namespace_response,
  describe_namespace_by_name, delete_described, delete_namespace_by_name,
}
use provider_temporal.Clients.Namespace.Server.{Namespace, NamespaceServer, Left, registered}

-- A namespace of the server as the program reports it.
abbrev pub observed : {W : Type 0} → Temporal W → Namespace → TemporalNamespaceObservation
observed t n = observe_fields t n.info n.config n.ttl

module _ {W : Type 0} (t : Temporal W) (s : NamespaceServer t) where
  abbrev pub Unchanged : W → W → Type 0
  Unchanged w w' = (m : String) → s.view w' m ≡ s.view w m

  abbrev pub IsPresent : W → String → Type 0
  IsPresent w m = (n : Namespace) × (s.view w m ≡ some n)

  -- On a server with the laws of NamespaceServer DescribeNamespaceByName gives the namespace of
  -- that name, or nothing where there is none; it never fails, and changes nothing.
  pub describe_namespace_by_name_lem :
      (m : String) (w : W)
      → describe_namespace_by_name t m w ≡ (ok (Option.map (observed t) (s.view w m)), w)
  unfolding describe_namespace_by_name map_describe_namespace_response observe_fields
  describe_namespace_by_name_lem m w = elim (Option-cases (s.view w m)) [
    | inl e ↦ let (f, q, k) = s.describe_absent w m e in rw (q, k, e) refl
    | inr (n, e) ↦ rw (s.describe_present w m n e, e) refl
  ]

  abbrev pub Creates : TemporalNamespaceParameters → W → Result (Unit {0}) × W → Type 0
  Creates p w (ok _, w') =
      (IsPresent w p.name × Unchanged w w')
      ⊎ ((s.view w p.name ≡ none)
          × ((id : String) × (state : ℕ) × ((m : String)
                → s.view w' m ≡ (
                    if m == p.name
                    then some (
                        registered (create_request t p) id state
                          (create_retention p.workflow_execution_retention_days))
                    else s.view w m))))
  Creates p w (err e, w') = Unchanged w w' × (errors_as namespace_already_exists e ≡ false)
  Creates p w (panic, w') = ⊥

  -- On a server with the laws of NamespaceServer CreateNamespace never panics. On success the
  -- namespace was there already and nothing changed, or it was not and is now the one that the
  -- request describes, no other touched. A failure changes nothing, and is not that the namespace
  -- already exists.
  pub create_namespace-Creates :
      (p : TemporalNamespaceParameters) (w : W) → Creates p w (create_namespace t p w)
  unfolding create_namespace create_request
  create_namespace-Creates p w = elim (Reply-cases (t.register_namespace (create_request t p) w)) [
    | inl (_, w', q) ↦
        let (id, state, ttl, kept, absent, after) =
          s.register_success (create_request t p) w w' q in
        let same : create_retention p.workflow_execution_retention_days ≡ ttl = cc in
        rw q (inr (absent, (id, state, λ m. rw same (after m))))
    | inr (e, w', q) ↦
        let (same, present) = s.register_failure (create_request t p) e w w' q in
        elim (Bool-cases (errors_as namespace_already_exists e)) [
          | inl b ↦ rw (q, b) (inl (present b, same))
          | inr b ↦ rw (q, b) (same, b)
        ]
  ]

  -- The errors of DeleteNamespace that count as success.
  abbrev pub IsTolerated : Error → Type 0
  IsTolerated e =
      (errors_as namespace_invalid_state e ≡ true) ⊎ (errors_as namespace_not_found e ≡ true)

  abbrev pub Deletes : String → W → Result (Option String × Option Error) × W → Type 0
  Deletes m w (ok (none, none), w') = (s.view w m ≡ none) × (w' ≡ w)
  Deletes m w (ok (some k, none), w') =
      ((n : Namespace) × (s.view w m ≡ some n) × (k ≡ n.info.name))
      × (((s.view w' m ≡ none) × ((j : String) → Left t (s.view w j) (s.view w' j) ⊎ (j ≡ m)))
          ⊎ (Unchanged w w'
              × ((e : Error) × (t.delete_namespace m w ≡ (failure e, w')) × IsTolerated e)))
  Deletes m w (ok (some k, some e), w') = IsPresent w m × Unchanged w w' × ¬ IsTolerated e
  Deletes m w (ok (none, some e), w') = ⊥
  Deletes m w (err e, w') = ⊥
  Deletes m w (panic, w') = ⊥

  delete-described :
      (m : String) (w : W)
      → delete_namespace_by_name t m w
        ≡ delete_described t m (reply (Option.map (observed t) (s.view w m))) w
  unfolding delete_namespace_by_name
  delete-described m w =
      ap (λ r. (attempt (λ _. r) >>= delete_described t m) w) (describe_namespace_by_name_lem m w)

  -- On a server with the laws of NamespaceServer DeleteNamespaceByName never panics. For a name
  -- that is not there it changes nothing. One that is there is gone, and any other name has what it
  -- had, or if it was free the namespace in deletion; or the server refused and nothing changed:
  -- then not found and invalid state are no errors, and others are.
  pub delete_namespace_by_name-Deletes :
      (m : String) (w : W) → Deletes m w (delete_namespace_by_name t m w)
  unfolding observe_fields
  delete_namespace_by_name-Deletes m w = elim (Option-cases (s.view w m)) [
    | inl e ↦ rw (delete-described m w, e) (e, refl)
    | inr (n, e) ↦ elim (Reply-cases (t.delete_namespace m w)) [
      | inl (u, w', q) ↦
          let (given, gone, after) = s.delete_success m u w w' q in
          rw (delete-described m w, e, q, given)
            (
              (n, e, refl),
              inl (
                gone,
                λ j. elim (String-cases j m) [
                  | inl (same, _) ↦ inr same
                  | inr (other, _) ↦ inl (after j other)
                ],
              ),
            )
      | inr (f, w', q) ↦
          let same = s.delete_failure m f w w' q in
          elim (Bool-cases (errors_as namespace_invalid_state f)) [
            | inl b ↦ rw (delete-described m w, e, q, b) ((n, e, refl), inr (same, (f, q, inl b)))
            | inr b ↦ elim (Bool-cases (errors_as namespace_not_found f)) [
              | inl c ↦
                  rw (delete-described m w, e, q, b, c) ((n, e, refl), inr (same, (f, q, inr c)))
              | inr c ↦
                  rw (delete-described m w, e, q, b, c)
                    ((n, e), same, λ h. elim h [ inl x ↦ cc | inr x ↦ cc ])
            ]
          ]
    ]
  ]
