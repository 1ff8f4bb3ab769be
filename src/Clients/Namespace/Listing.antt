-- ===== src/Clients/Namespace/Listing.antt =====
-- ListAllNamespaces: which namespaces of a response it gives.
use provider_temporal.Base.{
  ◌≡◌, refl, sym, ap, ◌∙◌, ◌≢◌, ◌↔◌, ◌⊎◌, inl, inr, String-cases, true, Bool-cases, List, [], ◌∷◌,
  map, if◌then◌else◌, some, arith,
}
use provider_temporal.Go.Effects.{reply, ok}
use provider_temporal.Api.Namespace.{TemporalNamespaceObservation}
use provider_temporal.Clients.Temporal.{Temporal}
use provider_temporal.Clients.Namespace.Service.{
  observe_fields, map_describe_namespace_response, is_listed, list_responses, list_all_namespaces,
}
use provider_temporal.Clients.Namespace.Server.{Namespace, response}
use provider_temporal.Clients.Namespace.Refinement.{observed}

-- A place of a list.
abbrev pub IsIn : {A : Type 0} → A → List A → Type 0
IsIn a [] = ⊥
IsIn a (b ∷ bs) = (a ≡ b) ⊎ IsIn a bs

-- Neither the system's own nor one that is deleted already.
abbrev pub IsUserOwned : TemporalNamespaceObservation → Type 0
IsUserOwned o = (o.name ≢ "temporal-system") × (o.state ≢ "Deleted")

module _ {W : Type 0} (t : Temporal W) where
  is_listed-IsUserOwned :
      (o : TemporalNamespaceObservation) → (is_listed t o ≡ true) ↔ IsUserOwned o
  unfolding is_listed
  is_listed-IsUserOwned o = elim (String-cases o.name "temporal-system") [
    | inl (e, b) ↦ (λ h. absurd (ground (arith, rw b at h)), λ h. absurd (h.0 e))
    | inr (ne, b) ↦ elim (String-cases o.state "Deleted") [
      | inl (e, d) ↦ (λ h. absurd (ground (arith, rw (b, d) at h)), λ h. absurd (h.1 e))
      | inr (nd, d) ↦ (λ h. (ne, nd), λ h. rw (b, d) refl)
    ]
  ]

  abbrev kept : List Namespace → List TemporalNamespaceObservation
  kept [] = []
  kept (n ∷ ns) = if is_listed t (observed t n) then observed t n ∷ kept ns else kept ns

  list_responses-kept :
      (ns : List Namespace) (w : W) → list_responses t (map response ns) w ≡ (ok (kept ns), w)
  unfolding list_responses map_describe_namespace_response observe_fields
  list_responses-kept [] w = refl
  list_responses-kept (n ∷ ns) w = rw (list_responses-kept ns w) refl

  -- What a list of namespaces has that a user owns.
  abbrev pub IsListedOf : List Namespace → TemporalNamespaceObservation → Type 0
  IsListedOf ns o = (n : Namespace) × IsIn n ns × (observed t n ≡ o) × IsUserOwned o

  kept-IsListedOf :
      (ns : List Namespace) (o : TemporalNamespaceObservation) → IsIn o (kept ns) → IsListedOf ns o
  kept-IsListedOf [] o i = absurd i
  kept-IsListedOf (n ∷ ns) o i = elim (Bool-cases (is_listed t (observed t n))) [
    | inl b ↦ first (λ j. kept-IsListedOf ns o j) b (rw b at i)
    | inr b ↦ later (kept-IsListedOf ns o (rw b at i))
  ]
    where
      later : IsListedOf ns o → IsListedOf (n ∷ ns) o
      later (m, i, q, u) = (m, inr i, q, u)

      first :
          (IsIn o (kept ns) → IsListedOf ns o)
          → is_listed t (observed t n) ≡ true
          → IsIn o (observed t n ∷ kept ns)
          → IsListedOf (n ∷ ns) o
      first ih b (inl e) =
          (n, inl refl, sym e, (is_listed-IsUserOwned o).0 (ap (is_listed t) e ∙ b))
      first ih b (inr i) = later (ih i)

  IsListedOf-kept :
      (ns : List Namespace) (o : TemporalNamespaceObservation) → IsListedOf ns o → IsIn o (kept ns)
  IsListedOf-kept [] o (n, i, q, u) = absurd i
  IsListedOf-kept (m ∷ ns) o (n, inl e, q, u) =
      let same : observed t m ≡ o = ap (observed t) (sym e) ∙ q in
      let b : is_listed t (observed t m) ≡ true =
        ap (is_listed t) same ∙ (is_listed-IsUserOwned o).1 u in
      rw b (inl (sym same))
  IsListedOf-kept (m ∷ ns) o (n, inr i, q, u) = elim (Bool-cases (is_listed t (observed t m))) [
    | inl b ↦ rw b (inr (IsListedOf-kept ns o (n, i, q, u)))
    | inr b ↦ rw b (IsListedOf-kept ns o (n, i, q, u))
  ]

  -- When the server answers ListNamespaces with a list of namespaces, ListAllNamespaces succeeds
  -- with just the observations of those of them that are neither named temporal-system nor in the
  -- state Deleted; `100` is the page size that the code asks for.
  pub list_all_namespaces-Lists :
      (ns : List Namespace) (w w' : W)
      → t.list_namespaces 100 w ≡ (reply (some (map response ns)), w')
      → (os : List TemporalNamespaceObservation) × (list_all_namespaces t w ≡ (ok os, w'))
        × ((o : TemporalNamespaceObservation) → IsIn o os ↔ IsListedOf ns o)
  unfolding list_all_namespaces
  list_all_namespaces-Lists ns w w' q = (
    kept ns,
    rw (q, list_responses-kept ns w') refl,
    λ o. (kept-IsListedOf ns o, IsListedOf-kept ns o),
  )
