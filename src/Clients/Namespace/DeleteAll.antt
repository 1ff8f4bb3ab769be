-- ===== src/Clients/Namespace/DeleteAll.antt =====
-- DeleteAllNamespaces against the abstract view of the server.
use provider_temporal.Base.{◌≡◌, ◌⊎◌, String, Option, none, some, List, [], ◌∷◌, ◌++◌}
use provider_temporal.Go.Effects.{Error, failure, Result, ok, err, panic, Action, pure}
use provider_temporal.Api.Namespace.{TemporalNamespaceObservation}
use provider_temporal.Clients.Temporal.{Temporal}
use provider_temporal.Clients.Namespace.Service.{delete_each}
use provider_temporal.Clients.Namespace.Server.{Namespace, NamespaceServer, Left}
use provider_temporal.Clients.Namespace.Refinement.{IsTolerated}
use provider_temporal.Clients.Namespace.Listing.{IsIn, IsListedOf}

module _ {W : Type 0} (t : Temporal W) (s : NamespaceServer t) where
  -- A name without a namespace, or with one in deletion.
  abbrev pub IsGone : Option Namespace → Type 0
  IsGone v =
      (v ≡ none)
      ⊎ ((n : Namespace) × (v ≡ some n) × (t.enums.namespace_state_string n.info.state ≡ "Deleted"))

  -- The server refused to delete the name, as one that is not found or in an invalid state.
  abbrev pub Refused : String → Type 0
  Refused m =
      (w : W) × (w' : W) × (e : Error) × (t.delete_namespace m w ≡ (failure e, w'))
      × IsTolerated t s e

  abbrev Named : List TemporalNamespaceObservation → String → Type 0
  Named os m = (o : TemporalNamespaceObservation) × IsIn o os × (o.name ≡ m)

  abbrev Keeps : W → W → Type 0
  Keeps w w' = (x : String) → IsGone (s.view w x) → IsGone (s.view w' x)

  -- One deletion.
  abbrev Step : String → W → Result (Option String × Option Error) × W → Type 0
  Step m w (ok (k, none), w') =
      ((j : String) → Left t (s.view w j) (s.view w' j) ⊎ (j ≡ m))
      × (IsGone (s.view w' m) ⊎ Refused m)
      × Keeps w w'
  Step m w (ok (k, some e), w') =
      ((j : String) → Left t (s.view w j) (s.view w' j)) × ¬ IsTolerated t s e
  Step m w (err e, w') = ⊥
  Step m w (panic, w') = ⊥

  -- The deletions of a list.
  abbrev Each :
      List TemporalNamespaceObservation
      → W
      → Result (List (Option String) × Option Error) × W
      → Type 0
  Each os w (ok (done, none), w') =
      ((j : String) → Left t (s.view w j) (s.view w' j) ⊎ Named os j)
      × ((o : TemporalNamespaceObservation)
          → IsIn o os
          → IsGone (s.view w' o.name) ⊎ Refused o.name)
      × Keeps w w'
  Each os w (ok (done, some e), w') =
      ((j : String) → Left t (s.view w j) (s.view w' j) ⊎ Named os j) × ¬ IsTolerated t s e
  Each os w (err e, w') = ⊥
  Each os w (panic, w') = ⊥

  -- The loop of DeleteAllNamespaces after one deletion.
  abbrev after_delete :
      List TemporalNamespaceObservation
      → List (Option String)
      → Option String × Option Error
      → Action W (List (Option String) × Option Error)
  after_delete rest done d = elim d.1 [
    | some e ↦ pure (done, some e)
    | none ↦ delete_each t rest (done ++ d.0 ∷ [])
  ]

  -- The names that the user's namespaces among `ns` have.
  abbrev pub IsNamed : List Namespace → String → Type 0
  IsNamed ns m = (o : TemporalNamespaceObservation) × IsListedOf t ns o × (o.name ≡ m)

  -- How DeleteAllNamespaces ended, where the server had listed `ns` and was in the state `w`.
  abbrev pub Clears : List Namespace → W → Result (List (Option String) × Option Error) × W → Type 0
  Clears ns w (ok (done, none), w') =
      ((j : String) → Left t (s.view w j) (s.view w' j) ⊎ IsNamed ns j)
      × ((o : TemporalNamespaceObservation)
          → IsListedOf t ns o
          → IsGone (s.view w' o.name) ⊎ Refused o.name)
  Clears ns w (ok (done, some e), w') =
      ((j : String) → Left t (s.view w j) (s.view w' j) ⊎ IsNamed ns j) × ¬ IsTolerated t s e
  Clears ns w (err e, w') = ⊥
  Clears ns w (panic, w') = ⊥
