-- ===== src/Controller/SearchAttribute/Converge.antt =====
-- The controller against the abstract view of the server: what Observe says after the other methods.
use mathlib.Core.Option
use Prim.Native.String.{◌++◌}
use provider_temporal.Base.{
  ℕ, ◌≡◌, refl, ap, sym, ◌∙◌, ◌↔◌, inl, inr, String, true, some, List, [], ◌∷◌,
}
use provider_temporal.Go.Effects.{
  Reply, reply, failure, Result, ok, err, panic, Reply-cases, wrap, Error, or_wrap,
}
use provider_temporal.Api.Kube.{Kube}
use provider_temporal.Api.SearchAttribute.{SearchAttribute}
use provider_temporal.Clients.Temporal.{Temporal, Enums, index}
use provider_temporal.Clients.SearchAttribute.Compare.{
  SearchAttributeCompare, parameters, observation,
}
use provider_temporal.Clients.SearchAttribute.Compare.Laws.{common}
use provider_temporal.Clients.SearchAttribute.Service.{
  add_request, custom_attribute, create_search_attribute, delete_search_attribute_by_name,
}
use provider_temporal.Clients.SearchAttribute.Server.{find, AttributeServer}
use provider_temporal.Clients.SearchAttribute.Refinement.{observed}
use provider_temporal.Controller.Managed.{ExternalObservation, Cmp, missing, IsExact, beside}
use provider_temporal.Controller.SearchAttribute.External.{
  err_create, err_delete, set_external_name, observe_attribute, create_external, delete_external,
}
use provider_temporal.Controller.SearchAttribute.Observe.{
  outcome, after_observe, observe_attribute_lem,
}

-- The number of a type goes by the name that the spec gave.
abbrev pub IsKnown : Enums → String → Type 0
IsKnown e s = e.indexed_value_type_string (index e.indexed_value_type_value s) ≡ s

module _ {k : Kube} {W : Type 0} (t : Temporal W) (cr : SearchAttribute k) (ns : String) where
  create_added :
      (w w' : W)
      → cr.spec.for_provider.temporal_namespace_name ≡ some ns
      → t.add_search_attributes (add_request t ns cr.spec.for_provider) w ≡ (reply tt, w')
      → create_external t (cr, w)
        ≡ (ok tt, (set_external_name (ns ++ "." ++ cr.spec.for_provider.name) cr, w'))
  unfolding create_external create_search_attribute
  create_added w w' e q = simp (e, q) refl

  create_refused :
      (f : Error) (w w' : W)
      → cr.spec.for_provider.temporal_namespace_name ≡ some ns
      → t.add_search_attributes (add_request t ns cr.spec.for_provider) w ≡ (failure f, w')
      → create_external t (cr, w) ≡ (err (wrap f err_create), (cr, w'))
  unfolding create_external create_search_attribute
  create_refused f w w' e q = simp (e, q) refl

  delete_removed :
      (r : Reply (Unit {0})) (w w' : W)
      → cr.spec.for_provider.temporal_namespace_name ≡ some ns
      → t.remove_search_attributes
          (record { namespace = ns; search_attributes = cr.spec.for_provider.name ∷ [] })
          w
        ≡ (r, w')
      → delete_external t (cr, w) ≡ beside cr (or_wrap err_delete r w')
  unfolding delete_external delete_search_attribute_by_name
  delete_removed (reply _) w w' e q = simp (e, q) refl
  delete_removed (failure f) w w' e q = simp (e, q) refl

module _ {k : Kube} {W : Type 0} (t : Temporal W) (cmp : Cmp SearchAttributeCompare)
    (exact : IsExact cmp) (s : AttributeServer t) where
  -- Of an attribute that was added for a spec, Observe says that it is up to date exactly if the type
  -- is one of the enum.
  outcome-added :
      (cr : SearchAttribute k) (ns : String)
      → let p = cr.spec.for_provider in
        p.temporal_namespace_name ≡ some ns
        → ((outcome t cmp cr (
              some (
                observed t ns p.name
                  (index t.enums.indexed_value_type_value p.type)))).resource_up_to_date
            ≡ true)
          ↔ IsKnown t.enums p.type
  unfolding custom_attribute
  outcome-added cr ns e =
      let p = cr.spec.for_provider in
      let o = observed t ns p.name (index t.enums.indexed_value_type_value p.type) in
      let x =
        exact (common (parameters p)) (common {R = k.Reference} {S = k.Selector} (observation o)) in
      (
        (λ h. sym (ap (λ (c : SearchAttributeCompare). c.type) (x.0 h))),
        λ h. x.1 λ i. record { name = p.name; type = sym h i; temporal_namespace_name = e i },
      )

  -- After Create.
  abbrev pub AddsThenObserves :
      SearchAttribute k → String → W → Result (Unit {0}) × (SearchAttribute k × W) → Type 0
  AddsThenObserves cr ns w (ok _, (cr', w')) =
      (cr' ≡ set_external_name (ns ++ "." ++ cr.spec.for_provider.name) cr)
      × ((o : ExternalObservation) × (cr'' : SearchAttribute k) × (observe_attribute t cmp (cr', w')
            ≡ (ok o, (cr'', w')))
          × (o.resource_exists ≡ true)
          × ((o.resource_up_to_date ≡ true) ↔ IsKnown t.enums cr.spec.for_provider.type))
  AddsThenObserves cr ns w (err e, (cr', w')) = cr' ≡ cr
  AddsThenObserves cr ns w (panic, s') = ⊥

  observes-added :
      (cr : SearchAttribute k) (ns : String) (w w' : W) (m : List (String × ℕ))
      → cr.spec.for_provider.temporal_namespace_name ≡ some ns
      → s.view w' ns ≡ some m
      → find cr.spec.for_provider.name m
        ≡ some (index t.enums.indexed_value_type_value cr.spec.for_provider.type)
      → AddsThenObserves cr ns w
          (ok tt, (set_external_name (ns ++ "." ++ cr.spec.for_provider.name) cr, w'))
  unfolding set_external_name
  observes-added cr ns w w' m e there found =
      let p = cr.spec.for_provider in
      let cr' = set_external_name (ns ++ "." ++ p.name) cr in
      let o = observed t ns p.name (index t.enums.indexed_value_type_value p.type) in
      (
        refl,
        (
          outcome t cmp cr' (some o),
          after_observe t cmp cr' (some o),
          observe_attribute_lem t cmp s cr' ns m w' e there
              ∙ ap
                  (λ v.
                    let x = Option.map (observed t ns p.name) v in
                    (ok (outcome t cmp cr' x), (after_observe t cmp cr' x, w')))
                  found,
          refl,
          outcome-added cr' ns e,
        ),
      )

  -- Create of a spec with a namespace, on a server with the laws of AttributeServer and with an
  -- exact comparison: it never panics; when it succeeds the external name is set and the next
  -- Observe finds the attribute, up to date exactly if the type is one of the enum; when it fails
  -- the resource is as it was.
  pub create_external-AddsThenObserves :
      (cr : SearchAttribute k) (ns : String) (w : W)
      → cr.spec.for_provider.temporal_namespace_name ≡ some ns
      → AddsThenObserves cr ns w (create_external t (cr, w))
  unfolding add_request
  create_external-AddsThenObserves cr ns w e =
      elim (Reply-cases (t.add_search_attributes (add_request t ns cr.spec.for_provider) w)) [
        | inl (_, w', q) ↦
            let (m, there, found) = s.add_success ns cr.spec.for_provider.name _ w w' q in
            rw (create_added t cr ns w w' e q) (observes-added cr ns w w' m e there found)
        | inr (f, w', q) ↦ rw (create_refused t cr ns f w w' e q) refl
      ]

  -- After Delete.
  abbrev pub RemovesThenObserves :
      SearchAttribute k → String → W → Result (Unit {0}) × (SearchAttribute k × W) → Type 0
  RemovesThenObserves cr ns w (ok _, (cr', w')) =
      (cr' ≡ cr) × (observe_attribute t cmp (cr', w') ≡ (ok missing, (cr', w')))
  RemovesThenObserves cr ns w (err e, (cr', w')) = cr' ≡ cr
  RemovesThenObserves cr ns w (panic, s') = ⊥

  -- Delete of a spec with a namespace, on a server with the laws of AttributeServer: it never
  -- panics, leaves the resource as it was, and when it succeeds the next Observe finds no
  -- attribute.
  pub delete_external-RemovesThenObserves :
      (cr : SearchAttribute k) (ns : String) (w : W)
      → cr.spec.for_provider.temporal_namespace_name ≡ some ns
      → RemovesThenObserves cr ns w (delete_external t (cr, w))
  delete_external-RemovesThenObserves cr ns w e =
      let p = cr.spec.for_provider in
      elim (Reply-cases (
        t.remove_search_attributes (record { namespace = ns; search_attributes = p.name ∷ [] })
          w)) [
            | inl (_, w', q) ↦
                let (m, there, gone) = s.remove_success ns p.name w w' q in
                rw (delete_removed t cr ns (reply tt) w w' e q) (
                  refl,
                  observe_attribute_lem t cmp s cr ns m w' e there
                      ∙ ap
                          (λ v.
                            let x = Option.map (observed t ns p.name) v in
                            (ok (outcome t cmp cr x), (after_observe t cmp cr x, w')))
                          gone,
                )
            | inr (f, w', q) ↦ rw (delete_removed t cr ns (failure f) w w' e q) refl
          ]
