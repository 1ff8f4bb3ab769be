-- ===== src/Controller/SearchAttribute/Observe.antt =====
-- Observe against the abstract view of the server.
use mathlib.Core.Option
use provider_temporal.Base.{
  ℕ, ◌≡◌, refl, String, Option, none, some, List, true, false, if◌then◌else◌,
}
use provider_temporal.Go.Effects.{Result, ok, err, panic}
use provider_temporal.Api.Kube.{Kube, available}
use provider_temporal.Api.SearchAttribute.{SearchAttribute, SearchAttributeObservation}
use provider_temporal.Clients.Temporal.{Temporal}
use provider_temporal.Clients.SearchAttribute.Compare.{
  SearchAttributeCompare, parameters, observation,
}
use provider_temporal.Clients.SearchAttribute.Compare.Laws.{
  common, map_to_search_attribute_compare-common,
}
use provider_temporal.Clients.SearchAttribute.Service.{custom_attribute}
use provider_temporal.Clients.SearchAttribute.Server.{find, AttributeServer}
use provider_temporal.Clients.SearchAttribute.Refinement.{
  observed, describe_search_attribute_by_name_lem,
}
use provider_temporal.Controller.Managed.{ExternalObservation, Cmp, missing, compared}
use provider_temporal.Controller.SearchAttribute.External.{
  report_found, references, observe_found, observe_attribute,
}

module _ {k : Kube} {W : Type 0} (t : Temporal W) (cmp : Cmp SearchAttributeCompare) where
  -- Nothing observed, or the observation with its comparison.
  abbrev pub outcome : SearchAttribute k → Option SearchAttributeObservation → ExternalObservation
  outcome cr none = missing
  outcome cr (some o) =
      compared cmp (common (parameters cr.spec.for_provider))
        (common {R = k.Reference} {S = k.Selector} (observation o))

  abbrev pub after_observe :
      SearchAttribute k → Option SearchAttributeObservation → SearchAttribute k
  after_observe cr none = cr
  after_observe cr (some o) = report_found o cr

  observe_found-outcome :
      (v : Option SearchAttributeObservation) (cr : SearchAttribute k) (w : W)
      → observe_found t cmp v (cr, w) ≡ (ok (outcome cr v), (after_observe cr v, w))
  unfolding report_found
  observe_found-outcome none cr w = refl
  observe_found-outcome (some o) cr w =
      rw
        (
          map_to_search_attribute_compare-common (references k) (observation o) w,
          map_to_search_attribute_compare-common (references k) (parameters cr.spec.for_provider) w,
        )
        refl

  pub observe_attribute_lem :
      (s : AttributeServer t) (cr : SearchAttribute k) (ns : String) (m : List (String × ℕ)) (w : W)
      → cr.spec.for_provider.temporal_namespace_name ≡ some ns
      → s.view w ns ≡ some m
      → let v =
          Option.map (observed t ns cr.spec.for_provider.name) (find cr.spec.for_provider.name m) in
        observe_attribute t cmp (cr, w) ≡ (ok (outcome cr v), (after_observe cr v, w))
  unfolding observe_attribute
  observe_attribute_lem s cr ns m w p e =
      let v =
        Option.map (observed t ns cr.spec.for_provider.name) (find cr.spec.for_provider.name m) in
      simp p (
        rw (describe_search_attribute_by_name_lem t s ns cr.spec.for_provider.name m w e)
          (observe_found-outcome v cr w))

  -- What Observe says of the attribute that the server has, or has not, and what it makes of its resource. The
  -- attribute is given by the number of its type.
  abbrev pub Found :
      SearchAttribute k → String → Option ℕ → ExternalObservation → SearchAttribute k → Type 0
  Found cr ns none o cr' =
      (o.resource_exists ≡ false)
      × (o.resource_up_to_date ≡ false)
      × (o.diff ≡ "")
      × (o.resource_late_initialized ≡ false)
      × (cr' ≡ cr)
  Found cr ns (some type) o cr' =
      let seen : SearchAttributeObservation = record {
        name = cr.spec.for_provider.name;
        type = t.enums.indexed_value_type_string type;
        temporal_namespace_name = ns;
      } in
      let asked = common (parameters cr.spec.for_provider) in
      let there = common {R = k.Reference} {S = k.Selector} (observation seen) in
      (o.resource_exists ≡ true)
      × (o.resource_up_to_date ≡ cmp.equal asked there)
      × (o.diff ≡ (if cmp.equal asked there then "" else cmp.diff asked there))
      × (o.resource_late_initialized ≡ false)
      × (cr'.status.at_provider ≡ seen)
      × (cr'.status.resource_status
          ≡ k.set_conditions cr.status.resource_status (available "SearchAttribute exists"))
      × (cr'.spec ≡ cr.spec)
      × (cr'.object_meta ≡ cr.object_meta)
      × (cr'.type_meta ≡ cr.type_meta)

  abbrev pub Observes :
      SearchAttribute k
      → String
      → List (String × ℕ)
      → W
      → Result ExternalObservation × (SearchAttribute k × W)
      → Type 0
  Observes cr ns m w (ok o, (cr', w')) =
      (w' ≡ w) × Found cr ns (find cr.spec.for_provider.name m) o cr'
  Observes cr ns m w (err e, _) = ⊥
  Observes cr ns m w (panic, _) = ⊥

  outcome-Found :
      (cr : SearchAttribute k) (ns : String) (v : Option ℕ)
      → let o = Option.map (observed t ns cr.spec.for_provider.name) v in
        Found cr ns v (outcome cr o) (after_observe cr o)
  unfolding report_found custom_attribute
  outcome-Found cr ns none = (refl, refl, refl, refl, refl)
  outcome-Found cr ns (some type) = (refl, refl, refl, refl, refl, refl, refl, refl, refl)

  -- For a spec with a namespace that there is, on a server with the laws of AttributeServer,
  -- Observe succeeds and changes nothing on the server. Where the namespace has no attribute of the
  -- spec's name it says that there is none, and leaves the resource as it is. Else it says that
  -- there is one, up to date as the comparison of the common fields says, with a difference just if
  -- it is not; the observed attribute is in the status, with the condition available, and spec and
  -- metadata are kept.
  pub observe_attribute-Observes :
      (s : AttributeServer t) (cr : SearchAttribute k) (ns : String) (m : List (String × ℕ)) (w : W)
      → cr.spec.for_provider.temporal_namespace_name ≡ some ns
      → s.view w ns ≡ some m
      → Observes cr ns m w (observe_attribute t cmp (cr, w))
  observe_attribute-Observes s cr ns m w p e =
      rw (observe_attribute_lem s cr ns m w p e)
        (refl, outcome-Found cr ns (find cr.spec.for_provider.name m))
