-- ===== src/Controller/SearchAttribute/Resolve.antt =====
-- apis/core/v1alpha1/zz_generated.resolvers.go: ResolveReferences, which crossplane-runtime calls before
-- Observe, and what Observe then finds. Its resolver, and the two functions that carry a pointer to a
-- value and back, are crossplane-runtime's.
use provider_temporal.Base.{◌≡◌, refl, ◌≢◌, ◌⊎◌, inl, inr, String, String-cases, Option, none, some}
use provider_temporal.Go.Effects.{
  Reply, reply, Result, ok, err, panic, message, Action, ◌>>=◌, call, or_wrap, Reply-cases,
}
use provider_temporal.Api.Kube.{Kube}
use provider_temporal.Api.SearchAttribute.{SearchAttribute}
use provider_temporal.Clients.Temporal.{Temporal}
use provider_temporal.Clients.SearchAttribute.Compare.{SearchAttributeCompare}
use provider_temporal.Controller.Managed.{Cmp, get, modify, service}
use provider_temporal.Controller.SearchAttribute.External.{observe_attribute}

-- reference.ResolutionRequest; where to look is always the kind TemporalNamespace, and what to extract
-- its external name.
pub record ResolutionRequest (k : Kube) : Type 0 where
  pub current_value : String
  pub reference : Option k.Reference
  pub selector : Option k.Selector

pub record ResolutionResponse (k : Kube) : Type 0 where
  pub resolved_value : String
  pub resolved_reference : Option k.Reference

-- ToPtrValue gives nil for the empty text, and a pointer to any other.
pub record Resolver (k : Kube) (W : Type 0) : Type 0 where
  pub resolve : ResolutionRequest k → W → Reply (ResolutionResponse k) × W
  pub from_ptr_value : Option String → String
  pub to_ptr_value : String → Option String
  pub to_ptr_value_empty : to_ptr_value "" ≡ none
  pub to_ptr_value_given : (s : String) → s ≢ "" → to_ptr_value s ≡ some s

module _ {k : Kube} {W : Type 0} (r : Resolver k W) where
  abbrev pub request : SearchAttribute k → ResolutionRequest k
  request mg =
      let p = mg.spec.for_provider in
      record {
        current_value = r.from_ptr_value p.temporal_namespace_name;
        reference = p.temporal_namespace_name_ref;
        selector = p.temporal_namespace_name_selector;
      }

  unfoldable pub set_resolved : ResolutionResponse k → SearchAttribute k → SearchAttribute k
  set_resolved rsp mg = record mg {
    spec = record (mg.spec) {
      for_provider = record (mg.spec.for_provider) {
        temporal_namespace_name = r.to_ptr_value rsp.resolved_value;
        temporal_namespace_name_ref = rsp.resolved_reference;
      };
    };
  }

  unfoldable pub resolve_references : Action (SearchAttribute k × W) (Unit {0})
  resolve_references = do
    mg ← get
    got ← service (call (r.resolve (request mg)))
    rsp ← or_wrap "mg.Spec.ForProvider.TemporalNamespaceName" got
    modify (set_resolved rsp)

module _ {k : Kube} {W : Type 0} (r : Resolver k W) (t : Temporal W)
    (cmp : Cmp SearchAttributeCompare) where
  -- Of the resource the name and the reference are the response's, and all else is kept.
  abbrev pub Sets : SearchAttribute k → ResolutionResponse k → SearchAttribute k → Type 0
  Sets mg rsp mg' =
      let p = mg.spec.for_provider in
      let p' = mg'.spec.for_provider in
      (p'.temporal_namespace_name ≡ r.to_ptr_value rsp.resolved_value)
      × (p'.temporal_namespace_name_ref ≡ rsp.resolved_reference)
      × (p'.temporal_namespace_name_selector ≡ p.temporal_namespace_name_selector)
      × (p'.name ≡ p.name)
      × (p'.type ≡ p.type)
      × (mg'.spec.resource_spec ≡ mg.spec.resource_spec)
      × (mg'.spec.provider_reference ≡ mg.spec.provider_reference)
      × (mg'.type_meta ≡ mg.type_meta)
      × (mg'.object_meta ≡ mg.object_meta)
      × (mg'.status ≡ mg.status)

  set_resolved-Sets :
      (rsp : ResolutionResponse k) (mg : SearchAttribute k) → Sets mg rsp (set_resolved r rsp mg)
  unfolding set_resolved
  set_resolved-Sets rsp mg = (refl, refl, refl, refl, refl, refl, refl, refl, refl, refl)

  abbrev pub Resolves : SearchAttribute k → W → Result (Unit {0}) × (SearchAttribute k × W) → Type 0
  Resolves mg w (ok _, (mg', w')) =
      (rsp : ResolutionResponse k) × (r.resolve (request r mg) w ≡ (reply rsp, w'))
      × Sets mg rsp mg'
      × (((rsp.resolved_value ≡ "")
            × (observe_attribute t cmp (mg', w')
                ≡ (err (message "TemporalNamespaceName not set"), (mg', w'))))
          ⊎ (mg'.spec.for_provider.temporal_namespace_name ≡ some rsp.resolved_value))
  Resolves mg w (err e, (mg', w')) = mg' ≡ mg
  Resolves mg w (panic, s) = ⊥

  -- With a resolver whose ToPtrValue gives nil for the empty text alone, ResolveReferences never
  -- panics; when it fails the resource is as it was; when it succeeds the name and the reference of
  -- the namespace are those of the resolver's response, all else of the resource is as it was, and
  -- the spec has that namespace, or the response was empty and Observe refuses the resource as one
  -- without a namespace.
  pub resolve_references-Resolves :
      (mg : SearchAttribute k) (w : W) → Resolves mg w (resolve_references r (mg, w))
  unfolding resolve_references set_resolved observe_attribute
  resolve_references-Resolves mg w = elim (Reply-cases (r.resolve (request r mg) w)) [
    | inl (rsp, w', q) ↦ elim (String-cases rsp.resolved_value "") [
      | inl (e, _) ↦
          rw q (rsp, q, set_resolved-Sets rsp mg, inl (e, rw (e, r.to_ptr_value_empty) refl))
      | inr (ne, _) ↦
          rw q (rsp, q, set_resolved-Sets rsp mg, inr (r.to_ptr_value_given rsp.resolved_value ne))
    ]
    | inr (f, w', q) ↦ rw q refl
  ]
