-- ===== src/Tests/Resolution.antt =====
-- The theorem on references, for an attribute that names its namespace by one.
use provider_temporal.Base.{
  ◌≡◌, refl, ◌≢◌, String, String-cases, Option, none, some, if◌then◌else◌, ◌==◌, inl, inr,
}
use provider_temporal.Go.Effects.{reply}
use provider_temporal.Api.SearchAttribute.{SearchAttribute}
use provider_temporal.Controller.SearchAttribute.Resolve.{
  Resolver, Resolves, resolve_references, resolve_references-Resolves,
}
use provider_temporal.Tests.Server.{World, temporal}
use provider_temporal.Tests.Equality.{cmp_attribute}
use provider_temporal.Tests.Connections.{kube}
use provider_temporal.Tests.Attributes.{resource, empty}

abbrev pointer : String → Option String
pointer s = if s == "" then none else some s

pub pointer_given : (s : String) → s ≢ "" → pointer s ≡ some s
pointer_given s ne = elim (String-cases s "") [
  | inl (e, _) ↦ absurd (ne e)
  | inr (_, b) ↦ rw b refl
]

abbrev value : Option String → String
value none = ""
value (some s) = s

abbrev resolver : Resolver kube World
resolver = record {
  resolve = λ req w.
      (reply (record { resolved_value = "orders"; resolved_reference = req.reference }), w);
  from_ptr_value = value;
  to_ptr_value = pointer;
  to_ptr_value_empty = refl;
  to_ptr_value_given = pointer_given;
}

abbrev unresolved : SearchAttribute kube
unresolved = record resource {
  spec = record (resource.spec) {
    for_provider = record (resource.spec.for_provider) {
      temporal_namespace_name = none;
      temporal_namespace_name_ref = some tt;
    };
  };
}

resolve_references-Resolves_example :
    Resolves resolver temporal cmp_attribute unresolved empty
      (resolve_references resolver (unresolved, empty))
resolve_references-Resolves_example =
    resolve_references-Resolves resolver temporal cmp_attribute unresolved empty
