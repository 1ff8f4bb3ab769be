-- ===== src/Clients/SearchAttribute/Refinement.antt =====
-- The description of a search attribute against the abstract view of the server.
use mathlib.Core.Option
use provider_temporal.Base.{
  ℕ, ◌≡◌, refl, String, String-cases, some, List, [], ◌∷◌, map, inl, inr, ap,
}
use provider_temporal.Go.Effects.{ok}
use provider_temporal.Api.SearchAttribute.{SearchAttributeObservation}
use provider_temporal.Clients.Temporal.{Temporal}
use provider_temporal.Clients.SearchAttribute.Service.{
  custom_attribute, find_by_name, list_search_attributes_by_namespace,
  describe_search_attribute_by_name,
}
use provider_temporal.Clients.SearchAttribute.Server.{find, AttributeServer}

module _ {W : Type 0} (t : Temporal W) where
  -- An attribute of a namespace as the program reports it.
  abbrev pub observed : String → String → ℕ → SearchAttributeObservation
  observed ns name v = custom_attribute t ns (name, v)

  find_by_name-map :
      (ns name : String) (m : List (String × ℕ))
      → find_by_name t name (map (custom_attribute t ns) m)
        ≡ Option.map (observed ns name) (find name m)
  unfolding find_by_name custom_attribute find
  find_by_name-map ns name [] = refl
  find_by_name-map ns name ((j, v) ∷ m) = elim (String-cases j name) [
    | inl (same, q) ↦ rw q (rw same refl)
    | inr (_, q) ↦ rw q (find_by_name-map ns name m)
  ]

  -- In a namespace that there is, on a server with the laws of AttributeServer,
  -- DescribeSearchAttributeByName gives the attribute of that name, or nothing where there is none,
  -- in whatever order the server lists them, and changes nothing.
  pub describe_search_attribute_by_name_lem :
      (s : AttributeServer t) (ns name : String) (m : List (String × ℕ)) (w : W)
      → s.view w ns ≡ some m
      → describe_search_attribute_by_name t ns name w
        ≡ (ok (Option.map (observed ns name) (find name m)), w)
  unfolding describe_search_attribute_by_name list_search_attributes_by_namespace
  describe_search_attribute_by_name_lem s ns name m w e =
      rw (s.list_present w ns m e) (ap (λ o. (ok o, w)) (find_by_name-map ns name m))
