-- ===== src/Clients/Namespace/Fields/Laws.antt =====
-- Which values of a field survive the way to the server and back.
use provider_temporal.Base.{
  ◌≤◌, ◌≡◌, refl, ap, ◌≢◌, ◌↔◌, String, Option, none, some, [], ◌∷◌, if◌then◌else◌, arith,
  String-cases, eq_iff, inl, inr,
}
use provider_temporal.Base.Int.{ℤ, pos, negsuc, pos_part, neg_part, ◌*ℤ◌, ◌/ℤ◌}
use provider_temporal.Go.Word.{wrap64}
use provider_temporal.Go.Json.{StringMap}
use provider_temporal.Clients.Namespace.Fields.{
  create_retention, retention_days, resolve_ptr_or_default, create_ptr_or_nil_if_default,
  data_or_nil, is_non_empty,
}
use provider_temporal.Clients.Namespace.Compare.Laws.{keep_map}

-- 106751 days are the most that an int64 holds in nanoseconds.
abbrev pub IsRetainable : ℤ → Type 0
IsRetainable d = (pos_part d ≤ 106751) × (neg_part d ≤ 106751)

-- A number of days comes back from the duration that is sent exactly when it lies between -106751
-- and 106751.
pub retention_days-create_retention :
    (d : ℤ) → (retention_days (create_retention d) ≡ d) ↔ IsRetainable d
unfolding retention_days create_retention wrap64 ◌*ℤ◌ ◌/ℤ◌
retention_days-create_retention (pos n) = (λ h. ground arith, λ h. ground arith)
retention_days-create_retention (negsuc n) = (λ h. ground arith, λ h. ground arith)

-- A text comes back unless it is the empty text, which is taken for no text.
pub create_ptr-resolve_ptr :
    (o : Option String)
    → (create_ptr_or_nil_if_default (resolve_ptr_or_default o) ≡ o) ↔ (o ≢ some "")
unfolding create_ptr_or_nil_if_default resolve_ptr_or_default
create_ptr-resolve_ptr none = (λ _ e. cc, λ _. refl)
create_ptr-resolve_ptr (some s) = elim (String-cases s "") [
  | inl (e, b) ↦ (λ h. ground (arith, eq_iff s ""), λ h. absurd (h (ap some e)))
  | inr (ne, b) ↦ (λ h e. ne (cc), λ h. rw b refl)
]

abbrev pub observed_map : StringMap → Option StringMap
observed_map m = if is_non_empty m then some m else none

-- A map comes back unless it is an empty map, which is taken for no map.
pub observed_map-data_or_nil :
    (d : Option StringMap)
    → (keep_map (observed_map (data_or_nil d)) ≡ keep_map d) ↔ (d ≢ some (some []))
observed_map-data_or_nil none = (λ _ e. cc, λ _. refl)
observed_map-data_or_nil (some none) = (λ _ e. cc, λ _. refl)
observed_map-data_or_nil (some (some [])) = (λ h. cc, λ h. absurd (h refl))
observed_map-data_or_nil (some (some (e ∷ m))) = (λ _ q. cc, λ _. refl)
