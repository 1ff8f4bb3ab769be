-- ===== src/Controller/Managed.antt =====
-- What the two controllers share: the managed resources as crossplane-runtime hands them over, the
-- observation that they return, and the way in which a method works on its resource and the world.
use provider_temporal.Base.{◌≡◌, ◌↔◌, String, Bool, true, false, if◌then◌else◌}
use provider_temporal.Go.Effects.{Error, Result, ok, err, Action, ◌>>=◌, attempt, or_wrap}
use provider_temporal.Api.Kube.{Kube}
use provider_temporal.Api.Namespace.{TemporalNamespace}
use provider_temporal.Api.SearchAttribute.{SearchAttribute}

-- resource.Managed: one of the provider's two kinds, or anything else.
pub data Managed (k : Kube) : Type 0 where
  temporal_namespace : TemporalNamespace k → Managed k
  search_attribute : SearchAttribute k → Managed k
  other_managed : Managed k

-- managed.ExternalObservation. The connection details are always empty.
pub record ExternalObservation : Type 0 where
  pub resource_exists : Bool
  pub resource_up_to_date : Bool
  pub diff : String
  pub resource_late_initialized : Bool

-- github.com/google/go-cmp at one type.
pub record Cmp (A : Type 0) : Type 0 where
  pub equal : A → A → Bool
  pub diff : A → A → String

-- What Observe returns for a resource that is not there.
abbrev pub missing : ExternalObservation
missing = record {
  resource_exists = false;
  resource_up_to_date = false;
  diff = "";
  resource_late_initialized = false;
}

-- `diff` is made only where the two differ.
abbrev pub compared : {A : Type 0} → Cmp A → A → A → ExternalObservation
compared cmp spec observed = record {
  resource_exists = true;
  resource_up_to_date = cmp.equal spec observed;
  diff = if cmp.equal spec observed then "" else cmp.diff spec observed;
  resource_late_initialized = false;
}

-- A method that changes its resource, a `C`, and the world.
module _ {C W : Type 0} where
  abbrev pub get : Action (C × W) C
  get (c, w) = (ok c, (c, w))

  abbrev pub modify : (C → C) → Action (C × W) (Unit {0})
  modify f (c, w) = (ok tt, (f c, w))

  abbrev pub beside : {A : Type 0} → C → Result A × W → Result A × (C × W)
  beside c (r, w) = (r, (c, w))

  abbrev pub service : {A : Type 0} → Action W A → Action (C × W) A
  service m (c, w) = beside c (m w)

  -- `if err != nil { return errors.Wrap(err, msg) }` after a call of the program's own.
  abbrev pub wrapping : {A : Type 0} → String → Action W A → Action (C × W) A
  wrapping msg m = service (attempt m >>= or_wrap msg)

module _ {k : Kube} {W A : Type 0} where
  abbrev pub as_temporal_namespace :
      Result A × (TemporalNamespace k × W) → Result A × (Managed k × W)
  as_temporal_namespace (r, (cr, w)) = (r, (temporal_namespace cr, w))

  abbrev pub as_search_attribute : Result A × (SearchAttribute k × W) → Result A × (Managed k × W)
  as_search_attribute (r, (cr, w)) = (r, (search_attribute cr, w))

  -- The type assertion that each method begins with.
  abbrev pub on_temporal_namespace :
      Error → Action (TemporalNamespace k × W) A → Action (Managed k × W) A
  on_temporal_namespace e m (temporal_namespace cr, w) = as_temporal_namespace (m (cr, w))
  on_temporal_namespace e m (search_attribute cr, w) = (err e, (search_attribute cr, w))
  on_temporal_namespace e m (other_managed, w) = (err e, (other_managed, w))

  abbrev pub on_search_attribute :
      Error → Action (SearchAttribute k × W) A → Action (Managed k × W) A
  on_search_attribute e m (search_attribute cr, w) = as_search_attribute (m (cr, w))
  on_search_attribute e m (temporal_namespace cr, w) = (err e, (temporal_namespace cr, w))
  on_search_attribute e m (other_managed, w) = (err e, (other_managed, w))

-- cmp.Equal tells just the equal values apart from the others.
abbrev pub IsExact : {A : Type 0} → Cmp A → Type 0
IsExact {A} cmp = (a b : A) → (cmp.equal a b ≡ true) ↔ (a ≡ b)
