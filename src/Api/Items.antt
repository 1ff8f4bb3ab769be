-- ===== src/Api/Items.antt =====
-- GetItems of apis/core/v1alpha1/zz_generated.managedlist.go and apis/v1alpha1/zz_generated.pculist.go: pointers to
-- the elements of a list's array. The slice that is returned is given as its elements.
pub mod Laws
use provider_temporal.Base.{
  ℕ, zero, suc, ◌+◌, ◌<◌, ◌≡◌, refl, ◌∙◌, sym, ap, Option, none, some, List, [], ◌∷◌, ◌++◌, map,
  length, arith,
}
use provider_temporal.Go.Memory.{Memory, Storable, Command, ◌>>=◌, ◌>>◌, pure, load, store, set}
use provider_temporal.Api.Kube.{Kube}
use provider_temporal.Api.Copies.Foreign.{Foreign}
use provider_temporal.Api.Copies.Namespace.{NamespaceVariables}
use provider_temporal.Api.Copies.SearchAttribute.{AttributeVariables}
use provider_temporal.Api.Copies.Provider.{ProviderVariables}

-- `&array[index]`
pub record ElementPointer : Type 0 where
  pub array : ℕ
  pub index : ℕ

abbrev pub get_elem? : {A : Type 0} → List A → ℕ → Option A
get_elem? [] i = none
get_elem? (x ∷ xs) zero = some x
get_elem? (x ∷ xs) (suc i) = get_elem? xs i

-- `for i := range l.Items { items[i] = &l.Items[i] }`, for `n` indices from `i` on.
unfoldable pub point_each : ℕ → ℕ → ℕ → List (Option ElementPointer) → List (Option ElementPointer)
unfolding set
point_each p i zero items = items
point_each p i (suc n) items =
    point_each p (suc i) n (set items i (some (record { array = p; index = i })))

abbrev pub replicate : {A : Type 0} → ℕ → A → List A
replicate zero a = []
replicate (suc n) a = a ∷ replicate n a

module _ {C A : Type 0} (arrays : Storable C (List A)) where
  -- The body of GetItems for a list whose slice is that.
  unfoldable pub items_of : Option ℕ → Command C (List (Option ElementPointer))
  unfolding point_each
  items_of none = pure []
  items_of (some p) = do
    array ← load arrays p
    pure (point_each p 0 (length array) (replicate (length array) none))

  -- `*p` for a pointer to an element.
  abbrev pub load_element : ElementPointer → Command C (Option A)
  load_element e = do array ← load arrays e.array; pure (get_elem? array e.index)

  -- `*p = x`
  abbrev pub store_element : ElementPointer → A → Command C (Unit {0})
  store_element e x = do array ← load arrays e.array; store arrays e.array (set array e.index x)

module _ {k : Kube} {C : Type 0} (f : Foreign k C) where
  unfoldable pub get_namespace_items :
      NamespaceVariables f → ℕ → Command C (List (Option ElementPointer))
  unfolding items_of
  get_namespace_items s l = do list ← load s.lists l; items_of s.arrays list.items

  unfoldable pub get_attribute_items :
      AttributeVariables f → ℕ → Command C (List (Option ElementPointer))
  unfolding items_of
  get_attribute_items s l = do
    list ← load s.attribute_lists l
    items_of s.attribute_arrays list.items

  unfoldable pub get_usage_items :
      ProviderVariables f → ℕ → Command C (List (Option ElementPointer))
  unfolding items_of
  get_usage_items s p = do list ← load s.usage_lists p; items_of s.usage_arrays list.items
