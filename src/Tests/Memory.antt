-- ===== src/Tests/Memory.antt =====
-- A memory whose variables hold the texts, addresses, numbers and conditions of a struct, an array of
-- such, or the entries of a map.
use provider_temporal.Base.{ℕ, zero, suc, ◌≡◌, refl, String, Option, none, List, [], ◌∷◌, map}
use provider_temporal.Base.Int.{ℤ, pos}
use provider_temporal.Api.Kube.{Condition}
use provider_temporal.Go.Memory.{Storable, Entries}
use provider_temporal.Go.Memory.Copyable.{by_value}
use provider_temporal.Api.Copies.Foreign.{Foreign}
use provider_temporal.Tests.Connections.{kube}

pub record Fields : Type 0 where
  pub texts : List String
  pub addresses : List (Option ℕ)
  pub numbers : List ℤ
  pub conditions : List Condition

pub data Cell : Type 0 where
  fields : Fields → Cell
  array : List Fields → Cell
  entries_of : Entries → Cell

abbrev pub at : {A : Type 0} → A → List A → ℕ → A
at d [] i = d
at d (x ∷ xs) zero = x
at d (x ∷ xs) (suc i) = at d xs i

abbrev pub text_of : Fields → ℕ → String
text_of fs = at "" fs.texts

abbrev pub address_of : Fields → ℕ → Option ℕ
address_of fs = at none fs.addresses

abbrev pub number_of : Fields → ℕ → ℤ
number_of fs = at (pos 0) fs.numbers

abbrev pub no_fields : Fields
no_fields = record { texts = []; addresses = []; numbers = []; conditions = [] }

module _ {A : Type 0} (to : A → Fields) (of : Fields → A) (of_to : (a : A) → of (to a) ≡ a) where
  abbrev pub get_struct : Cell → A
  get_struct (fields fs) = of fs
  get_struct _ = of no_fields

  abbrev pub structs : Storable Cell A
  structs = record {
    put = λ a. fields (to a);
    get = get_struct;
    zero = of no_fields;
    get-put = of_to;
  }

  abbrev pub get_array : Cell → List A
  get_array (array fss) = map of fss
  get_array _ = []

  pub map-of_to : (xs : List A) → map of (map to xs) ≡ xs
  map-of_to [] = refl
  map-of_to (x ∷ xs) = λ i. of_to x i ∷ map-of_to xs i

  abbrev pub arrays : Storable Cell (List A)
  arrays = record { put = λ xs. array (map to xs); get = get_array; zero = []; get-put = map-of_to }

abbrev pub get_entries : Cell → Entries
get_entries (entries_of m) = m
get_entries _ = []

abbrev pub foreign : Foreign kube Cell
foreign = record {
  ObjectMeta = String;
  ListMeta = Unit;
  ResourceSpec = Unit;
  ResourceStatus = List Condition;
  Reference = Unit;
  Selector = Unit;
  CommonCredentialSelectors = Unit;
  ProviderConfigStatus = Unit;
  ProviderConfigUsage = Unit;
  SecretStoreConfig = Unit;
  ConditionedStatus = Unit;
  object_meta = by_value;
  list_meta = by_value;
  resource_spec = by_value;
  resource_status = by_value;
  reference = by_value;
  selector = by_value;
  common_credential_selectors = by_value;
  provider_config_status = by_value;
  provider_config_usage = by_value;
  secret_store_config = by_value;
  conditioned_status = by_value;
  texts = structs (λ s. record no_fields { texts = s ∷ [] }) (λ fs. text_of fs 0) (λ a. refl);
  maps = structs (λ o. record no_fields { addresses = o ∷ [] }) (λ fs. address_of fs 0) (λ a. refl);
  entries = record { put = entries_of; get = get_entries; zero = []; get-put = λ a. refl };
  references = structs (λ _. no_fields) (λ _. tt) (λ a. refl);
  selectors = structs (λ _. no_fields) (λ _. tt) (λ a. refl);
}
