-- ===== src/Tests/Items.antt =====
-- GetItems on an array of two numbers.
use provider_temporal.Base.{
  ℕ, ◌≡◌, refl, ◌<◌, none, some, List, [], ◌∷◌, length, nat_eq, if◌then◌else◌,
}
use provider_temporal.Go.Memory.{Memory, Storable}
use provider_temporal.Api.Items.{items_of}
use provider_temporal.Api.Items.Laws.{LeadsTo, items_of-LeadsTo}

abbrev numbers : Storable (List ℕ) (List ℕ)
numbers = record { put = λ a. a; get = λ c. c; zero = []; get-put = λ a. refl }

abbrev memory : Memory (List ℕ)
memory = record { next = 8; cell = λ p. if nat_eq p 7 then some (10 ∷ 20 ∷ []) else none }

items_of-LeadsTo_example :
    (length (items_of numbers (some 7) memory).0 ≡ 2)
    × ((items_of numbers (some 7) memory).1 ≡ memory)
    × ((j : ℕ) → j < 2 → LeadsTo numbers memory 7 (items_of numbers (some 7) memory).0 j)
items_of-LeadsTo_example = items_of-LeadsTo numbers memory 7
