-- ===== src/Tests/Shared.antt =====
-- The theorems on shared clients, for two workers with the same credentials.
use provider_temporal.Base.{ℕ, ◌+◌, ◌≡◌, refl, some, none, List, [], ◌∷◌, inl, ◌<◌, All, arith}
use provider_temporal.Base.Int.{pos, ◌+ℤ◌, ◌-ℤ◌}
use provider_temporal.Controller.Connector.Cache.{
  External, get_usage_counter, increment_usage_counter, decrement_usage_counter,
}
use provider_temporal.Controller.Connector.Shared.{
  Object, Shared, load, Pc, idle, working, testing, make, store, find, close_new, count, leave,
  visit, decrement, Reaches, begins, steps,
}
use provider_temporal.Controller.Connector.Interleaving.{here, there}
use provider_temporal.Controller.Connector.Interleaving.{total}
use provider_temporal.Controller.Connector.Shared.Ownership.{AllOwned}
use provider_temporal.Controller.Connector.Shared.Counters.{owing}
use provider_temporal.Controller.Connector.Shared.Safety.{UsesOwn, Reaches-UsesOwn, Reaches-counter}
use provider_temporal.Controller.Connector.Shared.Atomic.{Connects, checkout-Connects}
use provider_temporal.Controller.Connector.Shared.Range.{Disconnected, disconnect-Disconnected}
use provider_temporal.Controller.Connector.Shared.Progress.{remaining, capacity, Ends, Reaches-Ends}
use provider_temporal.Controller.Connector.Shared.Race.{remove-forgets}

abbrev client : ℕ → External
client h = record { service = some h; id = "id"; usage_counter = pos 0 }

abbrev no_objects : ℕ → Object
no_objects p = record { origin = ""; external = client 0 }

-- The connections that were closed, the last one first.
abbrev World : Type 0
World = List ℕ

abbrev close : ℕ → World → World
close h w = h ∷ w

-- Both work with the client of the first, and the first has begun its Disconnect.
abbrev reached : (s : Shared World) × (pcs : List Pc) × Reaches close s pcs
unfolding increment_usage_counter decrement_usage_counter get_usage_counter ◌+ℤ◌ ◌-ℤ◌
reached =
    let r0 : Reaches close
        (record { next = 0; objects = no_objects; keys = []; stored = []; world = [] })
        (idle ∷ idle ∷ []) =
      begins no_objects [] (refl, (refl, tt)) in
    let r1 = steps r0 (here (make "a" (client 0) 0 [] refl refl)) in
    let r2 = steps r1 (here (store refl)) in
    let r3 = steps r2 (there (here (make "a" (client 1) 1 [] refl refl))) in
    let r4 = steps r3 (there (here (find {q = 0} refl))) in
    let r5 = steps r4 (there (here (close_new {w = 1 ∷ []} refl))) in
    let r6 = steps r5 (here count) in
    let r7 = steps r6 (there (here count)) in
    let r8 = steps r7 (here leave) in
    let r9 = steps r8 (here (visit {k = "a"} {p = 0} (inl refl) refl)) in
    let r10 = steps r9 (here decrement) in (_, _, r10)

abbrev state : Shared World
state = reached.0

abbrev workers : List Pc
workers = reached.1

standing : workers ≡ testing ("a" ∷ []) "a" 0 ∷ working "a" 0 ∷ []
unfolding reached
standing = refl

Reaches-UsesOwn_example : All (UsesOwn state) workers × AllOwned state state.keys
Reaches-UsesOwn_example = Reaches-UsesOwn close state workers reached.2

Reaches-Ends_example : Ends close state workers
Reaches-Ends_example = Reaches-Ends close state workers reached.2

-- There is one key: one worker is at it, and the other has it before it.
bounded : total (remaining (capacity close state workers)) workers ≡ 6 + 9
unfolding total reached
bounded = refl

is_used : 1 < state.next
unfolding reached
is_used = omega arith

none_owes : total (owing 1) workers ≡ 0
unfolding total reached
none_owes = refl

Reaches-counter_example : (n : ℕ) × (get_usage_counter (state.objects 1).external ≡ pos n)
Reaches-counter_example = Reaches-counter close state workers 1 reached.2 is_used none_owes

abbrev empty : Shared World
empty = record { next = 0; objects = no_objects; keys = []; stored = []; world = [] }

-- One works, and the other is idle.
abbrev one_works : (s : Shared World) × Reaches close s (idle ∷ working "a" 0 ∷ [])
unfolding increment_usage_counter ◌+ℤ◌
one_works =
    let r0 : Reaches close empty (idle ∷ idle ∷ []) = begins no_objects [] (refl, (refl, tt)) in
    let r1 = steps r0 (there (here (make "a" (client 0) 0 [] refl refl))) in
    let r2 = steps r1 (there (here (store refl))) in
    let r3 = steps r2 (there (here count)) in (_, r3)

checkout-Connects_example : Connects close one_works.0 (working "a" 0 ∷ []) "a" (client 1) []
checkout-Connects_example =
    checkout-Connects close one_works.0 (working "a" 0 ∷ []) "a" (client 1) 1 [] one_works.1 refl
      refl

abbrev both_work : (s : Shared World) × Reaches close s (working "b" 1 ∷ working "a" 0 ∷ [])
unfolding increment_usage_counter ◌+ℤ◌ one_works
both_work =
    let r1 = steps one_works.1 (here (make "b" (client 1) 1 [] refl refl)) in
    let r2 = steps r1 (here (store refl)) in let r3 = steps r2 (here count) in (_, r3)

disconnect-Disconnected_example : Disconnected close both_work.0 (working "a" 0 ∷ []) "b" 1
disconnect-Disconnected_example =
    disconnect-Disconnected close both_work.0 (working "a" 0 ∷ []) "b" 1 both_work.1

remove-forgets_example :
    (s : Shared World) × (p : ℕ) × Reaches close s (idle ∷ working "a" p ∷ [])
    × (load "a" s.keys ≡ none)
    × (get_usage_counter (s.objects p).external ≡ pos 1)
remove-forgets_example = remove-forgets close "a" [] no_objects
