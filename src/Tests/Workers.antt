-- ===== src/Tests/Workers.antt =====
-- The theorems on interleaved Connects, for two workers with the same credentials.
use mathlib.Core.Option
use provider_temporal.Controller.Connector.Remaining.{one_less}
use provider_temporal.Base.{◌≡◌, refl, none, [], ◌∷◌}
use provider_temporal.Base.Int.{◌+ℤ◌}
use provider_temporal.Controller.Connector.Cache.{
  Clients, load, load_or_store, modify_entry, increment_usage_counter,
}
use provider_temporal.Controller.Connector.Invariant.{owned, IsCache}
use provider_temporal.Controller.Connector.Workers.{
  idle, made, closing, counting, working, make, store, find, close_new, count, Interleaves, begins,
  steps,
}
use provider_temporal.Controller.Connector.Interleaving.{here, there}
use provider_temporal.Controller.Connector.Workers.Safety.{Settles, Interleaves-Settles}
use provider_temporal.Controller.Connector.Workers.Interrupted.{Loses, checkout_interrupted-Loses}
use provider_temporal.Tests.Connections.{connections, client}

abbrev one_user : Clients
one_user = ("a", client 1 1) ∷ []

abbrev two_users : Clients
two_users = ("a", client 1 2) ∷ []

-- Both have made a service, and the second worker has stored its own.
second_stored :
    Interleaves connections
      (("a", client 1 0) ∷ [])
      (2 ∷ 1 ∷ [])
      (made "a" (client 2 0) ∷ counting "a" ∷ [])
unfolding load_or_store load
second_stored =
    steps {m = []} {w = 2 ∷ 1 ∷ []} {pcs = made "a" (client 2 0) ∷ made "a" (client 1 0) ∷ []}
      (steps {m = []} {w = 1 ∷ []} {pcs = idle ∷ made "a" (client 1 0) ∷ []}
        (steps {m = []} {w = []} {pcs = idle ∷ idle ∷ []} (begins [] (λ d. refl) (refl, (refl, tt)))
          (there (
            here (
              make "a" (client 1 0) (record {
                handle = 1;
                served = refl;
                unused = refl;
                closed = refl;
                opened = λ d. refl;
              })))))
        (here (
          make "a" (client 2 0) (record {
            handle = 2;
            served = refl;
            unused = refl;
            closed = refl;
            opened = λ d. refl;
          }))))
      (there (here (store refl)))

-- The first worker finds that client, closes its own and counts before the second does.
interleaved : Interleaves connections two_users (1 ∷ []) (working "a" ∷ working "a" ∷ [])
unfolding load_or_store load modify_entry increment_usage_counter ◌+ℤ◌
interleaved =
    steps {m = one_user} {w = 1 ∷ []} {pcs = working "a" ∷ counting "a" ∷ []}
      (steps {m = ("a", client 1 0) ∷ []} {w = 1 ∷ []} {pcs = counting "a" ∷ counting "a" ∷ []}
        (steps {m = ("a", client 1 0) ∷ []} {w = 2 ∷ 1 ∷ []}
          {pcs = closing "a" (client 2 0) ∷ counting "a" ∷ []}
          (steps {m = ("a", client 1 0) ∷ []} {w = 2 ∷ 1 ∷ []}
            {pcs = made "a" (client 2 0) ∷ counting "a" ∷ []} second_stored (here (find refl)))
          (here (close_new refl)))
        (here count))
      (there (here count))

Interleaves-Settles_example :
    Settles connections two_users (1 ∷ []) (working "a" ∷ working "a" ∷ [])
Interleaves-Settles_example = Interleaves-Settles connections interleaved (tt, (tt, tt))

empty-IsCache : IsCache []
empty-IsCache = tt

no_client : Option.bind (load "a" []) one_less ≡ none
unfolding load Option.bind
no_client = refl

checkout_interrupted-Loses_example : Loses connections "a" (client 1 0) [] (1 ∷ [])
unfolding owned
checkout_interrupted-Loses_example =
    checkout_interrupted-Loses connections "a" (client 1 0) [] (1 ∷ []) empty-IsCache
      (record { handle = 1; served = refl; unused = refl; apart = refl; opened = λ d. refl })
      no_client
