-- ===== src/Controller/Connector/Shared/Safety.antt =====
-- What holds of the shared clients however the Connects and Disconnects of the workers come between each other.
use provider_temporal.Base.{
  ℕ, ◌≤◌, ◌<◌, ◌≡◌, refl, inl, inr, Bool-cases, Option-cases, List, [], ◌∷◌, All, arith,
}
use provider_temporal.Base.Int.{ℤ, pos, negsuc, neg_part, ltb_ℤ}
use provider_temporal.Controller.Connector.Cache.{get_usage_counter, is_unused}
use provider_temporal.Controller.Connector.Shared.{
  Shared, load, Pc, idle, made, closing, counting, working, ranging, visiting, testing, resetting,
  deciding, releasing, deleting, Move, fail, store, find, close_new, count, leave, decrement,
  negative, not_negative, reset, unused, used, release, remove, finish, Step, AllIdle, Reaches,
  begins, steps,
}
use provider_temporal.Controller.Connector.Interleaving.{total, OneOf-IsOneMove}
use provider_temporal.Controller.Connector.Shared.Ownership.{Owns, AllOwned}
use provider_temporal.Controller.Connector.Shared.Keeping.{Fits, Fits-Extends, IsOwned, Move-Keeps}
use provider_temporal.Controller.Connector.Shared.Counters.{owing, IsCounted, Step-IsCounted}

below_zero : (m n : ℕ) → neg_part (negsuc m) ≤ n → n ≡ 0 → ⊥
below_zero m n b e = omega (arith, b, e)

not_negative_lem : (z : ℤ) (n : ℕ) → neg_part z ≤ n → n ≡ 0 → (m : ℕ) × (z ≡ pos m)
not_negative_lem (pos m) n b e = (m, refl)
not_negative_lem (negsuc m) n b e = elim (below_zero m n b e) [ ]

module _ {W : Type 0} where
  pub record IsSound (s : Shared W) (pcs : List Pc) : Type 0 where
    pub owned : IsOwned s
    pub fits : All (Fits s) pcs
    pub counted : IsCounted s pcs

  AllIdle-Fits : (s : Shared W) (pcs : List Pc) → AllIdle pcs → All (Fits s) pcs
  AllIdle-Fits s [] a = tt
  AllIdle-Fits s (pc ∷ pcs) (p, a) = (rw p tt, AllIdle-Fits s pcs a)

  Step-IsSound :
      (close : ℕ → W → W) (s s' : Shared W) (pcs pcs' : List Pc)
      → Step close s pcs s' pcs'
      → IsSound s pcs
      → IsSound s' pcs'
  Step-IsSound close s s' pcs pcs' step v =
      let one = OneOf-IsOneMove step in
      let grown = one.replace (Fits s) (Fits s) (λ pc f. f) v.fits in
      let keeps = Move-Keeps one.move v.owned grown.0 in
      record {
        owned = keeps.owned;
        fits =
            (one.replace (Fits s) (Fits s') (λ pc. Fits-Extends s s' pc keeps.extends) v.fits).1
              keeps.fits;
        counted = Step-IsCounted step v.counted;
      }

  pub Reaches-IsSound :
      {close : ℕ → W → W} {s : Shared W} {pcs : List Pc} → Reaches close s pcs → IsSound s pcs
  Reaches-IsSound (begins {pcs} objects w a) = record {
    owned = (tt, tt);
    fits =
        AllIdle-Fits (record { next = 0; objects = objects; keys = []; stored = []; world = w }) pcs
          a;
    counted = λ p below. omega (arith, below);
  }
  Reaches-IsSound {close} (steps {s} {s'} {pcs} {pcs'} before step) =
      Step-IsSound close s s' pcs pcs' step (Reaches-IsSound before)

  -- A worker that Connect has given a client has one that was made with the worker's credentials.
  abbrev pub UsesOwn : Shared W → Pc → Type 0
  UsesOwn s (working k p) = Owns s k p
  UsesOwn s _ = Unit

  Fits-UsesOwn : (s : Shared W) (pc : Pc) → Fits s pc → UsesOwn s pc
  Fits-UsesOwn s idle f = tt
  Fits-UsesOwn s (made k p) f = tt
  Fits-UsesOwn s (closing k p q) f = tt
  Fits-UsesOwn s (counting k p) f = tt
  Fits-UsesOwn s (working k p) f = f
  Fits-UsesOwn s (ranging seen) f = tt
  Fits-UsesOwn s (visiting seen k p) f = tt
  Fits-UsesOwn s (testing seen k p) f = tt
  Fits-UsesOwn s (resetting seen k p) f = tt
  Fits-UsesOwn s (deciding seen k p) f = tt
  Fits-UsesOwn s (releasing seen k p) f = tt
  Fits-UsesOwn s (deleting seen k p) f = tt

  All-UsesOwn : (s : Shared W) (pcs : List Pc) → All (Fits s) pcs → All (UsesOwn s) pcs
  All-UsesOwn s [] a = tt
  All-UsesOwn s (pc ∷ pcs) (f, a) = (Fits-UsesOwn s pc f, All-UsesOwn s pcs a)

  -- However the steps of the Connects and the Disconnects of workers interleave that all began idle
  -- with an empty map: each worker that Connect has returned to holds an object that was made with
  -- the worker's own key and has a service, and so is every object that the map has under a key.
  pub Reaches-UsesOwn :
      (close : ℕ → W → W) (s : Shared W) (pcs : List Pc)
      → Reaches close s pcs
      → All (UsesOwn s) pcs × AllOwned s s.keys
  Reaches-UsesOwn close s pcs run =
      let v = Reaches-IsSound run in (All-UsesOwn s pcs v.fits, v.owned.0)

  -- However the steps of the Connects and the Disconnects of workers interleave that all began idle
  -- with an empty map: the counter of an object that was made is not negative while no worker
  -- stands between its decrement and the end of its test for a negative counter.
  pub Reaches-counter :
      (close : ℕ → W → W) (s : Shared W) (pcs : List Pc) (p : ℕ)
      → Reaches close s pcs
      → p < s.next
      → total (owing p) pcs ≡ 0
      → (n : ℕ) × (get_usage_counter (s.objects p).external ≡ pos n)
  unfolding get_usage_counter
  Reaches-counter close s pcs p run below settled =
      let v = Reaches-IsSound run in
      not_negative_lem (s.objects p).external.usage_counter (total (owing p) pcs)
        (v.counted p below) settled

  -- The worker has a step that it can take.
  abbrev pub CanMove : (ℕ → W → W) → Shared W → Pc → Type 0
  CanMove close s pc = (s' : Shared W) × (pc' : Pc) × Move close s pc s' pc'

  Fits-CanMove : (close : ℕ → W → W) (s : Shared W) (pc : Pc) → Fits s pc → CanMove close s pc
  Fits-CanMove close s idle f = (_, idle, fail s.world)
  Fits-CanMove close s (made k p) f = elim (Option-cases (load k s.keys)) [
    | inl absent ↦ (_, _, store absent)
    | inr (q, there) ↦ (_, _, find there)
  ]
  Fits-CanMove close s (closing k p q) (f, g) =
      (_, _, close_new {w = close g.served.0 s.world} (rw g.served.1 refl))
  Fits-CanMove close s (counting k p) f = (_, _, count)
  Fits-CanMove close s (working k p) f = (_, _, leave)
  Fits-CanMove close s (ranging seen) f = (_, _, finish)
  Fits-CanMove close s (visiting seen k p) f = (_, _, decrement)
  Fits-CanMove close s (testing seen k p) f =
      elim (Bool-cases (ltb_ℤ (get_usage_counter (s.objects p).external) (pos 0))) [
        | inl t ↦ (_, _, negative t)
        | inr t ↦ (_, _, not_negative t)
      ]
  Fits-CanMove close s (resetting seen k p) f = (_, _, reset)
  Fits-CanMove close s (deciding seen k p) f =
      elim (Bool-cases (is_unused (s.objects p).external)) [
        | inl t ↦ (_, _, unused t)
        | inr t ↦ (_, _, used t)
      ]
  Fits-CanMove close s (releasing seen k p) f =
      (_, _, release {w = close f.served.0 s.world} (rw f.served.1 refl))
  Fits-CanMove close s (deleting seen k p) f = (_, _, remove)

  All-CanMove :
      (close : ℕ → W → W) (s : Shared W) (pcs : List Pc)
      → All (Fits s) pcs
      → All (CanMove close s) pcs
  All-CanMove close s [] a = tt
  All-CanMove close s (pc ∷ pcs) (f, a) = (Fits-CanMove close s pc f, All-CanMove close s pcs a)

  -- However the steps of the Connects and the Disconnects of workers interleave that all began idle
  -- with an empty map: each worker has a step to take, so none follows a nil service or waits for
  -- another.
  pub Reaches-CanMove :
      (close : ℕ → W → W) (s : Shared W) (pcs : List Pc)
      → Reaches close s pcs
      → All (CanMove close s) pcs
  Reaches-CanMove close s pcs run = All-CanMove close s pcs (Reaches-IsSound run).fits
