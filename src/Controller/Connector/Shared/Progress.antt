-- ===== src/Controller/Connector/Shared/Progress.antt =====
-- Connects and Disconnects that are under way come to an end, in whatever order their steps are taken.
use provider_temporal.Base.{
  ℕ, suc, ◌+◌, ◌-◌, ◌*◌, ◌≤◌, sym, subst, List, [], ◌∷◌, length, All, arith,
}
use provider_temporal.Controller.Connector.Shared.{
  Shared, idle, made, closing, counting, working, ranging, visiting, testing, resetting, deciding,
  releasing, deleting, Pc, Move, fail, make, store, find, close_new, count, leave, visit, decrement,
  negative, not_negative, reset, unused, used, release, remove, finish, Step, Reaches,
}
use provider_temporal.Controller.Connector.Interleaving.{total, mover, OneOf-IsOneMove}
use provider_temporal.Controller.Connector.Shared.Safety.{CanMove, Reaches-CanMove}
use provider_temporal.Controller.Connector.Shared.Visits.{
  visited-length, visited_new, IsSeen, Step-IsSeen, Reaches-IsSeen,
}

-- The most steps that a worker has before it is idle, where there are no more than `n` keys.
abbrev pub remaining : ℕ → Pc → ℕ
remaining n idle = 0
remaining n (made k p) = 5 + 7 * n
remaining n (closing k p q) = 4 + 7 * n
remaining n (counting k p) = 3 + 7 * n
remaining n (working k p) = 2 + 7 * n
remaining n (ranging seen) = 1 + 7 * (n - length seen)
remaining n (visiting seen k p) = 7 + 7 * (n - length seen)
remaining n (testing seen k p) = 6 + 7 * (n - length seen)
remaining n (resetting seen k p) = 5 + 7 * (n - length seen)
remaining n (deciding seen k p) = 4 + 7 * (n - length seen)
remaining n (releasing seen k p) = 3 + 7 * (n - length seen)
remaining n (deleting seen k p) = 2 + 7 * (n - length seen)

abbrev pub before_store : Pc → ℕ
before_store (made k p) = 1
before_store _ = 0

remaining_more : (m n : ℕ) (pc : Pc) → m ≤ n → remaining m pc ≤ remaining n pc
remaining_more m n idle b = omega arith
remaining_more m n (made k p) b = omega (arith, b)
remaining_more m n (closing k p q) b = omega (arith, b)
remaining_more m n (counting k p) b = omega (arith, b)
remaining_more m n (working k p) b = omega (arith, b)
remaining_more m n (ranging seen) b = omega (arith, b)
remaining_more m n (visiting seen k p) b = omega (arith, b)
remaining_more m n (testing seen k p) b = omega (arith, b)
remaining_more m n (resetting seen k p) b = omega (arith, b)
remaining_more m n (deciding seen k p) b = omega (arith, b)
remaining_more m n (releasing seen k p) b = omega (arith, b)
remaining_more m n (deleting seen k p) b = omega (arith, b)

total_more : (m n : ℕ) (pcs : List Pc) → m ≤ n → total (remaining m) pcs ≤ total (remaining n) pcs
unfolding total
total_more m n [] b = omega arith
total_more m n (pc ∷ pcs) b = omega (arith, remaining_more m n pc b, total_more m n pcs b)

abbrev pub IsUnderWay : Pc → Type 0
IsUnderWay idle = ⊥
IsUnderWay _ = Unit

module _ {W : Type 0} (close : ℕ → W → W) where
  -- `n` steps in which no worker that is idle goes on.
  pub data Advances : ℕ → Shared W → List Pc → Shared W → List Pc → Type 0 where
    rests : {s : Shared W} {pcs : List Pc} → Advances 0 s pcs s pcs
    goes :
        {n : ℕ} {s s1 s' : Shared W} {pcs pcs1 pcs' : List Pc} (step : Step close s pcs s1 pcs1)
        → IsUnderWay (mover step)
        → Advances n s1 pcs1 s' pcs'
        → Advances (suc n) s pcs s' pcs'

  -- The keys that were stored, and those that may be by workers that have made a client.
  abbrev pub capacity : Shared W → List Pc → ℕ
  capacity s pcs = length s.stored + total before_store pcs

  Move-capacity :
      {s s' : Shared W} {pc pc' : Pc}
      → IsUnderWay pc
      → Move close s pc s' pc'
      → length s'.stored + before_store pc' ≤ length s.stored + before_store pc
  Move-capacity u (fail w) = absurd u
  Move-capacity u (make _ _ _ _ _ _) = absurd u
  Move-capacity u (store _) = omega arith
  Move-capacity u (find _) = omega arith
  Move-capacity u (close_new _) = omega arith
  Move-capacity u count = omega arith
  Move-capacity u leave = omega arith
  Move-capacity u (visit _ _) = omega arith
  Move-capacity u decrement = omega arith
  Move-capacity u (negative _) = omega arith
  Move-capacity u (not_negative _) = omega arith
  Move-capacity u reset = omega arith
  Move-capacity u (unused _) = omega arith
  Move-capacity u (used _) = omega arith
  Move-capacity u (release _) = omega arith
  Move-capacity u remove = omega arith
  Move-capacity u finish = omega arith

  Move-remaining :
      {s s' : Shared W} {pc pc' : Pc} (n : ℕ)
      → IsUnderWay pc
      → IsSeen s.stored pc
      → length s.stored ≤ n
      → Move close s pc s' pc'
      → remaining n pc' + 1 ≤ remaining n pc
  Move-remaining n u v b (fail w) = absurd u
  Move-remaining n u v b (make _ _ _ _ _ _) = absurd u
  Move-remaining n u v b (store _) = omega arith
  Move-remaining n u v b (find _) = omega arith
  Move-remaining n u v b (close_new _) = omega arith
  Move-remaining n u v b count = omega arith
  Move-remaining n u v b leave = omega arith
  Move-remaining {s} n u v b (visit {seen} {k} {p} i new) =
      omega (arith, v, b, visited_new k p seen s.stored i new, visited-length (k ∷ seen) s.stored)
  Move-remaining n u v b decrement = omega arith
  Move-remaining n u v b (negative _) = omega arith
  Move-remaining n u v b (not_negative _) = omega arith
  Move-remaining n u v b reset = omega arith
  Move-remaining n u v b (unused _) = omega arith
  Move-remaining n u v b (used _) = omega arith
  Move-remaining n u v b (release _) = omega arith
  Move-remaining n u v b remove = omega arith
  Move-remaining n u v b finish = omega arith

  Step-remaining :
      {s s' : Shared W} {pcs pcs' : List Pc} (step : Step close s pcs s' pcs')
      → IsUnderWay (mover step)
      → All (IsSeen s.stored) pcs
      → total (remaining (capacity s' pcs')) pcs' + 1 ≤ total (remaining (capacity s pcs)) pcs
  Step-remaining {s} {s'} {pcs} {pcs'} step u a =
      let one = OneOf-IsOneMove step in
      let busy : IsUnderWay one.before = subst IsUnderWay (sym one.mover_stands) u in
      let n = capacity s pcs in
      let fewer : capacity s' pcs' ≤ n =
        omega (arith, Move-capacity busy one.move, one.exchange before_store) in
      let seen = (one.replace (IsSeen s.stored) (IsSeen s.stored) (λ pc v. v) a).0 in
      omega (
        arith,
        total_more (capacity s' pcs') n pcs' fewer,
        one.exchange (remaining n),
        Move-remaining n busy seen (omega arith) one.move,
      )

  Advances-remaining :
      {n : ℕ} {s s' : Shared W} {pcs pcs' : List Pc}
      → Advances n s pcs s' pcs'
      → All (IsSeen s.stored) pcs
      → n + total (remaining (capacity s' pcs')) pcs' ≤ total (remaining (capacity s pcs)) pcs
  Advances-remaining rests a = omega arith
  Advances-remaining (goes step u more) a =
      omega (arith, Step-remaining step u a, Advances-remaining more (Step-IsSeen step a))

  abbrev pub Ends : Shared W → List Pc → Type 0
  Ends s pcs =
      ((n : ℕ) (s' : Shared W) (pcs' : List Pc)
        → Advances n s pcs s' pcs'
        → n ≤ total (remaining (capacity s pcs)) pcs)
      × All (CanMove close s) pcs

  -- However the steps of the Connects and the Disconnects of workers interleave that all began idle
  -- with an empty map: when from then on no idle worker begins a Connect, the steps are at most as
  -- many as `remaining` adds up to over the workers, for the keys that are stored and one for each
  -- worker that may yet store its own; and each worker has a step to take, so that none follows a
  -- nil service or waits for another.
  pub Reaches-Ends : (s : Shared W) (pcs : List Pc) → Reaches close s pcs → Ends s pcs
  Reaches-Ends s pcs run = (
    (λ n s' pcs' more. omega (arith, Advances-remaining more (Reaches-IsSeen run))),
    Reaches-CanMove close s pcs run,
  )
