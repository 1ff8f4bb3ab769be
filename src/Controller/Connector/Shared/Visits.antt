-- ===== src/Controller/Connector/Shared/Visits.antt =====
-- How far a Disconnect is through the map: Range visits each key once, so no more keys than were ever stored.
use provider_temporal.Base.{
  ℕ, suc, ◌+◌, ◌≤◌, ◌≡◌, ap, subst, eq_refl, inl, inr, String, String-cases, Bool-cases, true,
  false, ◌==◌, if◌then◌else◌, List, [], ◌∷◌, length, All, arith,
}
use provider_temporal.Controller.Connector.Shared.{
  Shared, IsIn, is_seen, idle, made, closing, counting, working, ranging, visiting, testing,
  resetting, deciding, releasing, deleting, Pc, Move, fail, make, store, find, close_new, count,
  leave, visit, decrement, negative, not_negative, reset, unused, used, release, remove, finish,
  Step, AllIdle, Reaches, begins, steps,
}
use provider_temporal.Controller.Connector.Interleaving.{OneOf-IsOneMove}

-- How many entries have a key that was visited.
unfoldable pub visited : List String → List (String × ℕ) → ℕ
visited seen [] = 0
visited seen ((j, p) ∷ m) = let rest = visited seen m in if is_seen j seen then suc rest else rest

pub visited-length : (seen : List String) (m : List (String × ℕ)) → visited seen m ≤ length m
unfolding visited
visited-length seen [] = omega arith
visited-length seen ((j, p) ∷ m) = elim (Bool-cases (is_seen j seen)) [
  | inl t ↦ rw t (omega (arith, visited-length seen m))
  | inr t ↦ rw t (omega (arith, visited-length seen m))
]

visited_more :
    (k : String) (seen : List String) (m : List (String × ℕ))
    → visited seen m ≤ visited (k ∷ seen) m
unfolding visited
visited_more k seen [] = omega arith
visited_more k seen ((j, p) ∷ m) =
    let rest = visited_more k seen m in
    elim (Bool-cases (k == j)) [
      | inl t ↦ elim (Bool-cases (is_seen j seen)) [
        | inl u ↦ rw (t, u) (omega (arith, rest))
        | inr u ↦ rw (t, u) (omega (arith, rest))
      ]
      | inr t ↦ elim (Bool-cases (is_seen j seen)) [
        | inl u ↦ rw (t, u) (omega (arith, rest))
        | inr u ↦ rw (t, u) (omega (arith, rest))
      ]
    ]

pub visited_new :
    (k : String) (p : ℕ) (seen : List String) (m : List (String × ℕ))
    → IsIn (k, p) m
    → is_seen k seen ≡ false
    → visited seen m + 1 ≤ visited (k ∷ seen) m
unfolding visited
visited_new k p seen [] i new = elim i [ ]
visited_new k p seen ((j, q) ∷ m) (inl same) new =
    let name : k ≡ j = ap (λ x. x.0) same in
    let t : (k == j) ≡ true = subst (λ x. (k == x) ≡ true) name (eq_refl k) in
    let u : is_seen j seen ≡ false = subst (λ x. is_seen x seen ≡ false) name new in
    rw (t, u) (omega (arith, visited_more k seen m))
visited_new k p seen ((j, q) ∷ m) (inr i) new = elim (String-cases k j) [
  | inl (same, t) ↦
      let u : is_seen j seen ≡ false = subst (λ x. is_seen x seen ≡ false) same new in
      rw (t, u) (omega (arith, visited_more k seen m))
  | inr (other, t) ↦ elim (Bool-cases (is_seen j seen)) [
    | inl u ↦ rw (t, u) (omega (arith, visited_new k p seen m i new))
    | inr u ↦ rw (t, u) (omega (arith, visited_new k p seen m i new))
  ]
]

-- Before a worker has gone through Range, its visits, each of a key of its own.
abbrev pub IsSeen : List (String × ℕ) → Pc → Type 0
IsSeen m (ranging seen) = length seen ≤ visited seen m
IsSeen m (visiting seen k p) = length seen ≤ visited seen m
IsSeen m (testing seen k p) = length seen ≤ visited seen m
IsSeen m (resetting seen k p) = length seen ≤ visited seen m
IsSeen m (deciding seen k p) = length seen ≤ visited seen m
IsSeen m (releasing seen k p) = length seen ≤ visited seen m
IsSeen m (deleting seen k p) = length seen ≤ visited seen m
IsSeen m _ = Unit

visited_stored :
    (seen : List String) (k : String) (p : ℕ) (m : List (String × ℕ))
    → visited seen m ≤ visited seen ((k, p) ∷ m)
unfolding visited
visited_stored seen k p m = elim (Bool-cases (is_seen k seen)) [
  | inl t ↦ rw t (omega arith)
  | inr t ↦ rw t (omega arith)
]

IsSeen-stored :
    (k : String) (p : ℕ) (m : List (String × ℕ)) (pc : Pc) → IsSeen m pc → IsSeen ((k, p) ∷ m) pc
IsSeen-stored k p m idle v = tt
IsSeen-stored k p m (made j q) v = tt
IsSeen-stored k p m (closing j q r) v = tt
IsSeen-stored k p m (counting j q) v = tt
IsSeen-stored k p m (working j q) v = tt
IsSeen-stored k p m (ranging seen) v = omega (arith, v, visited_stored seen k p m)
IsSeen-stored k p m (visiting seen j q) v = omega (arith, v, visited_stored seen k p m)
IsSeen-stored k p m (testing seen j q) v = omega (arith, v, visited_stored seen k p m)
IsSeen-stored k p m (resetting seen j q) v = omega (arith, v, visited_stored seen k p m)
IsSeen-stored k p m (deciding seen j q) v = omega (arith, v, visited_stored seen k p m)
IsSeen-stored k p m (releasing seen j q) v = omega (arith, v, visited_stored seen k p m)
IsSeen-stored k p m (deleting seen j q) v = omega (arith, v, visited_stored seen k p m)

AllIdle-IsSeen : (m : List (String × ℕ)) (pcs : List Pc) → AllIdle pcs → All (IsSeen m) pcs
AllIdle-IsSeen m [] a = tt
AllIdle-IsSeen m (pc ∷ pcs) (p, a) = (rw p tt, AllIdle-IsSeen m pcs a)

module _ {W : Type 0} where
  -- What a step keeps for the others and gives to the worker that takes it.
  Sees : Shared W → Pc → Shared W → Pc → Type 0
  Sees s pc s' pc' =
      ((other : Pc) → IsSeen s.stored other → IsSeen s'.stored other)
      × (IsSeen s.stored pc → IsSeen s'.stored pc')

  Move-Sees :
      {close : ℕ → W → W} {s s' : Shared W} {pc pc' : Pc}
      → Move close s pc s' pc'
      → Sees s pc s' pc'
  unfolding Sees visited
  Move-Sees (fail w) = ((λ other v. v), (λ v. tt))
  Move-Sees (make _ _ _ _ _ _) = ((λ other v. v), (λ v. tt))
  Move-Sees {s} (store {k} {p} absent) =
      ((λ other v. IsSeen-stored k p s.stored other v), (λ v. tt))
  Move-Sees (find _) = ((λ other v. v), (λ v. tt))
  Move-Sees (close_new _) = ((λ other v. v), (λ v. tt))
  Move-Sees count = ((λ other v. v), (λ v. tt))
  Move-Sees leave = ((λ other v. v), (λ v. omega arith))
  Move-Sees {s} (visit {seen} {k} {p} i new) =
      ((λ other v. v), (λ v. omega (arith, v, visited_new k p seen s.stored i new)))
  Move-Sees decrement = ((λ other v. v), (λ v. v))
  Move-Sees (negative _) = ((λ other v. v), (λ v. v))
  Move-Sees (not_negative _) = ((λ other v. v), (λ v. v))
  Move-Sees reset = ((λ other v. v), (λ v. v))
  Move-Sees (unused _) = ((λ other v. v), (λ v. v))
  Move-Sees (used _) = ((λ other v. v), (λ v. v))
  Move-Sees (release _) = ((λ other v. v), (λ v. v))
  Move-Sees remove = ((λ other v. v), (λ v. v))
  Move-Sees finish = ((λ other v. v), (λ v. tt))

  pub Step-IsSeen :
      {close : ℕ → W → W} {s s' : Shared W} {pcs pcs' : List Pc}
      → Step close s pcs s' pcs'
      → All (IsSeen s.stored) pcs
      → All (IsSeen s'.stored) pcs'
  unfolding Sees
  Step-IsSeen {close} {s} {s'} step a =
      let one = OneOf-IsOneMove step in
      let sees = Move-Sees one.move in
      let (mine, rest) = one.replace (IsSeen s.stored) (IsSeen s'.stored) sees.0 a in
      rest (sees.1 mine)

  pub Reaches-IsSeen :
      {close : ℕ → W → W} {s : Shared W} {pcs : List Pc}
      → Reaches close s pcs
      → All (IsSeen s.stored) pcs
  Reaches-IsSeen (begins {pcs} objects w a) = AllIdle-IsSeen [] pcs a
  Reaches-IsSeen (steps before step) = Step-IsSeen step (Reaches-IsSeen before)
