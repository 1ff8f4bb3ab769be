-- ===== src/Controller/Connector/Shared/View.antt =====
-- The cache of clients that shared objects stand for: each key with the object that the map leads it to.
use provider_temporal.Base.{
  ℕ, ◌≡◌, ◌≢◌, refl, sym, ap, ◌∙◌, String, String-cases, inl, inr, Bool-cases, true, false, some,
  none, List, [], ◌∷◌, ◌==◌, nat_eq, arith,
}
use provider_temporal.Controller.Connector.Cache.{External, Clients, modify_entry}
use provider_temporal.Controller.Connector.Cache
use provider_temporal.Controller.Connector.Shared.{
  Object, Shared, load, delete, modify, allocate, Move, fail, make, store, find, close_new, count,
  leave, visit, decrement, negative, not_negative, reset, unused, used, release, remove, finish, Pc,
  Reaches, begins, steps,
}
use provider_temporal.Controller.Connector.Interleaving.{OneOf-IsOneMove}
use provider_temporal.Controller.Connector.Shared.Ownership.{Owns, AllOwned, Owns-moved, load-Owns}

-- No key is twice in the map.
abbrev pub Distinct : List (String × ℕ) → Type 0
Distinct [] = Unit
Distinct ((k, p) ∷ m) = (load k m ≡ none) × Distinct m

load-delete-none :
    (j k : String) (m : List (String × ℕ)) → load j m ≡ none → load j (delete k m) ≡ none
load-delete-none j k [] absent = refl
load-delete-none j k ((i, p) ∷ m) absent = elim (String-cases i j) [
  | inl (same, t) ↦ cc (rw t at absent)
  | inr (other, t) ↦
      let rest = load-delete-none j k m (rw t at absent) in
      elim (Bool-cases (i == k)) [ inl u ↦ rw u rest | inr u ↦ rw (u, t) rest ]
]

delete-Distinct : (k : String) (m : List (String × ℕ)) → Distinct m → Distinct (delete k m)
delete-Distinct k [] d = tt
delete-Distinct k ((i, p) ∷ m) (absent, d) =
    let rest = delete-Distinct k m d in
    elim (Bool-cases (i == k)) [
      | inl u ↦ rw u rest
      | inr u ↦ rw u (load-delete-none i k m absent, rest)
    ]

abbrev pub view : (ℕ → Object) → List (String × ℕ) → Clients
view objects [] = []
view objects ((k, p) ∷ m) = (k, (objects p).external) ∷ view objects m

module _ {W : Type 0} where
  Move-Distinct :
      {close : ℕ → W → W} {s s' : Shared W} {pc pc' : Pc}
      → Move close s pc s' pc'
      → Distinct s.keys
      → Distinct s'.keys
  Move-Distinct (fail w) d = d
  Move-Distinct (make _ _ _ _ _ _) d = d
  Move-Distinct (store absent) d = (absent, d)
  Move-Distinct (find _) d = d
  Move-Distinct (close_new _) d = d
  Move-Distinct count d = d
  Move-Distinct leave d = d
  Move-Distinct (visit _ _) d = d
  Move-Distinct decrement d = d
  Move-Distinct (negative _) d = d
  Move-Distinct (not_negative _) d = d
  Move-Distinct reset d = d
  Move-Distinct (unused _) d = d
  Move-Distinct (used _) d = d
  Move-Distinct (release _) d = d
  Move-Distinct {s} (remove {k}) d = delete-Distinct k s.keys d
  Move-Distinct finish d = d

  pub Reaches-Distinct :
      {close : ℕ → W → W} {s : Shared W} {pcs : List Pc} → Reaches close s pcs → Distinct s.keys
  Reaches-Distinct (begins objects w a) = tt
  Reaches-Distinct {close} (steps before step) =
      Move-Distinct (OneOf-IsOneMove step).move (Reaches-Distinct before)

  pub view-load :
      (s : Shared W) (k : String) (p : ℕ) (m : List (String × ℕ))
      → load k m ≡ some p
      → Cache.load k (view s.objects m) ≡ some (s.objects p).external
  unfolding Cache.load
  view-load s k p [] l = cc
  view-load s k p ((j, q) ∷ m) l = elim (Bool-cases (j == k)) [
    | inl t ↦ let same : q ≡ p = cc (rw t at l) in rw (t, same) refl
    | inr t ↦ rw t (view-load s k p m (rw t at l))
  ]

  pub view-load-none :
      (s : Shared W) (k : String) (m : List (String × ℕ))
      → load k m ≡ none
      → Cache.load k (view s.objects m) ≡ none
  unfolding Cache.load
  view-load-none s k [] l = refl
  view-load-none s k ((j, q) ∷ m) l = elim (Bool-cases (j == k)) [
    | inl t ↦ cc (rw t at l)
    | inr t ↦ rw t (view-load-none s k m (rw t at l))
  ]

  pub view-allocate :
      (s : Shared W) (k : String) (e : External) (m : List (String × ℕ))
      → AllOwned s m
      → view (allocate k e s).objects m ≡ view s.objects m
  view-allocate s k e [] a = refl
  view-allocate s k e ((j, q) ∷ m) (o, a) =
      let other : nat_eq q s.next ≡ false = ground (arith, o.used) in
      rw (other, view-allocate s k e m a) refl

  pub apart :
      (s : Shared W) (j k : String) (q p : ℕ) → Owns s j q → Owns s k p → j ≢ k → nat_eq q p ≡ false
  apart s j k q p o own other =
      let differ : q ≢ p =
        λ same. other (sym o.mine ∙ ap (λ x. (s.objects x).origin) same ∙ own.mine) in
      ground (arith, differ)

  view-modify_other :
      (s : Shared W) (k : String) (p : ℕ) (f : External → External) (m : List (String × ℕ))
      → AllOwned s m
      → Owns s k p
      → load k m ≡ none
      → view (modify p f s).objects m ≡ view s.objects m
  view-modify_other s k p f [] a own absent = refl
  view-modify_other s k p f ((j, q) ∷ m) (o, a) own absent = elim (String-cases j k) [
    | inl (same, t) ↦ cc (rw t at absent)
    | inr (other, t) ↦
        rw (apart s j k q p o own other, view-modify_other s k p f m a own (rw t at absent)) refl
  ]

  -- A method on the object that the map has under a key.
  pub view-modify :
      (s : Shared W) (k : String) (p : ℕ) (f : External → External) (m : List (String × ℕ))
      → AllOwned s m
      → Distinct m
      → load k m ≡ some p
      → view (modify p f s).objects m ≡ modify_entry k f (view s.objects m)
  unfolding modify_entry
  view-modify s k p f [] a d l = cc
  view-modify s k p f ((j, q) ∷ m) (o, a) (absent, d) l = elim (String-cases j k) [
    | inl (same, t) ↦
        let at : q ≡ p = cc (rw t at l) in
        let found : nat_eq q p ≡ true = ground (arith, at) in
        let others =
          view-modify_other s k p f m a (Owns-moved s j k q p o same at) (rw same at absent) in
        rw (t, found, others) refl
    | inr (other, t) ↦
        let there : load k m ≡ some p = rw t at l in
        rw (t, apart s j k q p o (load-Owns s k p m a there) other, view-modify s k p f m a d there)
          refl
  ]

  pub modified_object :
      (s : Shared W) (p : ℕ) (f : External → External)
      → ((modify p f s).objects p).external ≡ f (s.objects p).external
  modified_object s p f = let here : nat_eq p p ≡ true = ground arith in rw here refl

  pub unmodified_object :
      (s : Shared W) (q p : ℕ) (f : External → External)
      → nat_eq q p ≡ false
      → ((modify p f s).objects q).external ≡ (s.objects q).external
  unmodified_object s q p f other = rw other refl
