-- ===== src/Controller/Connector/Shared/Ownership.antt =====
-- Whose client a worker holds: objects keep their origin and their service, and every address that a worker or
-- the map holds for a key is of an object that was made for the key.
use provider_temporal.Base.{
  ℕ, ◌≤◌, ◌<◌, ◌≡◌, ◌∙◌, sym, inl, inr, String, String-cases, Bool-cases, true, some, List, [], ◌∷◌,
  ◌==◌, nat_eq, arith,
}
use provider_temporal.Controller.Connector.Cache.{External}
use provider_temporal.Controller.Connector.Shared.{Shared, load, delete, IsIn, modify, allocate}

abbrev HasService : External → Type 0
HasService e = (h : ℕ) × (e.service ≡ some h)

differs : (p q : ℕ) → nat_eq p q ≡ true → p < q → ⊥
differs p q t below = ground (arith, below, t)

module _ {W : Type 0} where
  -- `p` is the address of an object that was made for `k`.
  pub record Owns (s : Shared W) (k : String) (p : ℕ) : Type 0 where
    pub used : p < s.next
    pub mine : (s.objects p).origin ≡ k
    pub served : HasService (s.objects p).external

  -- What a step leaves of the objects.
  pub record Extends (s s' : Shared W) : Type 0 where
    pub more : s.next ≤ s'.next
    pub kept :
        (k : String) (p : ℕ)
        → Owns s k p
        → ((s'.objects p).origin ≡ k) × HasService (s'.objects p).external

  pub Owns-Extends :
      (s s' : Shared W) (k : String) (p : ℕ) → Extends s s' → Owns s k p → Owns s' k p
  Owns-Extends s s' k p grown o = record {
    used = omega (arith, grown.more, o.used);
    mine = (grown.kept k p o).0;
    served = (grown.kept k p o).1;
  }

  -- Every entry of the map is of an object that was made for the entry's key.
  abbrev pub AllOwned : Shared W → List (String × ℕ) → Type 0
  AllOwned s [] = Unit
  AllOwned s ((k, p) ∷ m) = Owns s k p × AllOwned s m

  pub AllOwned-Extends :
      (s s' : Shared W) (m : List (String × ℕ)) → Extends s s' → AllOwned s m → AllOwned s' m
  AllOwned-Extends s s' [] grown a = tt
  AllOwned-Extends s s' ((k, p) ∷ m) grown (o, a) =
      (Owns-Extends s s' k p grown o, AllOwned-Extends s s' m grown a)

  pub Owns-moved : (s : Shared W) (j k : String) (q p : ℕ) → Owns s j q → j ≡ k → q ≡ p → Owns s k p
  Owns-moved s j k q p o same there = rw (sym same, sym there) o

  pub load-Owns :
      (s : Shared W) (k : String) (p : ℕ) (m : List (String × ℕ))
      → AllOwned s m
      → load k m ≡ some p
      → Owns s k p
  load-Owns s k p [] a l = cc
  load-Owns s k p ((j, q) ∷ m) (o, a) l = elim (String-cases j k) [
    | inl (same, t) ↦ Owns-moved s j k q p o same (cc (rw t at l))
    | inr (other, t) ↦ load-Owns s k p m a (rw t at l)
  ]

  pub IsIn-Owns :
      (s : Shared W) (k : String) (p : ℕ) (m : List (String × ℕ))
      → AllOwned s m
      → IsIn (k, p) m
      → Owns s k p
  IsIn-Owns s k p [] a i = elim i [ ]
  IsIn-Owns s k p ((j, q) ∷ m) (o, a) (inl same) = Owns-moved s j k q p o (cc same) (cc same)
  IsIn-Owns s k p ((j, q) ∷ m) (o, a) (inr i) = IsIn-Owns s k p m a i

  pub delete-AllOwned :
      (s : Shared W) (k : String) (m : List (String × ℕ)) → AllOwned s m → AllOwned s (delete k m)
  delete-AllOwned s k [] a = tt
  delete-AllOwned s k ((j, q) ∷ m) (o, a) =
      let rest = delete-AllOwned s k m a in
      elim (Bool-cases (j == k)) [ inl t ↦ rw t rest | inr t ↦ rw t (o, rest) ]

  pub modify-Extends :
      (s : Shared W) (p : ℕ) (f : External → External)
      → ((e : External) → (f e).service ≡ e.service)
      → Extends s (modify p f s)
  modify-Extends s p f same = record {
    more = omega arith;
    kept = λ k q o. elim (Bool-cases (nat_eq q p)) [
      | inl t ↦ rw t (o.mine, (o.served.0, same (s.objects q).external ∙ o.served.1))
      | inr t ↦ rw t (o.mine, o.served)
    ];
  }

  pub allocate-Extends : (s : Shared W) (k : String) (e : External) → Extends s (allocate k e s)
  allocate-Extends s k e = record {
    more = omega arith;
    kept = λ j q o. elim (Bool-cases (nat_eq q s.next)) [
      | inl t ↦ elim (differs q s.next t o.used) [ ]
      | inr t ↦ rw t (o.mine, o.served)
    ];
  }
