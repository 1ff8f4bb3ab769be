-- ===== src/Controller/Connector/Shared/Counters.antt =====
-- The counters of shared clients: below zero by no more than the workers that are about to set them to zero.
use provider_temporal.Base.{
  ℕ, suc, ◌+◌, ◌≤◌, ◌<◌, ◌≡◌, refl, ◌⊎◌, inl, inr, String, Bool-cases, true, false, List, nat_eq,
  if◌then◌else◌, arith,
}
use provider_temporal.Base.Int.{ℤ, pos, negsuc, neg_part, ltb_ℤ, ◌+ℤ◌, ◌-ℤ◌}
use provider_temporal.Controller.Connector.Cache.{
  External, get_usage_counter, set_usage_counter, increment_usage_counter, decrement_usage_counter,
}
use provider_temporal.Controller.Connector.Shared.{
  Shared, modify, allocate, Pc, testing, resetting, Move, fail, make, store, find, close_new, count,
  leave, visit, decrement, negative, not_negative, reset, unused, used, release, remove, finish,
  Step,
}
use provider_temporal.Controller.Connector.Interleaving.{total, OneOf-IsOneMove}

abbrev at : ℕ → ℕ → ℕ
at p q = if nat_eq p q then 1 else 0

-- A worker between the decrement of the client at `p` and the end of its test for a negative counter.
abbrev pub owing : ℕ → Pc → ℕ
owing p (testing seen k q) = at p q
owing p (resetting seen k q) = at p q
owing p _ = 0

module _ {W : Type 0} where
  -- How far the counter of the client at `p` is below zero.
  abbrev pub deficit : Shared W → ℕ → ℕ
  deficit s p = neg_part (s.objects p).external.usage_counter

  abbrev pub IsCounted : Shared W → List Pc → Type 0
  IsCounted s pcs = (p : ℕ) → p < s.next → deficit s p ≤ total (owing p) pcs

  -- A step leaves no deficit, or changes it by no more than what workers owe.
  abbrev IsPaid : Shared W → Pc → Shared W → Pc → ℕ → Type 0
  IsPaid s pc s' pc' p =
      (deficit s' p ≡ 0) ⊎ ((p < s.next) × (deficit s' p + owing p pc ≤ deficit s p + owing p pc'))

neg_part-increment : (z : ℤ) → neg_part (z +ℤ pos 1) ≤ neg_part z
unfolding ◌+ℤ◌
neg_part-increment (pos n) = ground arith
neg_part-increment (negsuc n) = ground arith

neg_part-decrement : (z : ℤ) → neg_part (z -ℤ pos 1) ≤ neg_part z + 1
unfolding ◌-ℤ◌
neg_part-decrement (pos n) = ground arith
neg_part-decrement (negsuc n) = ground arith

not_below : (z : ℤ) → ltb_ℤ z (pos 0) ≡ false → neg_part z ≡ 0
not_below (pos n) t = refl
not_below (negsuc n) t = ground (arith, t)

module _ {W : Type 0} where
  increment_paid :
      (s : Shared W) (q p : ℕ) → deficit (modify q increment_usage_counter s) p ≤ deficit s p
  unfolding increment_usage_counter
  increment_paid s q p = elim (Bool-cases (nat_eq p q)) [
    | inl t ↦ rw t (neg_part-increment (s.objects p).external.usage_counter)
    | inr t ↦ rw t (omega arith)
  ]

  decrement_paid :
      (s : Shared W) (q p : ℕ)
      → deficit (modify q decrement_usage_counter s) p ≤ deficit s p + at p q
  unfolding decrement_usage_counter
  decrement_paid s q p = elim (Bool-cases (nat_eq p q)) [
    | inl t ↦ rw t (neg_part-decrement (s.objects p).external.usage_counter)
    | inr t ↦ rw t (omega arith)
  ]

  allocate_paid :
      (s : Shared W) (k : String) (e : External) (p : ℕ)
      → e.usage_counter ≡ pos 0
      → p < suc s.next
      → (deficit (allocate k e s) p ≡ 0)
        ⊎ ((p < s.next) × (deficit (allocate k e s) p ≤ deficit s p))
  allocate_paid s k e p q below = elim (Bool-cases (nat_eq p s.next)) [
    | inl t ↦ inl (rw (t, q) refl)
    | inr t ↦ inr (rw t (ground (arith, t, below), omega arith))
  ]

  reset_paid :
      (s : Shared W) (q p : ℕ)
      → (deficit (modify q (set_usage_counter (pos 0)) s) p ≡ 0)
        ⊎ ((at p q ≡ 0) × (deficit (modify q (set_usage_counter (pos 0)) s) p ≡ deficit s p))
  unfolding set_usage_counter
  reset_paid s q p = elim (Bool-cases (nat_eq p q)) [
    | inl t ↦ inl (rw t refl)
    | inr t ↦ inr (rw t (refl, refl))
  ]

  same_counter : (s : Shared W) (q p : ℕ) → nat_eq p q ≡ true → deficit s q ≡ 0 → deficit s p ≡ 0
  same_counter s q p t z = let same : p ≡ q = ground (arith, t) in rw same z

  tested_paid :
      (s : Shared W) (q p : ℕ)
      → ltb_ℤ (get_usage_counter (s.objects q).external) (pos 0) ≡ false
      → (deficit s p ≡ 0) ⊎ (at p q ≡ 0)
  unfolding get_usage_counter
  tested_paid s q p l = elim (Bool-cases (nat_eq p q)) [
    | inl t ↦ inl (same_counter s q p t (not_below (s.objects q).external.usage_counter l))
    | inr t ↦ inr (rw t refl)
  ]

  Move-IsPaid :
      {close : ℕ → W → W} {s s' : Shared W} {pc pc' : Pc} (p : ℕ)
      → p < s'.next
      → Move close s pc s' pc'
      → IsPaid s pc s' pc' p
  Move-IsPaid {s} p below (fail w) = inr (below, omega arith)
  Move-IsPaid {s} p below (make k e h w _ q) =
      elim (allocate_paid (record s { world = w }) k e p q below) [
        | inl z ↦ inl z
        | inr (b, t) ↦ inr (b, omega (arith, t))
      ]
  Move-IsPaid {s} p below (store _) = inr (below, omega arith)
  Move-IsPaid {s} p below (find _) = inr (below, omega arith)
  Move-IsPaid {s} p below (close_new _) = inr (below, omega arith)
  Move-IsPaid {s} p below (count {p = q}) = inr (below, omega (arith, increment_paid s q p))
  Move-IsPaid {s} p below leave = inr (below, omega arith)
  Move-IsPaid {s} p below (visit _ _) = inr (below, omega arith)
  Move-IsPaid {s} p below (decrement {p = q}) = inr (below, omega (arith, decrement_paid s q p))
  Move-IsPaid {s} p below (negative _) = inr (below, omega arith)
  Move-IsPaid {s} p below (not_negative {p = q} l) = elim (tested_paid s q p l) [
    | inl z ↦ inl z
    | inr z ↦ inr (below, omega (arith, z))
  ]
  Move-IsPaid {s} p below (reset {p = q}) = elim (reset_paid s q p) [
    | inl z ↦ inl z
    | inr (z, t) ↦ inr (below, omega (arith, z, t))
  ]
  Move-IsPaid {s} p below (unused _) = inr (below, omega arith)
  Move-IsPaid {s} p below (used _) = inr (below, omega arith)
  Move-IsPaid {s} p below (release _) = inr (below, omega arith)
  Move-IsPaid {s} p below remove = inr (below, omega arith)
  Move-IsPaid {s} p below finish = inr (below, omega arith)

  pub Step-IsCounted :
      {close : ℕ → W → W} {s s' : Shared W} {pcs pcs' : List Pc}
      → Step close s pcs s' pcs'
      → IsCounted s pcs
      → IsCounted s' pcs'
  Step-IsCounted {close} step counted p below =
      let one = OneOf-IsOneMove step in
      elim (Move-IsPaid p below one.move) [
        | inl z ↦ omega (arith, z)
        | inr (b, t) ↦ omega (arith, t, counted p b, one.exchange (owing p))
      ]
