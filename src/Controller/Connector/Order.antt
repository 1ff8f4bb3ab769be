-- ===== src/Controller/Connector/Order.antt =====
-- Disconnect and the order in which Range visits the keys, which sync.Map leaves open.
use mathlib.Core.Option
use provider_temporal.Base.{
  ℕ, ◌≡◌, refl, sym, ap, ◌∙◌, inl, inr, String, String-cases, true, Bool-cases, some, none, [], ◌∷◌,
  eq_refl, arith,
}
use provider_temporal.Go.Effects.{ok}
use provider_temporal.Controller.Connector.Cache.{External, Clients, load, disconnect}
use provider_temporal.Controller.Connector.Invariant.{
  serves, owned, IsCache, Connections, IsExactly,
}
use provider_temporal.Controller.Connector.Remaining.{
  remaining, one_less, load-remaining, remaining-IsCache, owned-remaining,
}
use provider_temporal.Controller.Connector.Disconnect.{disconnect-remaining}

-- A connection of a cache is that of some key's client.
owned-load :
    (m : Clients) (d : ℕ)
    → IsCache m
    → owned m d ≡ true
    → (k : String) × (e : External) × (load k m ≡ some e) × (serves e d ≡ true)
unfolding owned load
owned-load [] d v o = cc
owned-load ((k, e) ∷ m) d (absent, _, v) o = elim (Bool-cases (serves e d)) [
  | inl t ↦ (k, e, rw (eq_refl k) refl, t)
  | inr t ↦
      let (j, x, l, s) = owned-load m d v (rw t at o) in
      (
        j,
        x,
        elim (String-cases k j) [
          | inl (same, _) ↦ let no : none ≡ some x = cc in absurd (ground arith)
          | inr (other, u) ↦ rw u l
        ],
        s,
      )
]

load-owned :
    (m : Clients) (k : String) (e : External) (d : ℕ)
    → load k m ≡ some e
    → serves e d ≡ true
    → owned m d ≡ true
unfolding owned load
load-owned [] k e d l s = cc
load-owned ((j, x) ∷ m) k e d l s = elim (String-cases j k) [
  | inl (same, t) ↦ let eq : x ≡ e = cc (rw t at l) in rw (eq, s) (ground arith)
  | inr (other, t) ↦ rw (load-owned m k e d (rw t at l) s) (ground arith)
]

-- Two caches that give each key the same client.
abbrev pub Agree : Clients → Clients → Type 0
Agree m n = (k : String) → load k m ≡ load k n

owned_included :
    (m n : Clients) (d : ℕ) → IsCache m → Agree m n → owned m d ≡ true → owned n d ≡ true
owned_included m n d v same o =
    let (k, e, l, s) = owned-load m d v o in load-owned n k e d (sym (same k) ∙ l) s

owned-Agree : (m n : Clients) (d : ℕ) → IsCache m → IsCache n → Agree m n → owned m d ≡ owned n d
owned-Agree m n d v u same = elim (Bool-cases (owned m d)) [
  | inl t ↦ t ∙ sym (owned_included m n d v same t)
  | inr f ↦ elim (Bool-cases (owned n d)) [
    | inl t ↦ absurd (ground (arith, f, owned_included n m d u (λ k. sym (same k)) t))
    | inr g ↦ f ∙ sym g
  ]
]

module _ {W : Type 0} {close : ℕ → W → W} (c : Connections close) where
  -- Two well-formed caches that give each key the same client, in whatever order, and whose
  -- connections are just the open ones: Disconnect succeeds for both, and again they give each key
  -- the same client and leave the same connections open.
  pub disconnect_in_any_order :
      (m n : Clients) (w : W)
      → IsCache m
      → IsCache n
      → Agree m n
      → IsExactly c w m
      → (m' : Clients) × (n' : Clients) × (w1 : W) × (w2 : W) × (disconnect close m w ≡ (ok m', w1))
        × (disconnect close n w ≡ (ok n', w2))
        × Agree m' n'
        × ((d : ℕ) → c.is_open w1 d ≡ c.is_open w2 d)
  disconnect_in_any_order m n w v u same exact =
      let (w1, first, closed) = disconnect-remaining c m w v in
      let (w2, second, closed2) = disconnect-remaining c n w u in
      let alike : Agree (remaining m) (remaining n) = λ k.
        load-remaining k m v
        ∙ ap (λ o. Option.bind o one_less) (same k)
        ∙ sym (load-remaining k n u) in
      let here : (d : ℕ) → c.is_open w1 d ≡ owned (remaining m) d =
        λ d. closed d ∙ rw (exact d) (sym (owned-remaining m d v)) in
      let there : (d : ℕ) → c.is_open w2 d ≡ owned (remaining n) d =
        λ d. closed2 d ∙ rw (exact d ∙ owned-Agree m n d v u same) (sym (owned-remaining n d u)) in
      (
        remaining m,
        remaining n,
        w1,
        w2,
        first,
        second,
        alike,
        λ d.
            here d
            ∙ owned-Agree (remaining m) (remaining n) d (remaining-IsCache m v)
                (remaining-IsCache n u) alike
            ∙ sym (there d),
      )
