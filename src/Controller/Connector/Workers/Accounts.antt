-- ===== src/Controller/Connector/Workers/Accounts.antt =====
-- Whose an open connection is while Connects are under way: that of a client of the cache, or of a service
-- that a worker has made and not stored.
use provider_temporal.Base.{
  ℕ, ◌+◌, ◌≤◌, ◌≡◌, refl, ap, inl, inr, String, Bool, true, false, ◌||◌, Bool-cases, Option-cases,
  some, none, [], ◌∷◌, nat_eq, ◌==◌, arith,
}
use provider_temporal.Base.Int.{pos}
use provider_temporal.Controller.Connector.Cache.{
  External, Clients, load, load_or_store, modify_entry, increment_usage_counter,
}
use provider_temporal.Controller.Connector.Invariant.{serves, owned, Connections}
use provider_temporal.Controller.Connector.Checkout.{service-increment}
use provider_temporal.Controller.Connector.Workers.{
  Pc, made, closing, Move, fail, make, store, find, close_new, count,
}

-- LoadOrStore by what it says.
pub stored_lem :
    (k : String) (ext stored : External) (m m' : Clients)
    → load_or_store k ext m ≡ (stored, false, m')
    → (load k m ≡ none) × (m' ≡ (k, ext) ∷ m)
unfolding load_or_store
stored_lem k ext stored m m' q = elim (Option-cases (load k m)) [
  | inl e ↦ (e, cc (rw e at q))
  | inr (old, e) ↦ cc (rw e at q)
]

pub found_lem :
    (k : String) (ext stored : External) (m m' : Clients)
    → load_or_store k ext m ≡ (stored, true, m')
    → (load k m ≡ some stored) × (m' ≡ m)
unfolding load_or_store
found_lem k ext stored m m' q = elim (Option-cases (load k m)) [
  | inl e ↦ cc (rw e at q)
  | inr (old, e) ↦ (cc (rw e at q), cc (rw e at q))
]

abbrev pub bit : Bool → ℕ
bit false = 0
bit true = 1

-- How many clients of the cache have the connection `d`.
unfoldable pub entries : Clients → ℕ → ℕ
entries [] d = 0
entries ((k, e) ∷ m) d = bit (serves e d) + entries m d

-- Whether a worker has made the connection `d` and neither stored nor closed it.
abbrev pub pending : ℕ → Pc → ℕ
pending d (made k ext) = bit (serves ext d)
pending d (closing k ext) = bit (serves ext d)
pending d _ = 0

-- What a worker holds that is not in the cache is a service without users.
abbrev pub HasService : Pc → Type 0
HasService (made k ext) = ((h : ℕ) × (ext.service ≡ some h)) × (ext.usage_counter ≡ pos 0)
HasService (closing k ext) = (h : ℕ) × (ext.service ≡ some h)
HasService _ = Unit

entries-modify_entry :
    (k : String) (m : Clients) (d : ℕ)
    → entries (modify_entry k increment_usage_counter m) d ≡ entries m d
unfolding entries modify_entry
entries-modify_entry k [] d = refl
entries-modify_entry k ((i, e) ∷ m) d = elim (Bool-cases (i == k)) [
  | inl t ↦ rw t (rw (service-increment e) refl)
  | inr t ↦ rw t (ap (λ n. bit (serves e d) + n) (entries-modify_entry k m d))
]

module _ {W : Type 0} {close : ℕ → W → W} (c : Connections close) where
  opened_lem :
      (d h : ℕ) (w w1 : W) (o : Bool)
      → o ≡ nat_eq d h
      → c.is_open w h ≡ false
      → ((d : ℕ) → c.is_open w1 d ≡ (nat_eq d h || c.is_open w d))
      → bit o + bit (c.is_open w d) ≡ bit (c.is_open w1 d)
  opened_lem d h w w1 o e shut opened = elim (Bool-cases (nat_eq d h)) [
    | inl t ↦
        let same : d ≡ h = ground arith in rw (opened d, e, t) (rw (same, shut) (ground arith))
    | inr t ↦ rw (opened d, e, t) (ground arith)
  ]

  closed_lem :
      (d h n n' : ℕ) (w : W)
      → n' + bit (nat_eq d h) ≡ n
      → n ≡ bit (c.is_open w d)
      → n' ≡ bit (c.is_open (close h w) d)
  closed_lem d h n n' w p q = rw (c.close_lem h d w) (ground arith)

  -- A step keeps the account, for `p` and `p'` workers with `d` before and after it.
  pub Move-accounted :
      {m m' : Clients} {w w' : W} {b a : Pc} (d p p' : ℕ)
      → Move c m w b m' w' a
      → HasService b
      → p' + pending d b ≡ p + pending d a
      → entries m d + p ≡ bit (c.is_open w d)
      → entries m' d + p' ≡ bit (c.is_open w' d)
  Move-accounted d p p' fail _ x e = omega (arith, x, e)
  Move-accounted {m} {w = w} d p p' (make {w1} k ext f) _ x e =
      let o = opened_lem d f.handle w w1 (serves ext d) (rw f.served refl) f.closed f.opened in
      omega (arith, x, e, o)
  Move-accounted {m} {m'} {w} d p p' (store {k} {ext} {stored} q) _ x e =
      let (_, now) = stored_lem k ext stored m m' q in
      rw now (unfold entries in omega (arith, x, e))
  Move-accounted {m} {m'} {w} d p p' (find {k} {ext} {stored} q) _ x e =
      let (_, now) = found_lem k ext stored m m' q in rw now (omega (arith, x, e))
  Move-accounted {m} {w = w} d p p' (close_new {k} {ext} {w1} q) (h, s) x e =
      let done : close h w ≡ w1 = cc (rw s at q) in
      let taken : p' + bit (nat_eq d h) ≡ p = omega (arith, rw s at x) in
      rw (← done) (closed_lem d h (entries m d + p) (entries m d + p') w (omega (arith, taken)) e)
  Move-accounted {m} d p p' (count {k}) _ x e =
      rw (entries-modify_entry k m d) (omega (arith, x, e))

-- A connection that is one client's is the cache's, and no other.
pub owned-entries : (m : Clients) (d : ℕ) → entries m d ≤ 1 → bit (owned m d) ≡ entries m d
unfolding owned entries
owned-entries [] d le = refl
owned-entries ((k, e) ∷ m) d le = elim (Bool-cases (serves e d)) [
  | inl t ↦
      let rest = owned-entries m d (ground (arith, rw t at le)) in
      rw t (ground (arith, rw t at le, rest))
  | inr t ↦ rw t (omega (arith, owned-entries m d (ground (arith, rw t at le))))
]
