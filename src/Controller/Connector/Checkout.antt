-- ===== src/Controller/Connector/Checkout.antt =====
-- What Connect does to a cache.
use mathlib.Core.Option
use provider_temporal.Base.{
  ℕ, suc, ◌≡◌, refl, sym, ap, ◌∙◌, inl, inr, String, String-cases, false, ◌||◌, Bool-cases, Option,
  Option-cases, none, some, [], ◌∷◌, if◌then◌else◌, ◌==◌, nat_eq, eq_iff, eq_refl, arith,
}
use provider_temporal.Base.Int.{pos}
use provider_temporal.Go.Effects.{Result, ok, err, panic}
use provider_temporal.Controller.Connector.Cache.{
  External, Clients, load, modify_entry, increment_usage_counter, checkout,
}
use provider_temporal.Controller.Connector.Invariant.{
  serves, owned, IsCache, Connections, IsExactly,
}

pub increment_held :
    (e : External) (n : ℕ)
    → e.usage_counter ≡ pos n
    → (increment_usage_counter e).usage_counter ≡ pos (suc n)
unfolding increment_usage_counter
increment_held e n q = rw q (ground arith)

pub service-increment : (e : External) → (increment_usage_counter e).service ≡ e.service
unfolding increment_usage_counter
service-increment e = refl

pub load-modify_entry :
    (k j : String) (f : External → External) (m : Clients)
    → load j (modify_entry k f m) ≡ (if k == j then Option.map f (load j m) else load j m)
unfolding load modify_entry
load-modify_entry k j f [] = ground arith
load-modify_entry k j f ((i, e) ∷ m) =
    ground (arith, eq_iff i k, eq_iff i j, eq_iff k j, load-modify_entry k j f m)

-- The key's own client has a user more, the others are as before.
pub load-incremented :
    (k j : String) (old : External) (m : Clients)
    → load k m ≡ some old
    → load j (modify_entry k increment_usage_counter m)
      ≡ (if k == j then some (increment_usage_counter old) else load j m)
load-incremented k j old m e =
    load-modify_entry k j increment_usage_counter m ∙ elim (String-cases k j) [
      | inl (same, t) ↦ rw (t, ← same, e) refl
      | inr (other, t) ↦ rw t refl
    ]

owned_first :
    (k : String) (e : External) (h : ℕ) (m : Clients) (d : ℕ)
    → e.service ≡ some h
    → owned ((k, increment_usage_counter e) ∷ m) d ≡ (nat_eq d h || owned m d)
unfolding owned
owned_first k e h m d p = rw (service-increment e, p) refl

owned-modify_entry :
    (k : String) (m : Clients) (d : ℕ)
    → owned (modify_entry k increment_usage_counter m) d ≡ owned m d
unfolding owned modify_entry
owned-modify_entry k [] d = refl
owned-modify_entry k ((i, e) ∷ m) d = elim (Bool-cases (i == k)) [
  | inl t ↦ rw t (rw (service-increment e) refl)
  | inr t ↦ rw t (ap (λ b. serves e d || b) (owned-modify_entry k m d))
]

modify_entry-IsCache :
    (k : String) (m : Clients) → IsCache m → IsCache (modify_entry k increment_usage_counter m)
unfolding modify_entry
modify_entry-IsCache k [] v = tt
modify_entry-IsCache k ((i, e) ∷ m) (absent, (h, n, p, q, apart), v) = elim (Bool-cases (i == k)) [
  | inl t ↦ rw t (absent, (h, suc n, service-increment e ∙ p, increment_held e (suc n) q, apart), v)
  | inr t ↦ rw t (
    rw (load-modify_entry k i increment_usage_counter m, absent) (ground arith),
    (h, n, p, q, owned-modify_entry k m h ∙ apart),
    modify_entry-IsCache k m v,
  )
]

-- The client that a key has, or else the one that was just made.
abbrev pub existing : Option External → External → External
existing none fresh = fresh
existing (some old) fresh = old

module _ {W : Type 0} (close : ℕ → W → W) where
  checkout-none :
      (k : String) (fresh : External) (m : Clients) (w : W)
      → load k m ≡ none
      → checkout close k fresh m w
        ≡ (ok (increment_usage_counter fresh, (k, increment_usage_counter fresh) ∷ m), w)
  unfolding checkout modify_entry
  checkout-none k fresh m w e = rw (e, eq_refl k) refl

  checkout-some :
      (k : String) (fresh old : External) (h : ℕ) (m : Clients) (w : W)
      → fresh.service ≡ some h
      → load k m ≡ some old
      → checkout close k fresh m w
        ≡ (ok (increment_usage_counter old, modify_entry k increment_usage_counter m), close h w)
  unfolding checkout
  checkout-some k fresh old h m w p e = rw (e, p) refl

module _ {W : Type 0} {close : ℕ → W → W} (c : Connections close) where
  abbrev pub Checks : String → External → Clients → Result (External × Clients) × W → Type 0
  Checks k fresh m (ok (ext, m'), w') =
      IsCache m'
      × IsExactly c w' m'
      × (ext ≡ increment_usage_counter (existing (load k m) fresh))
      × ((j : String) → load j m' ≡ (if k == j then some ext else load j m))
  Checks k fresh m (err e, w') = ⊥
  Checks k fresh m (panic, w') = ⊥

  -- A new client with a connection that was not open before, and no user yet.
  pub record IsFresh (fresh : External) (m : Clients) (w : W) : Type 0 where
    pub handle : ℕ
    pub served : fresh.service ≡ some handle
    pub unused : fresh.usage_counter ≡ pos 0
    pub apart : owned m handle ≡ false
    pub opened : (d : ℕ) → c.is_open w d ≡ (nat_eq d handle || owned m d)

  checkout_stored :
      (k : String) (fresh : External) (m : Clients) (w : W)
      → IsCache m
      → IsFresh fresh m w
      → load k m ≡ none
      → Checks k fresh m (checkout close k fresh m w)
  unfolding modify_entry
  checkout_stored k fresh m w v f e = rw (checkout-none close k fresh m w e) (
    (
      e,
      (f.handle, 0, service-increment fresh ∙ f.served, increment_held fresh 0 f.unused, f.apart),
      v,
    ),
    λ d. f.opened d ∙ sym (owned_first k fresh f.handle m d f.served),
    rw e refl,
    λ j. unfold load in refl,
  )

  checkout_loaded :
      (k : String) (fresh old : External) (m : Clients) (w : W)
      → IsCache m
      → IsFresh fresh m w
      → load k m ≡ some old
      → Checks k fresh m (checkout close k fresh m w)
  checkout_loaded k fresh old m w v f e =
      rw (checkout-some close k fresh old f.handle m w f.served e) (
        modify_entry-IsCache k m v,
        (λ d.
            ground
              (arith, c.close_lem f.handle d w, f.opened d, f.apart, owned-modify_entry k m d)),
        rw e refl,
        λ j. load-incremented k j old m e,
      )

  -- From a well-formed cache, and a new client whose connection is open beside those of the cache,
  -- Connect succeeds from LoadOrStore on, the cache is well-formed and its connections just the
  -- open ones, and the key's client has a user more: the one that was there, or else the new one.
  -- Other keys keep theirs.
  pub checkout-Checks :
      (k : String) (fresh : External) (m : Clients) (w : W)
      → IsCache m
      → IsFresh fresh m w
      → Checks k fresh m (checkout close k fresh m w)
  checkout-Checks k fresh m w v f = elim (Option-cases (load k m)) [
    | inl e ↦ checkout_stored k fresh m w v f e
    | inr (old, e) ↦ checkout_loaded k fresh old m w v f e
  ]
