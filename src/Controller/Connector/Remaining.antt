-- ===== src/Controller/Connector/Remaining.antt =====
-- The cache that Disconnect leaves, as a function of the one before.
use mathlib.Core.Option
use provider_temporal.Base.{
  ℕ, zero, suc, ◌≡◌, refl, sym, ◌∙◌, inl, inr, String, String-cases, Bool, true, false, ◌||◌,
  Option, none, some, [], ◌∷◌, if◌then◌else◌, arith,
}
use provider_temporal.Base.Int.{ℤ, pos, negsuc}
use provider_temporal.Controller.Connector.Cache.{External, Clients, load}
use provider_temporal.Controller.Connector.Invariant.{serves, owned, IsCache}

-- A client with one user less; the last one leaves nothing.
abbrev pub less_one : External → ℤ → Option External
less_one e (pos zero) = none
less_one e (pos (suc zero)) = none
less_one e (pos (suc (suc n))) = some (record e { usage_counter = pos (suc n) })
less_one e (negsuc n) = none

abbrev pub one_less : External → Option External
one_less e = less_one e e.usage_counter

abbrev pub keep : String → Option External → Clients → Clients
keep k none m = m
keep k (some e) m = (k, e) ∷ m

-- The cache after Disconnect.
unfoldable pub remaining : Clients → Clients
remaining [] = []
remaining ((k, e) ∷ m) = keep k (one_less e) (remaining m)

-- The connections that Disconnect closes: those of the clients with one user.
unfoldable pub dropped : Clients → ℕ → Bool
dropped [] d = false
dropped ((k, e) ∷ m) d = elim (one_less e) [
  | none ↦ serves e d || dropped m d
  | some _ ↦ dropped m d
]

-- The first entry of a cache, by its number of users.
pub remaining_last :
    (k : String) (e : External) (m : Clients)
    → e.usage_counter ≡ pos 1
    → remaining ((k, e) ∷ m) ≡ remaining m
unfolding remaining
remaining_last k e m q = rw q refl

pub remaining_shared :
    (k : String) (e : External) (m : Clients) (n : ℕ)
    → e.usage_counter ≡ pos (suc (suc n))
    → remaining ((k, e) ∷ m) ≡ (k, record e { usage_counter = pos (suc n) }) ∷ remaining m
unfolding remaining
remaining_shared k e m n q = rw q refl

pub dropped_last :
    (k : String) (e : External) (m : Clients) (d : ℕ)
    → e.usage_counter ≡ pos 1
    → dropped ((k, e) ∷ m) d ≡ (serves e d || dropped m d)
unfolding dropped
dropped_last k e m d q = rw q refl

pub dropped_shared :
    (k : String) (e : External) (m : Clients) (n d : ℕ)
    → e.usage_counter ≡ pos (suc (suc n))
    → dropped ((k, e) ∷ m) d ≡ dropped m d
unfolding dropped
dropped_shared k e m n d q = rw q refl

dropped-owned : (m : Clients) (d : ℕ) → IsCache m → dropped m d ≡ true → owned m d ≡ true
unfolding owned
dropped-owned [] d v t = unfold dropped in t
dropped-owned ((k, e) ∷ m) d (absent, (h, zero, p, q, apart), v) t =
    ground (arith, dropped_last k e m d q, dropped-owned m d v)
dropped-owned ((k, e) ∷ m) d (absent, (h, suc n, p, q, apart), v) t =
    ground (arith, dropped_shared k e m n d q, dropped-owned m d v)

-- A client that is kept serves what it served, and one that is dropped serves nobody.
pub owned-remaining :
    (m : Clients) (d : ℕ)
    → IsCache m
    → owned (remaining m) d ≡ (if dropped m d then false else owned m d)
unfolding owned
owned-remaining [] d v = unfold remaining dropped in refl
owned-remaining ((k, e) ∷ m) d (absent, (h, zero, p, q, apart), v) =
    rw (remaining_last k e m q, dropped_last k e m d q, owned-remaining m d v, p) (ground arith)
owned-remaining ((k, e) ∷ m) d (absent, (h, suc n, p, q, apart), v) =
    rw (remaining_shared k e m n q, dropped_shared k e m n d q)
      (ground (arith, owned-remaining m d v, dropped-owned m d v))

-- Every client has one user less, and is gone if it had one, whoever it was that disconnected.
pub load-remaining :
    (j : String) (m : Clients) → IsCache m → load j (remaining m) ≡ Option.bind (load j m) one_less
unfolding load Option.bind
load-remaining j [] v = unfold remaining in refl
load-remaining j ((k, e) ∷ m) (absent, (h, zero, p, q, apart), v) =
    rw (remaining_last k e m q) (elim (String-cases k j) [
      | inl (same, t) ↦ rw (t, load-remaining j m v, ← same, absent, q) refl
      | inr (other, t) ↦ rw t (load-remaining j m v)
    ])
load-remaining j ((k, e) ∷ m) (absent, (h, suc n, p, q, apart), v) =
    rw (remaining_shared k e m n q) (elim (String-cases k j) [
      | inl (same, t) ↦ rw (t, q) refl
      | inr (other, t) ↦ rw t (load-remaining j m v)
    ])

pub remaining-IsCache : (m : Clients) → IsCache m → IsCache (remaining m)
remaining-IsCache [] v = unfold remaining in tt
remaining-IsCache ((k, e) ∷ m) (absent, (h, zero, p, q, apart), v) =
    rw (remaining_last k e m q) (remaining-IsCache m v)
remaining-IsCache ((k, e) ∷ m) (absent, (h, suc n, p, q, apart), v) =
    rw (remaining_shared k e m n q) (
      rw (load-remaining k m v, absent) (unfold Option.bind in refl),
      (h, n, p, refl, rw (owned-remaining m h v, apart) (ground arith)),
      remaining-IsCache m v,
    )

pub dropped-load :
    (k : String) (e : External) (h : ℕ) (m : Clients)
    → IsCache m
    → load k m ≡ some e
    → e.service ≡ some h
    → e.usage_counter ≡ pos 1
    → dropped m h ≡ true
unfolding load
dropped-load k e h [] v l p q = cc
dropped-load k e h ((j, x) ∷ m) (absent, (i, zero, a, b, apart), v) l p q =
    rw (dropped_last j x m h b) (elim (String-cases j k) [
      | inl (same, t) ↦ let eq : x ≡ e = cc (rw t at l) in rw (eq, p) (ground arith)
      | inr (other, t) ↦ rw (dropped-load k e h m v (rw t at l) p q) (ground arith)
    ])
dropped-load k e h ((j, x) ∷ m) (absent, (i, suc n, a, b, apart), v) l p q =
    rw (dropped_shared j x m n h b) (elim (String-cases j k) [
      | inl (same, t) ↦ let eq : x ≡ e = cc (rw t at l) in absurd (differ (sym b ∙ rw eq q))
      | inr (other, t) ↦ dropped-load k e h m v (rw t at l) p q
    ])
  where
    differ : pos (suc (suc n)) ≡ pos 1 → ⊥
    differ d = ground arith
