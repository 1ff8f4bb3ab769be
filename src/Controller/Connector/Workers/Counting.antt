-- ===== src/Controller/Connector/Workers/Counting.antt =====
-- What a step of a worker does to the keys of the cache and to the counters of their clients.
use provider_temporal.Base.{
  ℕ, ◌+◌, ◌≤◌, ◌≡◌, refl, sym, ap, ◌∙◌, inl, inr, String, String-cases, Bool-cases, some, none,
  List, [], ◌∷◌, ◌==◌, eq_refl, All, arith,
}
use provider_temporal.Base.Int.{pos}
use provider_temporal.Controller.Connector.Cache.{
  External, Clients, load, modify_entry, increment_usage_counter,
}
use provider_temporal.Controller.Connector.Invariant.{Connections}
use provider_temporal.Controller.Connector.Checkout.{
  service-increment, increment_held, load-modify_entry, load-incremented,
}
use provider_temporal.Controller.Connector.Workers.{
  Pc, idle, made, closing, counting, working, Move, fail, make, store, find, close_new, count,
}
use provider_temporal.Controller.Connector.Interleaving.{total}
use provider_temporal.Controller.Connector.Workers.Accounts.{bit, HasService, stored_lem, found_lem}

abbrev pub IsStored : String → Clients → Type 0
IsStored k m = (e : External) × (load k m ≡ some e)

-- A worker past LoadOrStore has its client in the cache.
abbrev pub HasClient : Clients → Pc → Type 0
HasClient m idle = Unit
HasClient m (made k ext) = Unit
HasClient m (closing k ext) = IsStored k m
HasClient m (counting k) = IsStored k m
HasClient m (working k) = IsStored k m

-- A user of the key's client.
abbrev pub user : String → Pc → ℕ
user k (working j) = bit (j == k)
user k _ = 0

-- A worker that has the key's client, counted or not.
abbrev pub holder : String → Pc → ℕ
holder k (closing j ext) = bit (j == k)
holder k (counting j) = bit (j == k)
holder k (working j) = bit (j == k)
holder k _ = 0

abbrev pub Distinct : Clients → Type 0
Distinct [] = Unit
Distinct ((k, e) ∷ m) = (load k m ≡ none) × Distinct m

-- Each client has a service, the counter that `u` says and a holder by `g`.
abbrev pub Counted : Clients → (String → ℕ) → (String → ℕ) → Type 0
Counted m u g =
    (k : String) (e : External)
    → load k m ≡ some e
    → ((h : ℕ) × (e.service ≡ some h)) × (e.usage_counter ≡ pos (u k)) × (1 ≤ g k)

user-none : (k : String) (m : Clients) (pc : Pc) → load k m ≡ none → HasClient m pc → user k pc ≡ 0
user-none k m idle absent q = refl
user-none k m (made j ext) absent q = refl
user-none k m (closing j ext) absent q = refl
user-none k m (counting j) absent q = refl
user-none k m (working j) absent (e, q) = elim (String-cases j k) [
  | inl (same, t) ↦
      let eq : none ≡ some e = sym absent ∙ ap (λ i. load i m) (sym same) ∙ q in
      absurd (ground arith)
  | inr (other, t) ↦ rw t refl
]

-- A key without a client has no users.
pub total-user-none :
    (k : String) (m : Clients) (pcs : List Pc)
    → load k m ≡ none
    → All (HasClient m) pcs
    → total (user k) pcs ≡ 0
unfolding total
total-user-none k m [] absent a = refl
total-user-none k m (pc ∷ pcs) absent (q, a) =
    omega (arith, user-none k m pc absent q, total-user-none k m pcs absent a)

Distinct-modify_entry :
    (k : String) (m : Clients) → Distinct m → Distinct (modify_entry k increment_usage_counter m)
unfolding modify_entry
Distinct-modify_entry k [] d = tt
Distinct-modify_entry k ((i, e) ∷ m) (absent, d) = elim (Bool-cases (i == k)) [
  | inl t ↦ rw t (absent, d)
  | inr t ↦ rw t (
    rw (load-modify_entry k i increment_usage_counter m, absent) (ground arith),
    Distinct-modify_entry k m d,
  )
]

module _ (m : Clients) (u u' g g' : String → ℕ) where
  Counted-alike :
      ((k : String) → u' k ≡ u k) → ((k : String) → g k ≤ g' k) → Counted m u g → Counted m u' g'
  Counted-alike same more n k e l =
      let (s, counted, held) = n k e l in
      let more_k = more k in (s, rw (same k) counted, omega (arith, held, more_k))

module _ (k : String) (ext : External) (m : Clients) (u u' g g' : String → ℕ) where
  Counted-stored :
      ((h : ℕ) × (ext.service ≡ some h))
      → ext.usage_counter ≡ pos 0
      → u k ≡ 0
      → ((j : String) → u' j ≡ u j)
      → ((j : String) → g' j ≡ g j + bit (k == j))
      → Counted m u g
      → Counted ((k, ext) ∷ m) u' g'
  unfolding load
  Counted-stored s z unused same more n j e l = elim (String-cases k j) [
    | inl (key, t) ↦
        let eq : ext ≡ e = cc (rw t at l) in
        let more_j = more j in
        rw (← eq) (s, z ∙ rw (same j, ← key, unused) refl, rw (more_j, t) (omega arith))
    | inr (other, t) ↦
        let (service, counted, held) = n j e (rw t at l) in
        (service, rw (same j) counted, rw (more j) (omega (arith, held)))
  ]

module _ (k : String) (old : External) (m : Clients) (u u' g g' : String → ℕ) where
  Counted-incremented :
      load k m ≡ some old
      → ((j : String) → u' j ≡ u j + bit (k == j))
      → ((j : String) → g' j ≡ g j)
      → Counted m u g
      → Counted (modify_entry k increment_usage_counter m) u' g'
  Counted-incremented there more same n j e l = elim (String-cases k j) [
    | inl (key, t) ↦
        let (service, counted, held) = n k old there in
        let eq : increment_usage_counter old ≡ e =
          cc (rw t at (sym (load-incremented k j old m there) ∙ l)) in
        rw (← eq) (
          (service.0, service-increment old ∙ service.1),
          increment_held old (u k) counted ∙ rw (more j, t, ← key) (ap pos (omega arith)),
          rw (same j, ← key) held,
        )
    | inr (other, t) ↦
        let (service, counted, held) =
          n j e (rw t at (sym (load-incremented k j old m there) ∙ l)) in
        (service, rw (more j, t) (counted ∙ ap pos (omega arith)), rw (same j) held)
  ]

IsStored-modify_entry :
    (k j : String) (m : Clients)
    → IsStored j m
    → IsStored j (modify_entry k increment_usage_counter m)
IsStored-modify_entry k j m (e, s) = elim (Bool-cases (k == j)) [
  | inl t ↦
      (increment_usage_counter e, load-modify_entry k j increment_usage_counter m ∙ rw (t, s) refl)
  | inr t ↦ (e, load-modify_entry k j increment_usage_counter m ∙ rw (t, s) refl)
]

module _ {W : Type 0} {close : ℕ → W → W} (c : Connections close) where
  pub Move-IsStored :
      {m m' : Clients} {w w' : W} {b a : Pc}
      → Move c m w b m' w' a
      → (j : String) → IsStored j m
      → IsStored j m'
  Move-IsStored fail j s = s
  Move-IsStored (make k ext f) j s = s
  Move-IsStored {m} {m'} (store {k} {ext} {stored} q) j (e, s) =
      let (_, now) = stored_lem k ext stored m m' q in
      rw now (
        unfold load in
        elim (String-cases k j) [ inl (same, t) ↦ (ext, rw t refl) | inr (other, t) ↦ (e, rw t s) ])
  Move-IsStored {m} {m'} (find {k} {ext} {stored} q) j s = rw ((found_lem k ext stored m m' q).1) s
  Move-IsStored (close_new q) j s = s
  Move-IsStored {m} (count {k}) j s = IsStored-modify_entry k j m s

  pub Move-HasClient :
      {m m' : Clients} {w w' : W} {b a : Pc}
      → Move c m w b m' w' a
      → HasService b
      → HasClient m b
      → HasService a × HasClient m' a
  Move-HasClient fail s q = (tt, tt)
  Move-HasClient (make k ext f) s q = (((f.handle, f.served), f.unused), tt)
  Move-HasClient {m} {m'} (store {k} {ext} {stored} q) s _ =
      let (_, now) = stored_lem k ext stored m m' q in
      (tt, (ext, rw now (unfold load in rw (eq_refl k) refl)))
  Move-HasClient {m} {m'} (find {k} {ext} {stored} q) (s, _) _ =
      let (there, now) = found_lem k ext stored m m' q in (s, (stored, rw now there))
  Move-HasClient (close_new q) s there = (tt, there)
  Move-HasClient {m} (count {k}) s there = (tt, IsStored-modify_entry k k m there)

  pub Move-Distinct :
      {m m' : Clients} {w w' : W} {b a : Pc} → Move c m w b m' w' a → Distinct m → Distinct m'
  Move-Distinct fail d = d
  Move-Distinct (make k ext f) d = d
  Move-Distinct {m} {m'} (store {k} {ext} {stored} q) d =
      let (absent, now) = stored_lem k ext stored m m' q in rw now (absent, d)
  Move-Distinct {m} {m'} (find {k} {ext} {stored} q) d = rw ((found_lem k ext stored m m' q).1) d
  Move-Distinct (close_new q) d = d
  Move-Distinct {m} (count {k}) d = Distinct-modify_entry k m d

  -- A step keeps the counters, for users `u` and holders `g` before it and `u'` and `g'` after it.
  pub Move-Counted :
      {m m' : Clients} {w w' : W} {b a : Pc} (u u' g g' : String → ℕ)
      → Move c m w b m' w' a
      → HasService b
      → HasClient m b
      → ((k : String) → load k m ≡ none → u k ≡ 0)
      → ((k : String) → u' k + user k b ≡ u k + user k a)
      → ((k : String) → g' k + holder k b ≡ g k + holder k a)
      → Counted m u g
      → Counted m' u' g'
  Move-Counted {m} u u' g g' fail s _ unused x y n =
      Counted-alike m u u' g g' (λ k. omega (arith, x k)) (λ k. omega (arith, y k)) n
  Move-Counted {m} u u' g g' (make k ext f) s _ unused x y n =
      Counted-alike m u u' g g' (λ k. omega (arith, x k)) (λ k. omega (arith, y k)) n
  Move-Counted {m} {m'} u u' g g' (store {k} {ext} {stored} q) (s, z) _ unused x y n =
      let (absent, now) = stored_lem k ext stored m m' q in
      rw now (
        Counted-stored k ext m u u' g g' s z (unused k absent) (λ j. omega (arith, x j))
          (λ j. omega (arith, y j)) n)
  Move-Counted {m} {m'} u u' g g' (find {k} {ext} {stored} q) s _ unused x y n =
      rw ((found_lem k ext stored m m' q).1)
        (Counted-alike m u u' g g' (λ k. omega (arith, x k)) (λ k. omega (arith, y k)) n)
  Move-Counted {m} u u' g g' (close_new {k} q) s there unused x y n =
      Counted-alike m u u' g g' (λ k. omega (arith, x k)) (λ k. omega (arith, y k)) n
  Move-Counted {m} u u' g g' (count {k}) s (old, there) unused x y n =
      Counted-incremented k old m u u' g g' there (λ j. omega (arith, x j))
        (λ j. omega (arith, y j)) n
