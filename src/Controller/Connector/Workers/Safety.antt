-- ===== src/Controller/Connector/Workers/Safety.antt =====
-- However the Connects of many workers interleave.
use provider_temporal.Base.{
  ℕ, zero, suc, ◌+◌, ◌≤◌, ◌≡◌, refl, sym, ap, ◌∙◌, inl, inr, String, String-cases, Bool, true,
  false, Option, Option-cases, none, some, List, [], ◌∷◌, All, eq_refl, arith,
}
use provider_temporal.Base.Int.{pos}
use provider_temporal.Controller.Connector.Cache.{External, Clients, load}
use provider_temporal.Controller.Connector.Invariant.{
  serves, owned, IsCache, Connections, IsExactly,
}
use provider_temporal.Controller.Connector.Histories.{Uses}
use provider_temporal.Controller.Connector.Workers.{
  Pc, idle, made, closing, counting, working, Step, AllIdle, Interleaves, begins, steps,
}
use provider_temporal.Controller.Connector.Interleaving.{total, OneOf-IsOneMove}
use provider_temporal.Controller.Connector.Workers.Accounts.{
  bit, entries, pending, HasService, Move-accounted, owned-entries,
}
use provider_temporal.Controller.Connector.Workers.Counting.{
  HasClient, IsStored, user, holder, Distinct, Counted, total-user-none, Move-IsStored,
  Move-HasClient, Move-Distinct, Move-Counted,
}

load-empty : (k : String) (e : External) → load k [] ≡ some e → ⊥
unfolding load
load-empty k e l = ground arith

AllIdle-total : (f : Pc → ℕ) (pcs : List Pc) → f idle ≡ 0 → AllIdle pcs → total f pcs ≡ 0
unfolding total
AllIdle-total f [] z a = refl
AllIdle-total f (pc ∷ pcs) z (e, a) = rw e (omega (arith, z, AllIdle-total f pcs z a))

AllIdle-All : (P : Pc → Type 0) (pcs : List Pc) → P idle → AllIdle pcs → All P pcs
AllIdle-All P [] p a = tt
AllIdle-All P (pc ∷ pcs) p (e, a) = (rw e p, AllIdle-All P pcs p a)

HasClient-mono :
    (m n : Clients) (pc : Pc)
    → ((k : String) → IsStored k m → IsStored k n)
    → HasClient m pc
    → HasClient n pc
HasClient-mono m n idle f q = tt
HasClient-mono m n (made k ext) f q = tt
HasClient-mono m n (closing k ext) f q = f k q
HasClient-mono m n (counting k) f q = f k q
HasClient-mono m n (working k) f q = f k q

-- No Connect of the worker is under way.
abbrev pub IsSettled : Pc → Type 0
IsSettled idle = Unit
IsSettled (working k) = Unit
IsSettled _ = ⊥

settled-pending : (d : ℕ) (pcs : List Pc) → All IsSettled pcs → total (pending d) pcs ≡ 0
unfolding total
settled-pending d [] a = refl
settled-pending d (idle ∷ pcs) a = omega (arith, settled-pending d pcs a.1)
settled-pending d (working k ∷ pcs) a = omega (arith, settled-pending d pcs a.1)
settled-pending d (made k ext ∷ pcs) a = absurd a.0
settled-pending d (closing k ext ∷ pcs) a = absurd a.0
settled-pending d (counting k ∷ pcs) a = absurd a.0

settled-holder :
    (k : String) (pcs : List Pc) → All IsSettled pcs → total (holder k) pcs ≡ total (user k) pcs
unfolding total
settled-holder k [] a = refl
settled-holder k (idle ∷ pcs) a = omega (arith, settled-holder k pcs a.1)
settled-holder k (working j ∷ pcs) a = omega (arith, settled-holder k pcs a.1)
settled-holder k (made j ext ∷ pcs) a = absurd a.0
settled-holder k (closing j ext ∷ pcs) a = absurd a.0
settled-holder k (counting j ∷ pcs) a = absurd a.0

bit-eq : (a b : Bool) → bit a ≡ bit b → a ≡ b
bit-eq true true e = refl
bit-eq false false e = refl
bit-eq true false e = absurd (omega (arith, e))
bit-eq false true e = absurd (omega (arith, e))

bit_small : (b : Bool) → bit b ≤ 1
bit_small true = omega arith
bit_small false = omega arith

positive :
    (e : External) (n : ℕ)
    → e.usage_counter ≡ pos n
    → 1 ≤ n
    → (i : ℕ) × (e.usage_counter ≡ pos (suc i))
positive e zero q le = absurd (omega (arith, le))
positive e (suc n) q le = (n, q)

first_owned :
    (e : External) (h : ℕ) (m : Clients) (k : String)
    → e.service ≡ some h
    → entries ((k, e) ∷ m) h ≤ 1
    → owned m h ≡ false
unfolding entries
first_owned e h m k p le =
    let one : bit (serves e h) ≡ 1 = rw p (ground arith) in
    bit-eq (owned m h) false (owned-entries m h (omega (arith, le)) ∙ omega (arith, one, le))

entries_rest :
    (k : String) (e : External) (m : Clients) (d : ℕ) → entries m d ≤ entries ((k, e) ∷ m) d
unfolding entries
entries_rest k e m d = omega arith

-- A cache by its lookups.
cache_lem :
    (m : Clients) (u : String → ℕ)
    → Distinct m
    → Counted m u u
    → ((d : ℕ) → entries m d ≤ 1)
    → IsCache m
unfolding load
cache_lem [] u d n le = tt
cache_lem ((k, e) ∷ m) u (absent, d) n le =
    let (service, counted, held) = n k e (rw (eq_refl k) refl) in
    let some_user = positive e (u k) counted held in
    (
      absent,
      (
        service.0,
        some_user.0,
        service.1,
        some_user.1,
        first_owned e service.0 m k service.1 (le service.0),
      ),
      cache_lem m u d (λ j x l. n j x (later j x l))
          (λ i. omega (arith, le i, entries_rest k e m i)),
    )
  where
    later : (j : String) (x : External) → load j m ≡ some x → load j ((k, e) ∷ m) ≡ some x
    later j x l = elim (String-cases k j) [
      | inl (same, t) ↦
          let eq : none ≡ some x = sym absent ∙ ap (λ i. load i m) same ∙ l in absurd (ground arith)
      | inr (other, t) ↦ rw t l
    ]

module _ {W : Type 0} {close : ℕ → W → W} (c : Connections close) where
  pub record IsConsistent (m : Clients) (w : W) (pcs : List Pc) : Type 0 where
    pub accounted : (d : ℕ) → entries m d + total (pending d) pcs ≡ bit (c.is_open w d)
    pub counted : Counted m (λ k. total (user k) pcs) (λ k. total (holder k) pcs)
    pub distinct : Distinct m
    pub ready : All HasService pcs
    pub placed : All (HasClient m) pcs

  Step-IsConsistent :
      {m m' : Clients} {w w' : W} {pcs pcs' : List Pc}
      → Step c m w pcs m' w' pcs'
      → IsConsistent m w pcs
      → IsConsistent m' w' pcs'
  Step-IsConsistent {m} {m'} {pcs = pcs} {pcs' = pcs'} step i =
      let one = OneOf-IsOneMove step in
      let (has_service, all_ready) = one.replace HasService HasService (λ pc q. q) i.ready in
      let (has_client, all_placed) =
        one.replace (HasClient m) (HasClient m')
          (λ pc q. HasClient-mono m m' pc (Move-IsStored c one.move) q) i.placed in
      let (next_service, next_client) = Move-HasClient c one.move has_service has_client in
      record {
        accounted = λ d.
            Move-accounted c d (total (pending d) pcs) (total (pending d) pcs') one.move has_service
              (one.exchange (pending d)) (i.accounted d);
        counted =
            Move-Counted c (λ k. total (user k) pcs) (λ k. total (user k) pcs')
              (λ k. total (holder k) pcs) (λ k. total (holder k) pcs') one.move has_service
              has_client (λ k absent. total-user-none k m pcs absent i.placed)
              (λ k. one.exchange (user k)) (λ k. one.exchange (holder k)) i.counted;
        distinct = Move-Distinct c one.move i.distinct;
        ready = all_ready next_service;
        placed = all_placed next_client;
      }

  pub Interleaves-IsConsistent :
      {m : Clients} {w : W} {pcs : List Pc} → Interleaves c m w pcs → IsConsistent m w pcs
  Interleaves-IsConsistent (begins {pcs} w closed a) = record {
    accounted =
        λ d. unfold entries in rw (AllIdle-total (pending d) pcs refl a, closed d) (omega arith);
    counted = λ k e l. absurd (load-empty k e l);
    distinct = tt;
    ready = AllIdle-All HasService pcs tt a;
    placed = AllIdle-All (HasClient []) pcs tt a;
  }
  Interleaves-IsConsistent (steps r step) = Step-IsConsistent step (Interleaves-IsConsistent r)

  Uses-some :
      (n : ℕ) (o : Option External) (e : External)
      → o ≡ some e
      → e.usage_counter ≡ pos n
      → 1 ≤ n
      → Uses c n o
  Uses-some zero o e q counted held = absurd (omega (arith, held))
  Uses-some (suc n) o e q counted held = (e, q, counted)

  abbrev pub Settles : Clients → W → List Pc → Type 0
  Settles m w pcs =
      IsCache m × IsExactly c w m × ((k : String) → Uses c (total (user k) pcs) (load k m))

  -- However the Connects of workers interleave that all began idle, with an empty cache and no
  -- connection open, and of which none disconnects: when each worker is idle again or its Connect
  -- has returned, the cache is well-formed, open are just the connections of its clients, and each
  -- key has a client whose counter is the number of workers that got it, or none if none did.
  pub Interleaves-Settles :
      {m : Clients} {w : W} {pcs : List Pc}
      → Interleaves c m w pcs
      → All IsSettled pcs
      → Settles m w pcs
  Interleaves-Settles {m} {w} {pcs} r a =
      let i = Interleaves-IsConsistent r in
      let all_stored : (d : ℕ) → entries m d ≡ bit (c.is_open w d) =
        λ d. omega (arith, i.accounted d, settled-pending d pcs a) in
      let single : (d : ℕ) → entries m d ≤ 1 = λ d. rw (all_stored d) (bit_small (c.is_open w d)) in
      let counted : Counted m (λ k. total (user k) pcs) (λ k. total (user k) pcs) = λ k e l.
        let (service, number, held) = i.counted k e l in
        (service, number, omega (arith, held, settled-holder k pcs a)) in
      (
        cache_lem m (λ k. total (user k) pcs) i.distinct counted single,
        (λ d.
            bit-eq (c.is_open w d) (owned m d)
              (sym (all_stored d) ∙ sym (owned-entries m d (single d)))),
        λ k. elim (Option-cases (load k m)) [
          | inl e ↦ rw (e, total-user-none k m pcs e i.placed) refl
          | inr (x, e) ↦
              let (_, number, held) = counted k x e in
              Uses-some (total (user k) pcs) (load k m) x e number held
        ],
      )
