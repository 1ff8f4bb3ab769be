-- ===== src/Go/Memory/Pointers.antt =====
-- A pointer is copied to a variable of its own.
use provider_temporal.Base.{
  ℕ, suc, ◌≡◌, refl, ◌≤◌, ◌<◌, ◌∙◌, ap, subst, sym, Option, none, some, arith,
}
use provider_temporal.Go.Memory.{Memory, Storable, Command, write, new, store, held, copy_pointer}
use provider_temporal.Go.Memory.Regions.{Agrees, Layout, Copied, IsDeepCopy}

module _ {C A V : Type 0} (s : Storable C A) (l : Layout C A V) where
  -- A pointer to a variable of the region that holds a value, which reads as `v`.
  pub record Points (lo hi : ℕ) (h : Memory C) (p : ℕ) (v : V) : Type 0 where
    pub value : A
    pub above : lo ≤ p
    pub below : p < hi
    pub holds : h.cell p ≡ some (s.put value)
    pub reads : l.Reads lo hi h value v

  abbrev pub PointerReads : ℕ → ℕ → Memory C → Option ℕ → Option V → Type 0
  PointerReads lo hi h none none = Unit
  PointerReads lo hi h (some p) (some v) = Points lo hi h p v
  PointerReads lo hi h _ _ = ⊥

  pub PointerReads-kept :
      (lo hi : ℕ) (h g : Memory C) (o : Option ℕ) (v : Option V)
      → Agrees lo hi h g
      → PointerReads lo hi h o v
      → PointerReads lo hi g o v
  PointerReads-kept lo hi h g none none same r = r
  PointerReads-kept lo hi h g none (some v) same r = absurd r
  PointerReads-kept lo hi h g (some p) none same r = absurd r
  PointerReads-kept lo hi h g (some p) (some v) same r = record {
    value = r.value;
    above = r.above;
    below = r.below;
    holds = same p r.above r.below ∙ r.holds;
    reads = l.kept lo hi h g r.value v same r.reads;
  }

  pub PointerReads-widened :
      (lo hi lo' hi' : ℕ) (h : Memory C) (o : Option ℕ) (v : Option V)
      → lo' ≤ lo
      → hi ≤ hi'
      → PointerReads lo hi h o v
      → PointerReads lo' hi' h o v
  PointerReads-widened lo hi lo' hi' h none none p q r = r
  PointerReads-widened lo hi lo' hi' h none (some v) p q r = absurd r
  PointerReads-widened lo hi lo' hi' h (some a) none p q r = absurd r
  PointerReads-widened lo hi lo' hi' h (some a) (some v) p q r = record {
    value = r.value;
    above = omega (arith, r.above);
    below = omega (arith, r.below);
    holds = r.holds;
    reads = l.widened lo hi lo' hi' h r.value v p q r.reads;
  }

  abbrev pub pointer : Layout C (Option ℕ) (Option V)
  pointer = record {
    Reads = PointerReads;
    kept = PointerReads-kept;
    widened = PointerReads-widened;
  }

  -- What `*p` is where `p` points.
  pub held-Points :
      (lo hi : ℕ) (h : Memory C) (p : ℕ) (v : V) (r : Points lo hi h p v)
      → held s (h.cell p) ≡ r.value
  held-Points lo hi h p v r = ap (held s) r.holds ∙ s.get-put r.value

  -- A copy of `a` in a memory with one more variable, which then takes the result.
  Copied-stored :
      (copy : A → Command C A) (d : IsDeepCopy l copy) (lo : ℕ) (h : Memory C) (a : A) (v : V)
      → l.Reads lo h.next h a v
      → let h1 = (new s s.zero h).1 in
        let r = copy a h1 in Copied pointer (some v) h (some h.next, (store s h.next r.0 r.1).1)
  Copied-stored copy d lo h a v r =
      let h1 = (new s s.zero h).1 in
      let still =
        l.widened lo h.next lo (suc h.next) h1 a v (omega arith) (omega arith)
          (l.kept lo h.next h h1 a v (λ y above below. ground arith) r) in
      let (grown, same, made) = d lo h1 a v still in
      let h2 = (copy a h1).1 in
      let b = (copy a h1).0 in
      let h3 = write h.next (s.put b) h2 in
      (
        omega arith,
        (λ y above below. ground (arith, same y)),
        record {
          value = b;
          above = omega arith;
          below = omega arith;
          holds = ground arith;
          reads =
              l.widened (suc h.next) h2.next h.next h2.next h3 b v (omega arith) (omega arith)
                (l.kept (suc h.next) h2.next h2 h3 b v (λ y above below. ground arith) made);
        },
      )

  pub copy_pointer-IsDeepCopy :
      (copy : A → Command C A) → IsDeepCopy l copy → IsDeepCopy pointer (copy_pointer s copy)
  unfolding copy_pointer
  copy_pointer-IsDeepCopy copy d lo h none none r = (omega arith, (λ x above below. refl), r)
  copy_pointer-IsDeepCopy copy d lo h none (some v) r = absurd r
  copy_pointer-IsDeepCopy copy d lo h (some p) none r = absurd r
  copy_pointer-IsDeepCopy copy d lo h (some p) (some v) r =
      let e : held s ((new s s.zero h).1.cell p) ≡ r.value =
        ap (held s) (ground (arith, r.below)) ∙ held-Points lo h.next h p v r in
      subst
        (λ x. Copied pointer (some v) h (
          some h.next,
          (store s h.next (copy x (new s s.zero h).1).0 (copy x (new s s.zero h).1).1).1,
        ))
        (sym e) (Copied-stored copy d lo h r.value v r.reads)
