-- ===== src/Go/Memory/Regions.antt =====
-- What a value in memory reads as, by the variables of a region alone, and what a deep copy is.
use provider_temporal.Base.{
  subst, sym, ℕ, ◌≡◌, refl, ◌≤◌, ◌<◌, ◌∙◌, if◌then◌else◌, ltb, Bool-cases, inl, inr, arith,
}
use provider_temporal.Go.Memory.{Memory, Command, write, ◌>>=◌, pure}

module _ {C : Type 0} where
  -- The variables from `lo` on and below `hi` hold the same.
  abbrev pub Agrees : ℕ → ℕ → Memory C → Memory C → Type 0
  Agrees lo hi h g = (x : ℕ) → lo ≤ x → x < hi → g.cell x ≡ h.cell x

  pub Agrees-trans :
      (lo mid hi : ℕ) (f g h : Memory C)
      → mid ≤ hi
      → Agrees lo mid f g
      → Agrees lo hi g h
      → Agrees lo mid f h
  Agrees-trans lo mid hi f g h le p q x above below = q x above (omega arith) ∙ p x above below

  pub Agrees-write_below :
      (x lo hi : ℕ) (c : C) (h : Memory C) → x < lo → Agrees lo hi h (write x c h)
  Agrees-write_below x lo hi c h lt y above below = ground arith

  pub Agrees-write_above :
      (x lo hi : ℕ) (c : C) (h : Memory C) → hi ≤ x → Agrees lo hi h (write x c h)
  Agrees-write_above x lo hi c h le y above below = ground arith

-- `Reads lo hi h a v`: in the memory `h` the value `a` reads as `v`, and all variables behind its
-- pointers lie from `lo` on and below `hi`.
pub record Layout (C A V : Type 0) : Type 1 where
  pub Reads : ℕ → ℕ → Memory C → A → V → Type 0
  pub kept :
      (lo hi : ℕ) (h g : Memory C) (a : A) (v : V)
      → Agrees lo hi h g
      → Reads lo hi h a v
      → Reads lo hi g a v
  pub widened :
      (lo hi lo' hi' : ℕ) (h : Memory C) (a : A) (v : V)
      → lo' ≤ lo
      → hi ≤ hi'
      → Reads lo hi h a v
      → Reads lo' hi' h a v

module _ {C A V : Type 0} (l : Layout C A V) where
  -- The copy reads as the original did and has variables of its own; no older variable has changed.
  abbrev pub Copied : V → Memory C → A × Memory C → Type 0
  Copied v h r = (h.next ≤ r.1.next) × Agrees 0 h.next h r.1 × l.Reads h.next r.1.next r.1 r.0 v

  abbrev pub IsDeepCopy : (A → Command C A) → Type 0
  IsDeepCopy copy =
      (lo : ℕ) (h : Memory C) (a : A) (v : V) → l.Reads lo h.next h a v → Copied v h (copy a h)

  -- After a copy both read as `v`. If then any variable is written, the copy still does if it was one
  -- of those that were there before, and the original still does if it is a newer one.
  abbrev pub Separate : ℕ → A → V → Memory C → ℕ → C → A × Memory C → Type 0
  Separate lo a v h x c r =
      l.Reads lo h.next r.1 a v
      × l.Reads h.next r.1.next r.1 r.0 v
      × (if ltb x h.next
          then l.Reads h.next r.1.next (write x c r.1) r.0 v
          else l.Reads lo h.next (write x c r.1) a v)

  survives :
      (lo x : ℕ) (c : C) (h g : Memory C) (a b : A) (v : V)
      → l.Reads lo h.next g a v
      → l.Reads h.next g.next g b v
      → (if ltb x h.next
          then l.Reads h.next g.next (write x c g) b v
          else l.Reads lo h.next (write x c g) a v)
  survives lo x c h g a b v p q = elim (Bool-cases (ltb x h.next)) [
    | inl t ↦ rw t (
        l.kept h.next g.next g (write x c g) b v
          (Agrees-write_below x h.next g.next c g (ground arith)) q)
    | inr t ↦
        rw t (
          l.kept lo h.next g (write x c g) a v (Agrees-write_above x lo h.next c g (ground arith))
            p)
  ]

  pub Separate-copy :
      (copy : A → Command C A) (d : IsDeepCopy copy) (lo : ℕ) (h : Memory C) (a : A) (v : V) (x : ℕ)
      (c : C)
      → l.Reads lo h.next h a v
      → Separate lo a v h x c (copy a h)
  Separate-copy copy d lo h a v x c r =
      let (grown, same, new) = d lo h a v r in
      let g = (copy a h).1 in
      let old = l.kept lo h.next h g a v (λ y above below. same y (omega arith) below) r in
      (old, new, survives lo x c h g a (copy a h).0 v old new)

-- What is copied as it is: no pointers.
abbrev pub plain : {C A : Type 0} → Layout C A A
plain = record {
  Reads = λ lo hi h a v. a ≡ v;
  kept = λ lo hi h g a v s r. r;
  widened = λ lo hi lo' hi' h a v p q r. r;
}

pub pure-IsDeepCopy : {C A : Type 0} → IsDeepCopy {C = C} (plain {A = A}) pure
pure-IsDeepCopy lo h a v r = (omega arith, (λ x above below. refl), r)

-- Two fields, copied one after the other.
module _ {C A B V W : Type 0} (l : Layout C A V) (m : Layout C B W) where
  infixr 4 ◌⊗◌
  abbrev pub ◌⊗◌ : Layout C (A × B) (V × W)
  ◌⊗◌ = record {
    Reads = λ lo hi h a v. l.Reads lo hi h a.0 v.0 × m.Reads lo hi h a.1 v.1;
    kept = λ lo hi h g a v s r. (l.kept lo hi h g a.0 v.0 s r.0, m.kept lo hi h g a.1 v.1 s r.1);
    widened = λ lo hi lo' hi' h a v p q r.
        (l.widened lo hi lo' hi' h a.0 v.0 p q r.0, m.widened lo hi lo' hi' h a.1 v.1 p q r.1);
  }

module _ {C A B V W : Type 0} (l : Layout C A V) (m : Layout C B W) (f : A → Command C A)
    (g : B → Command C B) where
  abbrev pub copy_both : A × B → Command C (A × B)
  copy_both p = do a ← f p.0; b ← g p.1; pure (a, b)

  pub copy_both-IsDeepCopy : IsDeepCopy l f → IsDeepCopy m g → IsDeepCopy (l ⊗ m) copy_both
  copy_both-IsDeepCopy d e lo h p v r =
      let (grown, same, new) = d lo h p.0 v.0 r.0 in
      let h1 = (f p.0 h).1 in
      let still =
        m.widened lo h.next lo h1.next h1 p.1 v.1 (omega arith) grown
          (m.kept lo h.next h h1 p.1 v.1 (λ y above below. same y (omega arith) below) r.1) in
      let (grown2, same2, new2) = e lo h1 p.1 v.1 still in
      let h2 = (g p.1 h1).1 in
      (
        omega arith,
        Agrees-trans 0 h.next h.next h h1 h2 (omega arith) same
            (λ y above below. same2 y above (omega arith)),
        (
          l.widened h.next h1.next h.next h2.next h2 (f p.0 h).0 v.0 (omega arith) grown2 (
              l.kept h.next h1.next h1 h2 (f p.0 h).0 v.0
                (λ y above below. same2 y (omega arith) below) new),
          m.widened h1.next h2.next h.next h2.next h2 (g p.1 h1).0 v.1 grown (omega arith) new2,
        ),
      )

-- A struct by its fields.
module _ {C A B V W : Type 0} (l : Layout C B W) (to : A → B) (fields : V → W) where
  abbrev pub struct : Layout C A V
  struct = record {
    Reads = λ lo hi h a v. l.Reads lo hi h (to a) (fields v);
    kept = λ lo hi h g a v s r. l.kept lo hi h g (to a) (fields v) s r;
    widened = λ lo hi lo' hi' h a v p q r. l.widened lo hi lo' hi' h (to a) (fields v) p q r;
  }

  pub struct-IsDeepCopy :
      (f : A → Command C A) (g : B → Command C B)
      → ((a : A) (h : Memory C) → ◌≡◌ {A = B × Memory C} (to (f a h).0, (f a h).1) (g (to a) h))
      → IsDeepCopy l g
      → IsDeepCopy struct f
  struct-IsDeepCopy f g e d lo h a v r =
      subst (Copied l (fields v) h) (sym (e a h)) (d lo h (to a) (fields v) r)
