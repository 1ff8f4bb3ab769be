-- ===== src/Go/Memory/Slices.antt =====
-- A slice is copied to an array of its own, element by element.
use mathlib.Core.List.{append_assoc, append-nil}
use provider_temporal.Base.{
  ℕ, suc, ◌≡◌, refl, ◌≤◌, ◌<◌, ◌∙◌, ap, subst, sym, Option, none, some, List, [], ◌∷◌, ◌++◌, map,
  arith, length, length-append,
}
use provider_temporal.Go.Memory.{
  Memory, Storable, Command, write, new, held, set, copy_elements, copy_slice,
}
use provider_temporal.Go.Memory.Regions.{Agrees, Agrees-trans, Layout, Copied, IsDeepCopy}
use provider_temporal.Go.Memory.Pointers.{Points, pointer, held-Points}

set-append :
    {A : Type 0} (xs ys : List A) (y x : A) → set (xs ++ y ∷ ys) (length xs) x ≡ xs ++ x ∷ ys
unfolding set
set-append [] ys y x = refl
set-append (z ∷ xs) ys y x = ap (λ l. z ∷ l) (set-append xs ys y x)

module _ {C A V : Type 0} (l : Layout C A V) where
  -- Element by element.
  abbrev pub AllRead : ℕ → ℕ → Memory C → List A → List V → Type 0
  AllRead lo hi h [] [] = Unit
  AllRead lo hi h (a ∷ xs) (v ∷ vs) = l.Reads lo hi h a v × AllRead lo hi h xs vs
  AllRead lo hi h _ _ = ⊥

  pub AllRead-kept :
      (lo hi : ℕ) (h g : Memory C) (xs : List A) (vs : List V)
      → Agrees lo hi h g
      → AllRead lo hi h xs vs
      → AllRead lo hi g xs vs
  AllRead-kept lo hi h g [] [] s r = r
  AllRead-kept lo hi h g (a ∷ xs) (v ∷ vs) s r =
      (l.kept lo hi h g a v s r.0, AllRead-kept lo hi h g xs vs s r.1)
  AllRead-kept lo hi h g [] (v ∷ vs) s r = absurd r
  AllRead-kept lo hi h g (a ∷ xs) [] s r = absurd r

  pub AllRead-widened :
      (lo hi lo' hi' : ℕ) (h : Memory C) (xs : List A) (vs : List V)
      → lo' ≤ lo
      → hi ≤ hi'
      → AllRead lo hi h xs vs
      → AllRead lo' hi' h xs vs
  AllRead-widened lo hi lo' hi' h [] [] p q r = r
  AllRead-widened lo hi lo' hi' h (a ∷ xs) (v ∷ vs) p q r =
      (l.widened lo hi lo' hi' h a v p q r.0, AllRead-widened lo hi lo' hi' h xs vs p q r.1)
  AllRead-widened lo hi lo' hi' h [] (v ∷ vs) p q r = absurd r
  AllRead-widened lo hi lo' hi' h (a ∷ xs) [] p q r = absurd r

  abbrev pub elements : Layout C (List A) (List V)
  elements = record { Reads = AllRead; kept = AllRead-kept; widened = AllRead-widened }

  AllRead-append :
      (lo hi : ℕ) (h : Memory C) (xs : List A) (us : List V) (a : A) (v : V)
      → AllRead lo hi h xs us
      → l.Reads lo hi h a v
      → AllRead lo hi h (xs ++ a ∷ []) (us ++ v ∷ [])
  AllRead-append lo hi h [] [] a v r s = (s, tt)
  AllRead-append lo hi h (x ∷ xs) (u ∷ us) a v r s = (r.0, AllRead-append lo hi h xs us a v r.1 s)
  AllRead-append lo hi h [] (u ∷ us) a v r s = absurd r
  AllRead-append lo hi h (x ∷ xs) [] a v r s = absurd r

module _ {C A V : Type 0} (s : Storable C A) (arrays : Storable C (List A)) (l : Layout C A V)
    (copy : A → Command C A) (d : IsDeepCopy l copy) where
  abbrev blank : List A → List A
  blank = map (λ _. s.zero)

  -- The array at `q` holds the copies of the elements before and is blank from there on; the elements
  -- that are left lie below `q`.
  record Filling (q lo : ℕ) (h : Memory C) (done : List A) (us : List V) (rest : List A)
      (vs : List V) : Type 0 where
    made : q < h.next
    holds : h.cell q ≡ some (arrays.put (done ++ blank rest))
    copied : AllRead l (suc q) h.next h done us
    left : AllRead l lo q h rest vs

  -- What the loop does to the array at `q`.
  record Filled (q : ℕ) (h g : Memory C) (vs : List V) : Type 0 where
    grown : h.next ≤ g.next
    same : Agrees 0 q h g
    reads : Points arrays (elements l) q g.next g q vs

  Filling-step :
      (q lo i : ℕ) (h : Memory C) (done : List A) (us : List V) (x : A) (rest : List A) (v : V)
      (vs : List V)
      → length done ≡ i
      → Filling q lo h done us (x ∷ rest) (v ∷ vs)
      → let h1 = (copy x h).1 in
        let y = (copy x h).0 in
        let h2 = write q (arrays.put (set (held arrays (h1.cell q)) i y)) h1 in
        (h.next ≤ h2.next)
        × Agrees 0 q h h2
        × Filling q lo h2 (done ++ y ∷ []) (us ++ v ∷ []) rest vs
  Filling-step q lo i h done us x rest v vs count f =
      let (grown, same, new) =
        d lo h x v
          (l.widened lo q lo h.next h x v (omega arith) (omega (arith, f.made)) f.left.0) in
      let h1 = (copy x h).1 in
      let y = (copy x h).0 in
      let out : held arrays (h1.cell q) ≡ done ++ s.zero ∷ blank rest =
        ap (held arrays) (same q (omega arith) f.made ∙ f.holds) ∙ arrays.get-put _ in
      let next : set (held arrays (h1.cell q)) i y ≡ (done ++ y ∷ []) ++ blank rest =
        ap (λ o. set o i y) out
        ∙ ap (λ n. set (done ++ s.zero ∷ blank rest) n y) (sym count)
        ∙ set-append done (blank rest) s.zero y
        ∙ sym (append_assoc done (y ∷ []) (blank rest)) in
      let h2 = write q (arrays.put (set (held arrays (h1.cell q)) i y)) h1 in
      let old : Agrees 0 q h h2 = λ z above below. ground (arith, same z, f.made) in
      (
        grown,
        old,
        record {
          made = omega (arith, f.made);
          holds = ground arith ∙ ap (λ o. some (arrays.put o)) next;
          copied =
              AllRead-append l (suc q) h2.next h2 done us y v
                (AllRead-widened l (suc q) h.next (suc q) h1.next h2 done us (omega arith) grown (
                  AllRead-kept l (suc q) h.next h h2 done us
                    (λ z above below. ground (arith, same z)) f.copied))
                (l.widened h.next h1.next (suc q) h1.next h2 y v f.made (omega arith)
                  (l.kept h.next h1.next h1 h2 y v (λ z above below. ground (arith, f.made)) new));
          left =
              AllRead-kept l lo q h h2 rest vs (λ z above below. old z (omega arith) below)
                f.left.1;
        },
      )

  copy_elements-Filled :
      (q lo i : ℕ) (h : Memory C) (done : List A) (us : List V) (rest : List A) (vs : List V)
      → length done ≡ i
      → Filling q lo h done us rest vs
      → Filled q h (copy_elements s arrays copy q i rest h).1 (us ++ vs)
  unfolding copy_elements
  copy_elements-Filled q lo i h done us [] [] count f = record {
    grown = omega arith;
    same = λ x above below. refl;
    reads = record {
      value = done;
      above = omega arith;
      below = f.made;
      holds = f.holds ∙ ap (λ o. some (arrays.put o)) (append-nil done);
      reads =
          subst (λ o. AllRead l q h.next h done o) (sym (append-nil us))
            (AllRead-widened l (suc q) h.next q h.next h done us (omega arith) (omega arith)
              f.copied);
    };
  }
  copy_elements-Filled q lo i h done us (x ∷ rest) (v ∷ vs) count f =
      let h1 = (copy x h).1 in
      let y = (copy x h).0 in
      let h2 = write q (arrays.put (set (held arrays (h1.cell q)) i y)) h1 in
      let (grown, same, f2) = Filling-step q lo i h done us x rest v vs count f in
      let done2 =
        copy_elements-Filled q lo (suc i) h2 (done ++ y ∷ []) (us ++ v ∷ []) rest vs
          (omega (arith, length-append done (y ∷ []), count)) f2 in
      let g = (copy_elements s arrays copy q (suc i) rest h2).1 in
      record {
        grown = omega (arith, done2.grown, grown);
        same = Agrees-trans 0 q q h h2 g (omega arith) same done2.same;
        reads =
            subst (Points arrays (elements l) q g.next g q) (append_assoc us (v ∷ []) vs)
              done2.reads;
      }
  copy_elements-Filled q lo i h done us [] (v ∷ vs) count f = absurd f.left
  copy_elements-Filled q lo i h done us (x ∷ rest) [] count f = absurd f.left

  abbrev pub slice : Layout C (Option ℕ) (Option (List V))
  slice = pointer arrays (elements l)

  Filled-blank :
      (lo : ℕ) (h : Memory C) (items : List A) (vs : List V)
      → AllRead l lo h.next h items vs
      → let h1 = (new arrays (blank items) h).1 in
        Filled h.next h1 (copy_elements s arrays copy h.next 0 items h1).1 vs
  Filled-blank lo h items vs r =
      let h1 = (new arrays (blank items) h).1 in
      copy_elements-Filled h.next lo 0 h1 [] [] items vs refl (record {
        made = omega arith;
        holds = ground arith;
        copied = tt;
        left = AllRead-kept l lo h.next h h1 items vs (λ y above below. ground arith) r;
      })

  Copied-slice :
      (lo : ℕ) (h : Memory C) (items : List A) (vs : List V)
      → AllRead l lo h.next h items vs
      → let h1 = (new arrays (blank items) h).1 in
        Copied slice (some vs) h (some h.next, (copy_elements s arrays copy h.next 0 items h1).1)
  Copied-slice lo h items vs r =
      let f = Filled-blank lo h items vs r in
      (omega (arith, f.grown), (λ y above below. ground (arith, f.same y above below)), f.reads)

  pub copy_slice-IsDeepCopy : IsDeepCopy slice (copy_slice s arrays copy)
  unfolding copy_slice
  copy_slice-IsDeepCopy lo h none none r = (omega arith, (λ x above below. refl), r)
  copy_slice-IsDeepCopy lo h none (some vs) r = absurd r
  copy_slice-IsDeepCopy lo h (some p) none r = absurd r
  copy_slice-IsDeepCopy lo h (some p) (some vs) r =
      subst
        (λ items. Copied slice (some vs) h (
          some h.next,
          (copy_elements s arrays copy h.next 0 items (new arrays (blank items) h).1).1,
        ))
        (sym (held-Points arrays (elements l) lo h.next h p vs r))
        (Copied-slice lo h r.value vs r.reads)
