-- ===== src/Go/Memory/Maps.antt =====
-- A map is copied to a map of its own, entry by entry.
use mathlib.Core.List.{append_assoc, append-nil}
use provider_temporal.Base.{
  ℕ, ◌≡◌, refl, ◌≢◌, ◌∙◌, ap, subst, sym, String, Bool, false, ◌||◌, ◌==◌, Bool-cases, inl, inr,
  Option, none, some, [], ◌∷◌, ◌++◌, arith,
}
use provider_temporal.Go.Memory.{
  Memory, Storable, Entries, write, new, held, set_entry, copy_entries, copy_map, copy_map_pointer,
}
use provider_temporal.Go.Memory.Regions.{Layout, Copied, IsDeepCopy}
use provider_temporal.Go.Memory.Pointers.{Points, pointer, held-Points}

abbrev pub has_key : String → Entries → Bool
has_key k [] = false
has_key k ((j, u) ∷ m) = j == k || has_key k m

-- The keys of `m` are apart from each other and from those of `before`.
abbrev pub Apart : Entries → Entries → Type 0
Apart before [] = Unit
Apart before ((k, v) ∷ m) = (has_key k before ≡ false) × Apart (before ++ (k, v) ∷ []) m

set_entry-append :
    (k v : String) (m : Entries) → has_key k m ≡ false → set_entry k v m ≡ m ++ (k, v) ∷ []
unfolding set_entry
set_entry-append k v [] h = refl
set_entry-append k v ((j, u) ∷ m) h = elim (Bool-cases (j == k)) [
  | inl t ↦ cc
  | inr t ↦ rw t (ap (λ l. (j, u) ∷ l) (set_entry-append k v m (ground arith)))
]

-- The entries of a map, which have each key once.
abbrev pub entry_list : {C : Type 0} → Layout C Entries Entries
entry_list = record {
  Reads = λ lo hi h a v. (a ≡ v) × Apart [] a;
  kept = λ lo hi h g a v s r. r;
  widened = λ lo hi lo' hi' h a v p q r. r;
}

module _ {C : Type 0} (maps : Storable C (Option ℕ)) (entries : Storable C Entries) where
  -- What a loop over the entries does to the map at `q`.
  record Grown (q : ℕ) (h g : Memory C) (m : Entries) : Type 0 where
    next : g.next ≡ h.next
    same : (x : ℕ) → x ≢ q → g.cell x ≡ h.cell x
    holds : g.cell q ≡ some (entries.put m)

  copy_entries-Grown :
      (q : ℕ) (h : Memory C) (done m : Entries)
      → h.cell q ≡ some (entries.put done)
      → Apart done m
      → Grown q h (copy_entries maps entries q m h).1 (done ++ m)
  unfolding copy_entries
  copy_entries-Grown q h done [] e a = record {
    next = refl;
    same = λ x ne. refl;
    holds = e ∙ ap (λ m. some (entries.put m)) (sym (append-nil done));
  }
  copy_entries-Grown q h done ((k, v) ∷ m) e (new, a) =
      let out : held entries (h.cell q) ≡ done = ap (held entries) e ∙ entries.get-put done in
      let grown : set_entry k v (held entries (h.cell q)) ≡ done ++ (k, v) ∷ [] =
        ap (set_entry k v) out ∙ set_entry-append k v done new in
      let h1 = write q (entries.put (set_entry k v (held entries (h.cell q)))) h in
      let rest =
        copy_entries-Grown q h1 (done ++ (k, v) ∷ []) m
          (ground arith ∙ ap (λ o. some (entries.put o)) grown) a in
      record {
        next = rest.next;
        same = λ x ne. rest.same x ne ∙ ground arith;
        holds = rest.holds ∙ ap (λ o. some (entries.put o)) (append_assoc done ((k, v) ∷ []) m);
      }

  -- A variable of a map type, and a pointer to one.
  abbrev pub map_variable : Layout C (Option ℕ) (Option Entries)
  map_variable = pointer entries entry_list

  abbrev pub map_pointer : Layout C (Option ℕ) (Option (Option Entries))
  map_pointer = pointer maps map_variable

  -- Making an empty map at `n`, with `q` for the variable that takes it, and filling it.
  copy_map-some :
      (lo : ℕ) (h : Memory C) (p : ℕ) (m : Entries)
      → Points entries entry_list lo h.next h p m
      → let h1 = (new maps none h).1 in
        Copied map_pointer
          (some (some m))
          h
          (some h.next, (copy_map maps entries h.next (some p) h1).1)
  unfolding copy_map
  copy_map-some lo h p m r =
      let h1 = (new maps none h).1 in
      let n = h1.next in
      let h2 = (new entries [] h1).1 in
      let h3 = write h.next (maps.put (some n)) h2 in
      let read : held entries (h3.cell p) ≡ r.value =
        ap (held entries) (ground (arith, r.below))
        ∙ held-Points entries entry_list lo h.next h p m r in
      let f = copy_entries-Grown n h3 [] r.value (ground arith) r.reads.1 in
      let g = (copy_entries maps entries n r.value h3).1 in
      let made : Copied map_pointer (some (some m)) h (some h.next, g) = (
        omega (arith, f.next),
        (λ x above below. f.same x (λ e. omega (arith, e)) ∙ ground arith),
        record {
          value = some n;
          above = omega arith;
          below = omega (arith, f.next);
          holds = f.same h.next (λ e. omega (arith, e)) ∙ ground arith;
          reads = record {
            value = r.value;
            above = omega arith;
            below = omega (arith, f.next);
            holds = f.holds;
            reads = r.reads;
          };
        },
      ) in
      subst
        (λ o.
          Copied map_pointer (some (some m)) h (some h.next, (copy_entries maps entries n o h3).1))
        (sym read) made

  copy_map-none :
      (h : Memory C) → Copied map_pointer (some none) h (some h.next, (new maps none h).1)
  copy_map-none h = (
    omega arith,
    (λ x above below. ground arith),
    record {
      value = none;
      above = omega arith;
      below = omega arith;
      holds = ground arith;
      reads = tt;
    },
  )

  Copied-variable :
      (lo : ℕ) (h : Memory C) (o : Option ℕ) (v : Option Entries)
      → map_variable.Reads lo h.next h o v
      → Copied map_pointer
          (some v)
          h
          (some h.next, (copy_map maps entries h.next o (new maps none h).1).1)
  unfolding copy_map
  Copied-variable lo h none none r = copy_map-none h
  Copied-variable lo h (some p) (some m) r = copy_map-some lo h p m r
  Copied-variable lo h none (some m) r = absurd r
  Copied-variable lo h (some p) none r = absurd r

  pub copy_map_pointer-IsDeepCopy : IsDeepCopy map_pointer (copy_map_pointer maps entries)
  unfolding copy_map_pointer
  copy_map_pointer-IsDeepCopy lo h none none r = (omega arith, (λ x above below. refl), r)
  copy_map_pointer-IsDeepCopy lo h none (some v) r = absurd r
  copy_map_pointer-IsDeepCopy lo h (some p) none r = absurd r
  copy_map_pointer-IsDeepCopy lo h (some p) (some v) r =
      let e : held maps ((new maps none h).1.cell p) ≡ r.value =
        ap (held maps) (ground (arith, r.below))
        ∙ held-Points maps map_variable lo h.next h p v r in
      subst
        (λ o.
          Copied map_pointer (some v) h
            (some h.next, (copy_map maps entries h.next o (new maps none h).1).1))
        (sym e) (Copied-variable lo h r.value v r.reads)
