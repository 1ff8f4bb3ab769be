-- ===== src/Api/Items/Laws.antt =====
-- What the pointers that GetItems gives lead to.
use mathlib.Core.List.{append_assoc}
use provider_temporal.Base.{
  ℕ, zero, suc, ◌+◌, ◌<◌, ◌≡◌, refl, subst, ◌≢◌, nat_eq, true, false, ◌∙◌, sym, ap, Option, none,
  some, List, [], ◌∷◌, ◌++◌, length, length-append, arith,
}
use provider_temporal.Go.Memory.{Memory, Storable, load, set}
use provider_temporal.Api.Items.{
  ElementPointer, get_elem?, point_each, replicate, items_of, load_element, store_element,
}

-- The pointers to the elements from `i` on.
abbrev pointers : ℕ → ℕ → ℕ → List (Option ElementPointer)
pointers p i zero = []
pointers p i (suc n) = some (record { array = p; index = i }) ∷ pointers p (suc i) n

set-append :
    {A : Type 0} (before : List A) (x y : A) (after : List A)
    → set (before ++ (x ∷ after)) (length before) y ≡ before ++ (y ∷ after)
unfolding set
set-append [] x y after = refl
set-append (z ∷ before) x y after = ap (λ l. z ∷ l) (set-append before x y after)

point_each_lem :
    (p i n : ℕ) (before : List (Option ElementPointer))
    → length before ≡ i
    → point_each p i n (before ++ replicate n none) ≡ before ++ pointers p i n
unfolding point_each
point_each_lem p i zero before same = refl
point_each_lem p i (suc n) before same =
    let e : Option ElementPointer = some (record { array = p; index = i }) in
    ap (point_each p (suc i) n) (
      subst (λ j. set (before ++ (none ∷ replicate n none)) j e ≡ before ++ (e ∷ replicate n none))
        same (set-append before none e (replicate n none))
      ∙ sym (append_assoc before (e ∷ []) (replicate n none)))
    ∙ point_each_lem p (suc i) n (before ++ (e ∷ []))
        (omega (arith, length-append before (e ∷ []), same))
    ∙ append_assoc before (e ∷ []) (pointers p (suc i) n)

get_elem?-pointers :
    (p i n j k : ℕ)
    → j < n
    → i + j ≡ k
    → get_elem? (pointers p i n) j ≡ some (some (record { array = p; index = k }))
get_elem?-pointers p i zero j k below at = elim (none_below j below) [ ]
  where
    none_below : (j : ℕ) → j < 0 → ⊥
    none_below j below = omega (arith, below)
get_elem?-pointers p i (suc n) zero k below at =
    let same : i ≡ k = omega (arith, at) in rw same refl
get_elem?-pointers p i (suc n) (suc j) k below at =
    get_elem?-pointers p (suc i) n j k (omega (arith, below)) (omega (arith, at))

length-pointers : (p i n : ℕ) → length (pointers p i n) ≡ n
length-pointers p i zero = refl
length-pointers p i (suc n) = omega (arith, length-pointers p (suc i) n)

module _ {C A : Type 0} (arrays : Storable C (List A)) where
  -- The j-th of the pointers is to the j-th element of the array at `p`: it reads that element, and a write to it
  -- changes that element alone.
  pub record LeadsTo (h : Memory C) (p : ℕ) (items : List (Option ElementPointer)) (j : ℕ)
      : Type 0 where
    pub pointer : ElementPointer
    pub there : get_elem? items j ≡ some (some pointer)
    pub reads : (load_element arrays pointer h).0 ≡ get_elem? (load arrays p h).0 j
    pub writes :
        (x : A)
        → (load arrays p (store_element arrays pointer x h).1).0 ≡ set (load arrays p h).0 j x
    pub others : (x : A) (q : ℕ) → q ≢ p → (store_element arrays pointer x h).1.cell q ≡ h.cell q

  -- GetItems of a list with an array, whatever it holds: it changes nothing and gives a pointer for
  -- each element; through the j-th pointer one reads the j-th element, and what is written there
  -- changes that element of the array alone and no other variable.
  pub items_of-LeadsTo :
      (h : Memory C) (p : ℕ)
      → (length (items_of arrays (some p) h).0 ≡ length (load arrays p h).0)
        × ((items_of arrays (some p) h).1 ≡ h)
        × ((j : ℕ) → j < length (load arrays p h).0 → LeadsTo h p (items_of arrays (some p) h).0 j)
  unfolding items_of
  items_of-LeadsTo h p =
      let n = length (load arrays p h).0 in
      let all = point_each_lem p 0 n [] refl in
      (
        ap length all ∙ length-pointers p 0 n,
        refl,
        λ j below. record {
          pointer = record { array = p; index = j };
          there = ap (λ l. get_elem? l j) all ∙ get_elem?-pointers p 0 n j j below (omega arith);
          reads = refl;
          writes = λ x.
              let same : nat_eq p p ≡ true = ground arith in
              rw same (arrays.get-put (set (load arrays p h).0 j x));
          others = λ x q other.
              let differs : nat_eq q p ≡ false = ground (arith, other) in rw differs refl;
        },
      )
