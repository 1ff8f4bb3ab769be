-- ===== src/Go/Memory.antt =====
-- Go's memory: variables at addresses. A pointer is an address, nil is `none`. `C` is what a variable
-- may hold; a type whose variables the code makes or follows pointers to has a `Storable` into it.
pub mod Regions
pub mod Pointers
pub mod Slices
pub mod Maps
pub mod Copyable
use provider_temporal.Base.{
  ℕ, zero, suc, String, Option, none, some, List, [], ◌∷◌, map, if◌then◌else◌, ◌==◌, nat_eq, ◌≡◌,
  length,
}

pub record Memory (C : Type 0) : Type 0 where
  pub next : ℕ
  pub cell : ℕ → Option C

-- `zero` is the type's zero value.
pub record Storable (C A : Type 0) : Type 0 where
  pub put : A → C
  pub get : C → A
  pub zero : A
  pub get-put : (a : A) → get (put a) ≡ a

abbrev pub write : {C : Type 0} → ℕ → C → Memory C → Memory C
write p c h = record h { cell = λ q. if nat_eq q p then some c else h.cell q }

-- Code that reads and writes memory.
abbrev pub Command : Type 0 → Type 0 → Type 0
Command C A = Memory C → A × Memory C

module _ {C : Type 0} where
  infixl 5 ◌>>=◌ ◌>>◌
  abbrev pub ◌>>=◌ : {A B : Type 0} → Command C A → (A → Command C B) → Command C B
  ◌>>=◌ m f h = f (m h).0 (m h).1

  abbrev pub ◌>>◌ : {A B : Type 0} → Command C A → Command C B → Command C B
  m >> n = m >>= λ _. n

  abbrev pub pure : {A : Type 0} → A → Command C A
  pure a h = (a, h)

  module _ {A : Type 0} (s : Storable C A) where
    -- `p = new(A); *p = a`
    abbrev pub new : A → Command C ℕ
    new a h = (h.next, write h.next (s.put a) (record h { next = suc h.next }))

    -- `*p = a`
    abbrev pub store : ℕ → A → Command C (Unit {0})
    store p a h = (tt, write p (s.put a) h)

    abbrev pub held : Option C → A
    held none = s.zero
    held (some c) = s.get c

    -- `*p`. Go's pointers lead to variables of their type, so the other cases do not arise.
    abbrev pub load : ℕ → Command C A
    load p h = (held (h.cell p), h)

    -- `if in != nil { *out = new(A); (*in).DeepCopyInto(*out) }`
    unfoldable pub copy_pointer : (A → Command C A) → Option ℕ → Command C (Option ℕ)
    copy_pointer copy none = pure none
    copy_pointer copy (some p) = do q ← new s.zero; a ← load p; b ← copy a; store q b; pure (some q)

-- `a[i] = x`
unfoldable pub set : {A : Type 0} → List A → ℕ → A → List A
set [] i x = []
set (y ∷ ys) zero x = x ∷ ys
set (y ∷ ys) (suc i) x = y ∷ set ys i x

-- A slice is the address of its array, and nil is `none`.
module _ {C A : Type 0} (s : Storable C A) (arrays : Storable C (List A))
    (copy : A → Command C A) where
  -- `for i := range *in { (*in)[i].DeepCopyInto(&(*out)[i]) }`, from the index `i` on.
  unfoldable pub copy_elements : ℕ → ℕ → List A → Command C (Unit {0})
  unfolding set
  copy_elements q i [] = pure tt
  copy_elements q i (x ∷ rest) = do
    y ← copy x
    out ← load arrays q
    store arrays q (set out i y)
    copy_elements q (suc i) rest

  -- `if in != nil { *out = make([]A, len(*in)); for ... }`
  unfoldable pub copy_slice : Option ℕ → Command C (Option ℕ)
  unfolding copy_elements
  copy_slice none = pure none
  copy_slice (some p) = do
    items ← load arrays p
    q ← new arrays (map (λ _. s.zero) items)
    copy_elements q 0 items
    pure (some q)

abbrev pub Entries : Type 0
Entries = List (String × String)

-- `m[key] = val`, with the entries in the order in which their keys came.
unfoldable pub set_entry : String → String → Entries → Entries
set_entry k v [] = (k, v) ∷ []
set_entry k v ((j, u) ∷ m) = if j == k then (j, v) ∷ m else (j, u) ∷ set_entry k v m

-- A map is the address of its entries, and a variable of a map type holds such an address or nil.
module _ {C : Type 0} (maps : Storable C (Option ℕ)) (entries : Storable C Entries) where
  -- `for key, val := range *in { (*out)[key] = val }`
  unfoldable pub copy_entries : ℕ → Entries → Command C (Unit {0})
  unfolding set_entry
  copy_entries q [] = pure tt
  copy_entries q ((key, val) ∷ rest) = do
    out ← load entries q
    store entries q (set_entry key val out)
    copy_entries q rest

  -- `if **in != nil { *out = make(map[string]string, len(*in)); for ... }`
  unfoldable pub copy_map : ℕ → Option ℕ → Command C (Unit {0})
  unfolding copy_entries
  copy_map q none = pure tt
  copy_map q (some p) = do
    made ← new entries []
    store maps q (some made)
    m ← load entries p
    copy_entries made m

  -- `if in.Data != nil { *out = new(map[string]string); ... }`
  unfoldable pub copy_map_pointer : Option ℕ → Command C (Option ℕ)
  unfolding copy_map
  copy_map_pointer none = pure none
  copy_map_pointer (some p) = do q ← new maps none; m ← load maps p; copy_map q m; pure (some q)
