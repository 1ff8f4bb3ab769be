-- ===== src/Go/Memory/Copyable.antt =====
-- Types with a deep copy, and how those of the fields of a struct make one of the struct.
use provider_temporal.Base.{ℕ, ◌≡◌, Option, List}
use provider_temporal.Go.Memory.{
  Memory, Storable, Command, Entries, pure, copy_pointer, copy_slice, copy_map_pointer,
}
use provider_temporal.Go.Memory.Regions.{
  Layout, IsDeepCopy, plain, pure-IsDeepCopy, ◌⊗◌, copy_both, copy_both-IsDeepCopy, struct,
  struct-IsDeepCopy,
}
use provider_temporal.Go.Memory.Pointers.{pointer, copy_pointer-IsDeepCopy}
use provider_temporal.Go.Memory.Slices.{elements, copy_slice-IsDeepCopy}
use provider_temporal.Go.Memory.Maps.{map_pointer, copy_map_pointer-IsDeepCopy}

pub record Copyable (C A V : Type 0) : Type 1 where
  pub layout : Layout C A V
  pub deep_copy_into : A → Command C A
  pub copies : IsDeepCopy layout deep_copy_into

module _ {C : Type 0} where
  abbrev pub by_value : {A : Type 0} → Copyable C A A
  by_value = record { layout = plain; deep_copy_into = pure; copies = pure-IsDeepCopy }

  infixr 4 ◌⊕◌
  abbrev pub ◌⊕◌ : {A B V W : Type 0} → Copyable C A V → Copyable C B W → Copyable C (A × B) (V × W)
  x ⊕ y = record {
    layout = x.layout ⊗ y.layout;
    deep_copy_into = copy_both x.layout y.layout x.deep_copy_into y.deep_copy_into;
    copies =
        copy_both-IsDeepCopy x.layout y.layout x.deep_copy_into y.deep_copy_into x.copies y.copies;
  }

  abbrev pub by_pointer :
      {A V : Type 0} → Storable C A → Copyable C A V → Copyable C (Option ℕ) (Option V)
  by_pointer s x = record {
    layout = pointer s x.layout;
    deep_copy_into = copy_pointer s x.deep_copy_into;
    copies = copy_pointer-IsDeepCopy s x.layout x.deep_copy_into x.copies;
  }

  abbrev pub by_slice :
      {A V : Type 0}
      → Storable C A
      → Storable C (List A)
      → Copyable C A V
      → Copyable C (Option ℕ) (Option (List V))
  by_slice s arrays x = record {
    layout = pointer arrays (elements x.layout);
    deep_copy_into = copy_slice s arrays x.deep_copy_into;
    copies = copy_slice-IsDeepCopy s arrays x.layout x.deep_copy_into x.copies;
  }

  abbrev pub by_map_pointer :
      Storable C (Option ℕ) → Storable C Entries → Copyable C (Option ℕ) (Option (Option Entries))
  by_map_pointer maps entries = record {
    layout = map_pointer maps entries;
    deep_copy_into = copy_map_pointer maps entries;
    copies = copy_map_pointer-IsDeepCopy maps entries;
  }

  -- A struct with a function that copies it field by field.
  abbrev pub by_fields :
      {A B V W : Type 0} (x : Copyable C B W) (to : A → B) (fields : V → W) (f : A → Command C A)
      → ((a : A) (h : Memory C)
          → ◌≡◌ {A = B × Memory C} (to (f a h).0, (f a h).1) (x.deep_copy_into (to a) h))
      → Copyable C A V
  by_fields x to fields f e = record {
    layout = struct x.layout to fields;
    deep_copy_into = f;
    copies = struct-IsDeepCopy x.layout to fields f x.deep_copy_into e x.copies;
  }
