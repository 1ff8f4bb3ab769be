-- ===== src/Go/Json/Laws.antt =====
-- What is written is read back, field by field.
use provider_temporal.Base.{
  ◌≡◌, refl, String, Bool-cases, inl, inr, Option, none, some, List, [], ◌∷◌, if◌then◌else◌,
}
use provider_temporal.Go.Json.{
  Json, Members, end, put, entries, same_key, update, read, read_entries,
}

module _ {A : Type 0} (assign : A → Json → Option A) where
  -- What a written field does to a value that is being read.
  abbrev pub update_put : String → Option A → String → Option Json → Option A
  update_put k a j o = if same_key k j then elim o [ none ↦ a | some v ↦ update assign a v ] else a

  pub read-put :
      (k j : String) (a : Option A) (o : Option Json) (ms : Members)
      → read assign k a (put j o ms) ≡ read assign k (update_put k a j o) ms
  unfolding read
  read-put k j a none ms = elim (Bool-cases (same_key k j)) [ inl e ↦ rw e | inr e ↦ rw e ]
  read-put k j a (some v) ms = refl

  pub read-end : (k : String) (a : Option A) → read assign k a end ≡ a
  unfolding read
  read-end k a = refl

pub read_entries-entries : (m : List (String × String)) → read_entries (entries m) ≡ some m
unfolding read_entries entries
read_entries-entries [] = refl
read_entries-entries ((k, v) ∷ m) = rw (read_entries-entries m)
