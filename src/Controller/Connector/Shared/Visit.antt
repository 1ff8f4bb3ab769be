-- ===== src/Controller/Connector/Shared/Visit.antt =====
-- One visit of a Disconnect that no other worker comes between, and the lists of entries that it changes.
use provider_temporal.Base.{
  ℕ, ◌≡◌, ◌≢◌, ◌⊎◌, refl, sym, ap, ◌∙◌, String, String-cases, inl, inr, Bool-cases, true, false,
  none, List, [], ◌∷◌, ◌==◌, eq_refl, ◌++◌,
}
use provider_temporal.Base.Int.{pos, ltb_ℤ}
use provider_temporal.Controller.Connector.Cache.{
  External, set_usage_counter, decrement_usage_counter, get_usage_counter, clamp,
}
use provider_temporal.Controller.Connector.Shared.{
  Shared, load, delete, modify, IsIn, is_seen, ranging, testing, deciding, fail, make, store, find,
  close_new, count, leave, visit, decrement, negative, not_negative, reset, unused, used, release,
  remove, finish, Pc, Move, Reaches, begins, steps, Alone, rests, goes,
}
use provider_temporal.Controller.Connector.Interleaving.{here}
use provider_temporal.Controller.Connector.Interleaving.{OneOf-IsOneMove}
use provider_temporal.Controller.Connector.Shared.Ownership.{Owns}
use provider_temporal.Controller.Connector.Shared.View.{
  Distinct, apart, modified_object, unmodified_object,
}

-- What is in the map was stored.
abbrev pub Includes : List (String × ℕ) → List (String × ℕ) → Type 0
Includes stored keys = (x : String × ℕ) → IsIn x keys → IsIn x stored

delete-Includes : (k : String) (m : List (String × ℕ)) → Includes m (delete k m)
delete-Includes k [] x i = i
delete-Includes k ((j, p) ∷ m) x i = elim (Bool-cases (j == k)) [
  | inl t ↦ inr (delete-Includes k m x (rw t at i))
  | inr t ↦ elim (rw t at i) [ inl same ↦ inl same | inr rest ↦ inr (delete-Includes k m x rest) ]
]

-- A key that is nowhere in the map.
pub absent_apart :
    (j k : String) (q : ℕ) (m : List (String × ℕ)) → load k m ≡ none → IsIn (j, q) m → j ≢ k
absent_apart j k q [] absent i = elim i [ ]
absent_apart j k q ((i, p) ∷ m) absent i_or = elim (String-cases i k) [
  | inl (same, t) ↦ cc (rw t at absent)
  | inr (other, t) ↦ elim i_or [
    | inl first ↦ λ e. other (sym (ap (λ x. x.0) first) ∙ e)
    | inr rest ↦ absent_apart j k q m (rw t at absent) rest
  ]
]

pub middle-IsIn :
    (x : String × ℕ) (before after : List (String × ℕ)) → IsIn x (before ++ (x ∷ after))
middle-IsIn x [] after = inl refl
middle-IsIn x (y ∷ before) after = inr (middle-IsIn x before after)

first_apart :
    (i k : String) (p : ℕ) (before after : List (String × ℕ))
    → load i (before ++ ((k, p) ∷ after)) ≡ none
    → i ≢ k
first_apart i k p before after absent e =
    absent_apart k i p (before ++ ((k, p) ∷ after)) absent (middle-IsIn (k, p) before after) (sym e)

pub delete_absent : (k : String) (m : List (String × ℕ)) → load k m ≡ none → delete k m ≡ m
delete_absent k [] absent = refl
delete_absent k ((j, p) ∷ m) absent = elim (Bool-cases (j == k)) [
  | inl t ↦ cc (rw t at absent)
  | inr t ↦ rw (t, delete_absent k m (rw t at absent)) refl
]

-- An entry of a map without duplicates, and those before and after it.
pub split_apart :
    (j k : String) (q p : ℕ) (before after : List (String × ℕ))
    → Distinct (before ++ ((k, p) ∷ after))
    → IsIn (j, q) (before ++ after)
    → j ≢ k
split_apart j k q p [] after (absent, d) i = absent_apart j k q after absent i
split_apart j k q p ((i, r) ∷ before) after (absent, d) (inl same) =
    λ e. first_apart i k p before after absent (sym (ap (λ x. x.0) same) ∙ e)
split_apart j k q p ((i, r) ∷ before) after (absent, d) (inr rest) =
    split_apart j k q p before after d rest

pub delete_split :
    (k : String) (p : ℕ) (before after : List (String × ℕ))
    → Distinct (before ++ ((k, p) ∷ after))
    → delete k (before ++ ((k, p) ∷ after)) ≡ before ++ after
delete_split k p [] after (absent, d) = rw (eq_refl k) (delete_absent k after absent)
delete_split k p ((i, r) ∷ before) after (absent, d) = elim (String-cases i k) [
  | inl (same, t) ↦ elim (first_apart i k p before after absent same) [ ]
  | inr (other, t) ↦ rw (t, delete_split k p before after d) refl
]

clamp-cases :
    (e : External)
    → ((ltb_ℤ (get_usage_counter e) (pos 0) ≡ true) × (clamp e ≡ set_usage_counter (pos 0) e))
      ⊎ ((ltb_ℤ (get_usage_counter e) (pos 0) ≡ false) × (clamp e ≡ e))
unfolding clamp get_usage_counter set_usage_counter
clamp-cases e = elim (Bool-cases (ltb_ℤ e.usage_counter (pos 0))) [
  | inl t ↦ inl (t, rw t refl)
  | inr t ↦ inr (t, rw t refl)
]

module _ {W : Type 0} where
  Move-Includes :
      {close : ℕ → W → W} {s s' : Shared W} {pc pc' : Pc}
      → Move close s pc s' pc'
      → Includes s.stored s.keys
      → Includes s'.stored s'.keys
  Move-Includes (fail w) d = d
  Move-Includes (make _ _ _ _ _ _) d = d
  Move-Includes (store absent) d = λ x i. elim i [ inl same ↦ inl same | inr rest ↦ inr (d x rest) ]
  Move-Includes (find _) d = d
  Move-Includes (close_new _) d = d
  Move-Includes count d = d
  Move-Includes leave d = d
  Move-Includes (visit _ _) d = d
  Move-Includes decrement d = d
  Move-Includes (negative _) d = d
  Move-Includes (not_negative _) d = d
  Move-Includes reset d = d
  Move-Includes (unused _) d = d
  Move-Includes (used _) d = d
  Move-Includes (release _) d = d
  Move-Includes {s} (remove {k}) d = λ x i. d x (delete-Includes k s.keys x i)
  Move-Includes finish d = d

  pub Reaches-Includes :
      {close : ℕ → W → W} {s : Shared W} {pcs : List Pc}
      → Reaches close s pcs
      → Includes s.stored s.keys
  Reaches-Includes (begins objects w a) = λ x i. i
  Reaches-Includes {close} (steps before step) =
      Move-Includes (OneOf-IsOneMove step).move (Reaches-Includes before)

  -- The worker stands before its decision, and has done to the client of the visit what Disconnect does to it.
  pub record Visited (close : ℕ → W → W) (s : Shared W) (rest : List Pc) (seen : List String)
      (k : String) (p : ℕ) : Type 0 where
    pub after : Shared W
    pub reached : Reaches close after (deciding (k ∷ seen) k p ∷ rest)
    pub alone : Alone close s (ranging seen) after (deciding (k ∷ seen) k p)
    pub object : (after.objects p).external ≡ clamp (decrement_usage_counter (s.objects p).external)
    pub others :
        (j : String) (q : ℕ)
        → Owns s j q
        → j ≢ k
        → (after.objects q).external ≡ (s.objects q).external
    pub keys : after.keys ≡ s.keys
    pub world : after.world ≡ s.world

  pub visit-Visited :
      (close : ℕ → W → W) (s : Shared W) (rest : List Pc) (seen : List String) (k : String) (p : ℕ)
      → Reaches close s (ranging seen ∷ rest)
      → IsIn (k, p) s.keys
      → is_seen k seen ≡ false
      → Owns s k p
      → Visited close s rest seen k p
  visit-Visited close s rest seen k p run there new own =
      let within = Reaches-Includes run (k, p) there in
      let r1 = steps run (here (visit within new)) in
      let s1 : Shared W = modify p decrement_usage_counter s in
      let r2 : Reaches close s1 (testing (k ∷ seen) k p ∷ rest) = steps r1 (here decrement) in
      let a2 : Alone close s (ranging seen) s1 (testing (k ∷ seen) k p) =
        goes (goes rests (visit within new)) decrement in
      let e1 = modified_object s p decrement_usage_counter in
      elim (clamp-cases (s1.objects p).external) [
        | inl (t, c) ↦ record {
          after = modify p (set_usage_counter (pos 0)) s1;
          reached = steps (steps r2 (here (negative t))) (here reset);
          alone = goes (goes a2 (negative t)) reset;
          object = modified_object s1 p (set_usage_counter (pos 0)) ∙ sym c ∙ ap clamp e1;
          others = λ j q o other.
              let away = apart s j k q p o own other in
              unmodified_object s1 q p (set_usage_counter (pos 0)) away
              ∙ unmodified_object s q p decrement_usage_counter away;
          keys = refl;
          world = refl;
        }
        | inr (t, c) ↦ record {
          after = s1;
          reached = steps r2 (here (not_negative t));
          alone = goes a2 (not_negative t);
          object = sym c ∙ ap clamp e1;
          others = λ j q o other.
              unmodified_object s q p decrement_usage_counter (apart s j k q p o own other);
          keys = refl;
          world = refl;
        }
      ]
