-- ===== src/Controller/Connector/Shared/Race.antt =====
-- Two workers whose Disconnects come between each other, and the new client that one of them then takes out
-- of the map of the other.
use provider_temporal.Base.{
  ℕ, ◌≡◌, refl, String, String-cases, inl, inr, some, none, List, [], ◌∷◌, eq_refl,
}
use provider_temporal.Base.Int.{pos, ◌+ℤ◌, ◌-ℤ◌}
use provider_temporal.Controller.Connector.Cache.{
  External, increment_usage_counter, decrement_usage_counter, get_usage_counter, is_unused,
}
use provider_temporal.Controller.Connector.Shared.{
  Object, Shared, load, delete, idle, working, make, store, find, close_new, count, leave, visit,
  decrement, not_negative, unused, release, remove, finish, Reaches, begins, steps,
}
use provider_temporal.Controller.Connector.Interleaving.{here, there}

load-delete : (k : String) (m : List (String × ℕ)) → load k (delete k m) ≡ none
load-delete k [] = refl
load-delete k ((j, p) ∷ m) =
    let rest = load-delete k m in
    elim (String-cases j k) [ inl (same, t) ↦ rw t rest | inr (other, t) ↦ rw (t, t) rest ]

load_own : (k : String) (p : ℕ) (m : List (String × ℕ)) → load k ((k, p) ∷ m) ≡ some p
load_own k p m = rw (eq_refl k) refl

abbrev fresh : ℕ → External
fresh h = record { service = some h; id = ""; usage_counter = pos 0 }

module _ {W : Type 0} (close : ℕ → W → W) (k : String) (w : W) (objects : ℕ → Object) where
  abbrev start : Shared W
  start = record { next = 0; objects = objects; keys = []; stored = []; world = w }

  -- For any key there is an interleaving of the Connects and the Disconnects of two workers after
  -- which one of them works with a client whose counter is 1, the other is idle again, and the map
  -- has no client under the key.
  pub remove-forgets :
      (s : Shared W) × (p : ℕ) × Reaches close s (idle ∷ working k p ∷ [])
      × (load k s.keys ≡ none)
      × (get_usage_counter (s.objects p).external ≡ pos 1)
  unfolding increment_usage_counter decrement_usage_counter get_usage_counter is_unused ◌+ℤ◌ ◌-ℤ◌
  remove-forgets =
      let r0 : Reaches close start (idle ∷ idle ∷ []) = begins objects w (refl, (refl, tt)) in
      let r1 = steps r0 (here (make k (fresh 0) 0 w refl refl)) in
      let r2 = steps r1 (here (store refl)) in
      let r3 = steps r2 (there (here (make k (fresh 1) 1 w refl refl))) in
      let r4 = steps r3 (there (here (find (load_own k 0 [])))) in
      let r5 = steps r4 (there (here (close_new {w = close 1 w} refl))) in
      let r6 = steps r5 (here count) in
      let r7 = steps r6 (there (here count)) in
      let r8 = steps r7 (here leave) in
      let r9 = steps r8 (here (visit {k = k} {p = 0} (inl refl) refl)) in
      let r10 = steps r9 (here decrement) in
      let r11 = steps r10 (there (here leave)) in
      let r12 = steps r11 (there (here (visit {k = k} {p = 0} (inl refl) refl))) in
      let r13 = steps r12 (there (here decrement)) in
      let r14 = steps r13 (here (not_negative refl)) in
      let r15 = steps r14 (here (unused refl)) in
      let r16 = steps r15 (here (release {w = close 0 (close 1 w)} refl)) in
      let r17 = steps r16 (there (here (not_negative refl))) in
      let r18 = steps r17 (there (here (unused refl))) in
      let r19 = steps r18 (there (here (release {w = close 0 (close 0 (close 1 w))} refl))) in
      let r20 = steps r19 (there (here remove)) in
      let r21 = steps r20 (there (here finish)) in
      let r22 = steps r21 (there (here (make k (fresh 2) 2 w refl refl))) in
      let r23 = steps r22 (there (here (store (load-delete k ((k, 0) ∷ []))))) in
      let r24 = steps r23 (there (here count)) in
      let r25 = steps r24 (here remove) in
      let r26 = steps r25 (here finish) in
      (_, 2, r26, load-delete k ((k, 2) ∷ delete k ((k, 0) ∷ [])), refl)
