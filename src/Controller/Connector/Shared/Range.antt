-- ===== src/Controller/Connector/Shared/Range.antt =====
-- A Disconnect that no other worker comes between: its visits in the order of the map do what disconnect does.
use mathlib.Core.List.{append_assoc}
use provider_temporal.Base.{
  ℕ, ◌≡◌, ◌≢◌, refl, sym, subst, ap, ◌∙◌, String, String-cases, inl, inr, false, List, [], ◌∷◌,
  ◌++◌,
}
use provider_temporal.Go.Effects.{ok}
use provider_temporal.Controller.Connector.Cache.{External, Clients, release_entry, disconnect}
use provider_temporal.Controller.Connector.Shared.{
  Object, Shared, IsIn, is_seen, idle, working, ranging, leave, finish, Pc, Reaches, steps, Alone,
  rests, goes, Alone-trans,
}
use provider_temporal.Controller.Connector.Interleaving.{here}
use provider_temporal.Controller.Connector.Shared.View.{view, Distinct, Reaches-Distinct}
use provider_temporal.Controller.Connector.Shared.Entry.{entry-Entered}
use provider_temporal.Controller.Connector.Shared.Visit.{split_apart}

before-IsIn :
    (x : String × ℕ) (before after : List (String × ℕ)) → IsIn x before → IsIn x (before ++ after)
before-IsIn x [] after i = elim i [ ]
before-IsIn x (y ∷ before) after (inl same) = inl same
before-IsIn x (y ∷ before) after (inr i) = inr (before-IsIn x before after i)

after-IsIn :
    (x : String × ℕ) (before after : List (String × ℕ)) → IsIn x after → IsIn x (before ++ after)
after-IsIn x [] after i = i
after-IsIn x (y ∷ before) after i = inr (after-IsIn x before after i)

view-append : (o : ℕ → Object) (m n : List (String × ℕ)) → view o (m ++ n) ≡ view o m ++ view o n
view-append o [] n = refl
view-append o ((k, p) ∷ m) n = ap (λ x. (k, (o p).external) ∷ x) (view-append o m n)

view_same :
    (o o' : ℕ → Object) (m : List (String × ℕ))
    → ((j : String) (q : ℕ) → IsIn (j, q) m → (o' q).external ≡ (o q).external)
    → view o' m ≡ view o m
view_same o o' [] same = refl
view_same o o' ((k, p) ∷ m) same =
    rw (same k p (inl refl), view_same o o' m (λ j q i. same j q (inr i))) refl

unseen_lem :
    (j k : String) (seen : List String)
    → j ≢ k
    → is_seen j seen ≡ false
    → is_seen j (k ∷ seen) ≡ false
unseen_lem j k seen other new = elim (String-cases k j) [
  | inl (same, t) ↦ elim (other (sym same)) [ ]
  | inr (differ, t) ↦ rw t new
]

module _ {W : Type 0} where
  disconnect_step :
      (close : ℕ → W → W) (k : String) (e : External) (m l o : Clients) (w w1 w2 : W)
      → release_entry close k e w ≡ (ok l, w1)
      → disconnect close m w1 ≡ (ok o, w2)
      → disconnect close ((k, e) ∷ m) w ≡ (ok (l ++ o), w2)
  unfolding disconnect
  disconnect_step close k e m l o w w1 w2 first rest = rw (first, rest) refl

  -- Range is over, with `left` in the place of the entries that were left to visit.
  pub record Ranged (close : ℕ → W → W) (s : Shared W) (rest : List Pc) (seen : List String)
      (before todo : List (String × ℕ)) : Type 0 where
    pub after : Shared W
    pub left : List (String × ℕ)
    pub reached : Reaches close after (idle ∷ rest)
    pub alone : Alone close s (ranging seen) after idle
    pub same :
        disconnect close (view s.objects todo) s.world ≡ (ok (view after.objects left), after.world)
    pub keys : after.keys ≡ before ++ left
    pub others :
        (j : String) (q : ℕ)
        → IsIn (j, q) before
        → (after.objects q).external ≡ (s.objects q).external

  range-Ranged :
      (close : ℕ → W → W) (s : Shared W) (rest : List Pc) (seen : List String)
      (before todo : List (String × ℕ))
      → Reaches close s (ranging seen ∷ rest)
      → s.keys ≡ before ++ todo
      → ((j : String) (q : ℕ) → IsIn (j, q) todo → is_seen j seen ≡ false)
      → Ranged close s rest seen before todo
  unfolding disconnect
  range-Ranged close s rest seen before [] run at new = record {
    after = s;
    left = [];
    reached = steps run (here finish);
    alone = goes rests finish;
    same = refl;
    keys = at;
    others = λ j q i. refl;
  }
  range-Ranged close s rest seen before ((k, p) ∷ todo) run at new =
      let en = entry-Entered close s rest seen k p before todo run at (new k p (inl refl)) in
      let d = subst Distinct at (Reaches-Distinct run) in
      let r =
        range-Ranged close en.after rest (k ∷ seen) (before ++ en.left) todo en.reached
          (en.keys ∙ sym (append_assoc before en.left todo))
          (λ j q i.
            unseen_lem j k seen
              (split_apart j k q p before todo d (after-IsIn (j, q) before todo i))
              (new j q (inr i))) in
      record {
        after = r.after;
        left = en.left ++ r.left;
        reached = r.reached;
        alone = Alone-trans close en.alone r.alone;
        same = rw (view-append r.after.objects en.left r.left) (
            disconnect_step close k (s.objects p).external (view s.objects todo)
              (view r.after.objects en.left) (view r.after.objects r.left) s.world en.after.world
              r.after.world
              (rw
                (view_same en.after.objects r.after.objects en.left
                  (λ j q i. r.others j q (after-IsIn (j, q) before en.left i)))
                en.same)
              (subst
                (λ m.
                  disconnect close m en.after.world
                  ≡ (ok (view r.after.objects r.left), r.after.world))
                (view_same s.objects en.after.objects todo
                  (λ j q i. en.others j q (after-IsIn (j, q) before todo i)))
                r.same));
        keys = r.keys ∙ append_assoc before en.left r.left;
        others = λ j q i.
            r.others j q (before-IsIn (j, q) before en.left i)
            ∙ en.others j q (before-IsIn (j, q) before todo i);
      }

  -- The worker is idle again, and the clients are as disconnect leaves them.
  pub record Disconnected (close : ℕ → W → W) (s : Shared W) (rest : List Pc) (k : String) (p : ℕ)
      : Type 0 where
    pub after : Shared W
    pub alone : Alone close s (working k p) after idle
    pub reached : Reaches close after (idle ∷ rest)
    pub same :
        disconnect close (view s.objects s.keys) s.world
        ≡ (ok (view after.objects after.keys), after.world)

  -- From any state that workers come to whose Connects and Disconnects interleave, all of them idle
  -- at first and the map empty: a worker that works with a client can go through Range by steps of
  -- its own alone, no other worker coming between, to where it is idle; map, objects and
  -- connections are then what disconnect makes of them at once.
  pub disconnect-Disconnected :
      (close : ℕ → W → W) (s : Shared W) (rest : List Pc) (k : String) (p : ℕ)
      → Reaches close s (working k p ∷ rest)
      → Disconnected close s rest k p
  disconnect-Disconnected close s rest k p run =
      let r =
        range-Ranged close s rest [] [] s.keys (steps run (here leave)) refl (λ j q i. refl) in
      record {
        after = r.after;
        alone = Alone-trans close (goes rests leave) r.alone;
        reached = r.reached;
        same = rw r.keys r.same;
      }
