-- ===== src/Controller/Connector/Shared/Entry.antt =====
-- A visit of a Disconnect that no other worker comes between does what release_entry does.
use provider_temporal.Base.{
  ℕ, ◌≡◌, refl, sym, subst, ap, ◌∙◌, String, inl, inr, Bool-cases, true, false, some, List, [], ◌∷◌,
  if◌then◌else◌, ◌++◌,
}
use provider_temporal.Go.Effects.{ok, Action, ◌>>=◌, pure}
use provider_temporal.Controller.Connector.Cache.{
  External, Clients, decrement_usage_counter, clamp, is_unused, release_entry, close_service,
}
use provider_temporal.Controller.Connector.Shared.{
  Shared, IsIn, is_seen, ranging, unused, used, release, remove, Pc, Reaches, steps, Alone, goes,
}
use provider_temporal.Controller.Connector.Interleaving.{here}
use provider_temporal.Controller.Connector.Shared.Ownership.{IsIn-Owns}
use provider_temporal.Controller.Connector.Shared.Safety.{Reaches-IsSound}
use provider_temporal.Controller.Connector.Shared.View.{view, Distinct, Reaches-Distinct}
use provider_temporal.Controller.Connector.Shared.Visit.{
  split_apart, delete_split, middle-IsIn, visit-Visited,
}

split-IsIn :
    (x y : String × ℕ) (before after : List (String × ℕ))
    → IsIn x (before ++ after)
    → IsIn x (before ++ (y ∷ after))
split-IsIn x y [] after i = inr i
split-IsIn x y (z ∷ before) after (inl same) = inl same
split-IsIn x y (z ∷ before) after (inr i) = inr (split-IsIn x y before after i)

module _ {W : Type 0} (close : ℕ → W → W) where
  abbrev decided : String → External → Action W Clients
  decided k x =
      if is_unused x then (close_service close x.service >>= λ _. pure []) else pure ((k, x) ∷ [])

  release_entry-decided :
      (k : String) (e : External) (w : W)
      → release_entry close k e w ≡ decided k (clamp (decrement_usage_counter e)) w
  unfolding release_entry
  release_entry-decided k e w = refl

  left_unused :
      (k : String) (e x : External) (h : ℕ) (w : W)
      → x ≡ clamp (decrement_usage_counter e)
      → is_unused x ≡ true
      → x.service ≡ some h
      → release_entry close k e w ≡ (ok [], close h w)
  left_unused k e x h w same t served =
      let here : decided k x w ≡ (ok [], close h w) = rw (t, served) refl in
      release_entry-decided k e w ∙ ap (λ y. decided k y w) (sym same) ∙ here

  left_used :
      (k : String) (e x : External) (w : W)
      → x ≡ clamp (decrement_usage_counter e)
      → is_unused x ≡ false
      → release_entry close k e w ≡ (ok ((k, x) ∷ []), w)
  left_used k e x w same t =
      let here : decided k x w ≡ (ok ((k, x) ∷ []), w) = rw t refl in
      release_entry-decided k e w ∙ ap (λ y. decided k y w) (sym same) ∙ here

module _ {W : Type 0} where
  -- A visit is over: the worker is back in Range, with `left` in the entry's place.
  pub record Entered (close : ℕ → W → W) (s : Shared W) (rest : List Pc) (seen : List String)
      (k : String) (p : ℕ) (before todo : List (String × ℕ)) : Type 0 where
    pub after : Shared W
    pub left : List (String × ℕ)
    pub reached : Reaches close after (ranging (k ∷ seen) ∷ rest)
    pub alone : Alone close s (ranging seen) after (ranging (k ∷ seen))
    pub same :
        release_entry close k (s.objects p).external s.world
        ≡ (ok (view after.objects left), after.world)
    pub keys : after.keys ≡ before ++ (left ++ todo)
    pub others :
        (j : String) (q : ℕ)
        → IsIn (j, q) (before ++ todo)
        → (after.objects q).external ≡ (s.objects q).external

  pub entry-Entered :
      (close : ℕ → W → W) (s : Shared W) (rest : List Pc) (seen : List String) (k : String) (p : ℕ)
      (before todo : List (String × ℕ))
      → Reaches close s (ranging seen ∷ rest)
      → s.keys ≡ before ++ ((k, p) ∷ todo)
      → is_seen k seen ≡ false
      → Entered close s rest seen k p before todo
  entry-Entered close s rest seen k p before todo run at new =
      let there : IsIn (k, p) s.keys = rw at (middle-IsIn (k, p) before todo) in
      let own = IsIn-Owns s k p s.keys (Reaches-IsSound run).owned.0 there in
      let v = visit-Visited close s rest seen k p run there new own in
      let d = subst Distinct at (Reaches-Distinct run) in
      let others : (j : String) (q : ℕ)
          → IsIn (j, q) (before ++ todo)
          → (v.after.objects q).external ≡ (s.objects q).external =
        λ j q i.
          v.others j q
            (IsIn-Owns s j q s.keys (Reaches-IsSound run).owned.0
              (rw at (split-IsIn (j, q) (k, p) before todo i)))
            (split_apart j k q p before todo d i) in
      let served = (Reaches-IsSound v.reached).fits.0.served in
      elim (Bool-cases (is_unused (v.after.objects p).external)) [
        | inl t ↦
            let r1 = steps v.reached (here (unused t)) in
            let closed : close_service close (v.after.objects p).external.service v.after.world
                ≡ (ok tt, close served.0 s.world) =
              rw (v.world, served.1) refl in
            let r2 = steps r1 (here (release closed)) in
            record {
              after = _;
              left = [];
              reached = steps r2 (here remove);
              alone = goes (goes (goes v.alone (unused t)) (release closed)) remove;
              same =
                  left_unused close k (s.objects p).external (v.after.objects p).external served.0
                    s.world v.object t served.1;
              keys = rw (v.keys, at) (delete_split k p before todo d);
              others = others;
            }
        | inr t ↦ record {
          after = v.after;
          left = (k, p) ∷ [];
          reached = steps v.reached (here (used t));
          alone = goes v.alone (used t);
          same = rw v.world (
              left_used close k (s.objects p).external (v.after.objects p).external s.world v.object
                t);
          keys = v.keys ∙ at;
          others = others;
        }
      ]
