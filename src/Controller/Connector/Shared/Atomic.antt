-- ===== src/Controller/Connector/Shared/Atomic.antt =====
-- A Connect and a Disconnect whose steps no other worker comes between do to the cache what checkout and disconnect
-- of Controller/Connector/Cache do at once.
use provider_temporal.Base.{
  ℕ, ◌≡◌, refl, ◌∙◌, String, Option-cases, inl, inr, true, false, some, none, List, ◌∷◌, eq_refl,
  nat_eq, arith,
}
use provider_temporal.Base.Int.{pos}
use provider_temporal.Go.Effects.{ok}
use provider_temporal.Controller.Connector.Cache.{
  External, Clients, modify_entry, load_or_store, checkout, disconnect, increment_usage_counter,
  close_service,
}
use provider_temporal.Controller.Connector.Cache
use provider_temporal.Controller.Connector.Shared.{
  Shared, load, modify, allocate, idle, made, counting, working, make, store, find, close_new,
  count, Pc, Reaches, steps, Alone, rests, goes,
}
use provider_temporal.Controller.Connector.Interleaving.{here}
use provider_temporal.Controller.Connector.Shared.Ownership.{Owns, load-Owns}
use provider_temporal.Controller.Connector.Shared.Safety.{Reaches-IsSound}
use provider_temporal.Controller.Connector.Shared.View.{
  view, view-load, view-load-none, view-allocate, view-modify, modified_object, Reaches-Distinct,
}

module _ {W : Type 0} where
  -- The worker has its client, and the clients are as checkout leaves them for a client that was made for `k`.
  pub record Connects (close : ℕ → W → W) (s : Shared W) (rest : List Pc) (k : String)
      (e : External) (w : W) : Type 0 where
    pub after : Shared W
    pub client : ℕ
    pub alone : Alone close s idle after (working k client)
    pub reached : Reaches close after (working k client ∷ rest)
    pub same :
        checkout close k e (view s.objects s.keys) w
        ≡ (ok ((after.objects client).external, view after.objects after.keys), after.world)

  counted_view :
      (close : ℕ → W → W) (t : Shared W) (rest : List Pc) (k : String) (p : ℕ)
      → Reaches close t (counting k p ∷ rest)
      → load k t.keys ≡ some p
      → view (modify p increment_usage_counter t).objects t.keys
        ≡ modify_entry k increment_usage_counter (view t.objects t.keys)
  counted_view close t rest k p run there =
      view-modify t k p increment_usage_counter t.keys (Reaches-IsSound run).owned.0
        (Reaches-Distinct run) there

  made_object :
      (s : Shared W) (k : String) (e : External) → ((allocate k e s).objects s.next).external ≡ e
  made_object s k e = let here : nat_eq s.next s.next ≡ true = ground arith in rw here refl

  kept_object :
      (s : Shared W) (k j : String) (e : External) (p : ℕ)
      → Owns s j p
      → ((allocate k e s).objects p).external ≡ (s.objects p).external
  kept_object s k j e p o =
      let other : nat_eq p s.next ≡ false = ground (arith, o.used) in rw other refl

  checkout_new :
      (close : ℕ → W → W) (k : String) (e : External) (m : Clients) (w : W)
      → Cache.load k m ≡ none
      → checkout close k e m w
        ≡ (ok (increment_usage_counter e, modify_entry k increment_usage_counter ((k, e) ∷ m)), w)
  unfolding checkout load_or_store
  checkout_new close k e m w absent = rw absent refl

  checkout_old :
      (close : ℕ → W → W) (k : String) (e x : External) (h : ℕ) (m : Clients) (w : W)
      → Cache.load k m ≡ some x
      → e.service ≡ some h
      → checkout close k e m w
        ≡ (ok (increment_usage_counter x, modify_entry k increment_usage_counter m), close h w)
  unfolding checkout load_or_store
  checkout_old close k e x h m w there served = rw (there, served) refl

  counted-Connects :
      (close : ℕ → W → W) (s t : Shared W) (rest : List Pc) (k : String) (e : External) (w : W)
      (p : ℕ)
      → Reaches close t (counting k p ∷ rest)
      → Alone close s idle t (counting k p)
      → load k t.keys ≡ some p
      → checkout close k e (view s.objects s.keys) w ≡ (
        ok (
          increment_usage_counter (t.objects p).external,
          modify_entry k increment_usage_counter (view t.objects t.keys),
        ),
        t.world,
      )
      → Connects close s rest k e w
  counted-Connects close s t rest k e w p run alone there same = record {
    after = modify p increment_usage_counter t;
    client = p;
    alone = goes alone count;
    reached = steps run (here count);
    same =
        rw (modified_object t p increment_usage_counter, counted_view close t rest k p run there)
          same;
  }

  -- From any state that workers come to whose Connects and Disconnects interleave, all of them idle
  -- at first and the map empty: an idle worker that makes a client with a service and the counter 0
  -- for a key can go on by steps of its own alone, no other worker coming between, to where it
  -- works with a client of the key; map, objects and connections are then what checkout makes of
  -- them at once.
  pub checkout-Connects :
      (close : ℕ → W → W) (s : Shared W) (rest : List Pc) (k : String) (e : External) (h : ℕ)
      (w : W)
      → Reaches close s (idle ∷ rest)
      → e.service ≡ some h
      → e.usage_counter ≡ pos 0
      → Connects close s rest k e w
  checkout-Connects close s rest k e h w run served unused =
      let s1 : Shared W = record s { world = w } in
      let t : Shared W = allocate k e s1 in
      let r1 : Reaches close t (made k s.next ∷ rest) =
        steps run (here (make k e h w served unused)) in
      let a1 : Alone close s idle t (made k s.next) = goes rests (make k e h w served unused) in
      let v = (Reaches-IsSound run).owned.0 in
      let closed : close_service close (t.objects s.next).external.service t.world
          ≡ (ok tt, close h w) =
        rw (made_object s1 k e, served) refl in
      let kept = view-allocate s k e s.keys v in
      elim (Option-cases (load k s.keys)) [
        | inl absent ↦
            counted-Connects close s
              (record t { keys = (k, s.next) ∷ s.keys; stored = (k, s.next) ∷ s.stored }) rest k e w
              s.next (steps r1 (here (store absent))) (goes a1 (store absent)) (rw (eq_refl k) refl)
              (checkout_new close k e (view s.objects s.keys) w (view-load-none s k s.keys absent)
                ∙ rw (made_object s k e, kept) refl)
        | inr (p, there) ↦
            counted-Connects close s (record t { world = close h w }) rest k e w p
              (steps (steps r1 (here (find there))) (here (close_new closed)))
              (goes (goes a1 (find there)) (close_new closed)) there
              (checkout_old close k e (s.objects p).external h (view s.objects s.keys) w
                  (view-load s k p s.keys there) served
                ∙ rw (kept_object s k k e p (load-Owns s k p s.keys v there), kept) refl)
      ]
