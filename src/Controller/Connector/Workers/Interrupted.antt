-- ===== src/Controller/Connector/Workers/Interrupted.antt =====
-- A Connect and a Disconnect of another worker that comes after its LoadOrStore and before its increment.
use mathlib.Core.Option
use provider_temporal.Base.{
  ℕ, zero, suc, ◌≡◌, refl, ◌∙◌, inl, inr, String, String-cases, Bool, false, Option-cases, none,
  some, [], ◌∷◌, if◌then◌else◌, eq_refl, arith,
}
use provider_temporal.Base.Int.{pos}
use provider_temporal.Go.Effects.{Action, ok, ◌>>=◌, ◌>>◌, pure}
use provider_temporal.Controller.Connector.Cache.{
  External, Clients, load, load_or_store, modify_entry, increment_usage_counter,
  decrement_usage_counter, clamp, is_unused, close_service, release_entry, disconnect,
}
use provider_temporal.Controller.Connector.Invariant.{IsCache, Connections}
use provider_temporal.Controller.Connector.Remaining.{
  remaining, one_less, load-remaining, dropped-load,
}
use provider_temporal.Controller.Connector.Disconnect.{disconnect-remaining}
use provider_temporal.Controller.Connector.Checkout.{IsFresh, service-increment, load-modify_entry}

module _ {W : Type 0} (close : ℕ → W → W) where
  abbrev pub use_interrupted :
      String → External → External × Bool × Clients → Action W (External × Clients)
  use_interrupted cred_hash fresh (ext, loaded, m) = do
    if loaded then close_service close fresh.service else pure tt
    left ← disconnect close m
    pure (increment_usage_counter ext, modify_entry cred_hash increment_usage_counter left)

  -- As checkout, with a Disconnect in between.
  unfoldable pub checkout_interrupted : String → External → Clients → Action W (External × Clients)
  checkout_interrupted cred_hash fresh m =
      use_interrupted cred_hash fresh (load_or_store cred_hash fresh m)

  -- A client that was just stored has no user, so that a user less leaves none.
  release_fresh :
      (k : String) (e : External) (h : ℕ) (w : W)
      → e.service ≡ some h
      → e.usage_counter ≡ pos 0
      → release_entry close k e w ≡ (ok [], close h w)
  unfolding release_entry clamp decrement_usage_counter is_unused
  release_fresh k e h w p q = ground arith

  disconnect_fresh :
      (k : String) (e : External) (h : ℕ) (m r : Clients) (w w' : W)
      → e.service ≡ some h
      → e.usage_counter ≡ pos 0
      → disconnect close m (close h w) ≡ (ok r, w')
      → disconnect close ((k, e) ∷ m) w ≡ (ok r, w')
  unfolding disconnect
  disconnect_fresh k e h m r w w' p q done = rw (release_fresh k e h w p q, done) refl

-- A key's client that a user less leaves nothing of has one user.
single_user :
    (k : String) (e : External) (m : Clients)
    → IsCache m
    → load k m ≡ some e
    → one_less e ≡ none
    → ((h : ℕ) × (e.service ≡ some h)) × (e.usage_counter ≡ pos 1)
unfolding load
single_user k e [] v l last = cc
single_user k e ((j, x) ∷ m) (_, (h, n, p, q, _), v) l last = elim (String-cases j k) [
  | inl (same, t) ↦ let eq : x ≡ e = cc (rw t at l) in ((h, rw (← eq) p), one n (rw (← eq) q))
  | inr (other, t) ↦ single_user k e m v (rw t at l) last
]
  where
    one : (n : ℕ) → e.usage_counter ≡ pos (suc n) → e.usage_counter ≡ pos 1
    one zero q = q
    one (suc n) q = cc (rw q at last)

module _ {W : Type 0} {close : ℕ → W → W} (c : Connections close) where
  -- The client that a Connect gives is not in the cache and its connection is closed.
  abbrev pub Loses : String → External → Clients → W → Type 0
  Loses k fresh m w =
      (ext : External) × (h : ℕ) × (m' : Clients) × (w' : W) × (checkout_interrupted close k fresh m
          w
        ≡ (ok (ext, m'), w'))
      × (ext.service ≡ some h)
      × (c.is_open w' h ≡ false)
      × (load k m' ≡ none)

  forgotten :
      (k : String) (m : Clients)
      → IsCache m
      → Option.bind (load k m) one_less ≡ none
      → load k (modify_entry k increment_usage_counter (remaining m)) ≡ none
  forgotten k m v last =
      load-modify_entry k k increment_usage_counter (remaining m)
      ∙ rw (load-remaining k m v, last, eq_refl k) refl

  Loses-none :
      (k : String) (fresh : External) (m : Clients) (w : W)
      → IsCache m
      → IsFresh c fresh m w
      → load k m ≡ none
      → Loses k fresh m w
  unfolding checkout_interrupted load_or_store Option.bind
  Loses-none k fresh m w v f e =
      let (w', done, closed) = disconnect-remaining c m (close f.handle w) v in
      let whole =
        disconnect_fresh close k fresh f.handle m (remaining m) w w' f.served f.unused done in
      (
        increment_usage_counter fresh,
        f.handle,
        modify_entry k increment_usage_counter (remaining m),
        w',
        rw (e, whole) refl,
        service-increment fresh ∙ f.served,
        rw (closed f.handle, c.close_lem f.handle f.handle w) (ground arith),
        forgotten k m v (rw e refl),
      )

  Loses-some :
      (k : String) (fresh old : External) (m : Clients) (w : W)
      → IsCache m
      → IsFresh c fresh m w
      → load k m ≡ some old
      → one_less old ≡ none
      → Loses k fresh m w
  unfolding checkout_interrupted load_or_store Option.bind
  Loses-some k fresh old m w v f e last =
      let ((h, p), q) = single_user k old m v e last in
      let (w', done, closed) = disconnect-remaining c m (close f.handle w) v in
      (
        increment_usage_counter old,
        h,
        modify_entry k increment_usage_counter (remaining m),
        w',
        rw (e, f.served, done) refl,
        service-increment old ∙ p,
        closed h ∙ rw (dropped-load k old h m v e p q) refl,
        forgotten k m v (rw (e, last) refl),
      )

  -- From a well-formed cache in which the key has no client or one with a single user, with a new
  -- client whose connection is open beside those of the cache: when another worker's Disconnect
  -- comes between the LoadOrStore and the increment, Connect still succeeds, with a client whose
  -- connection is closed and which is not in the cache.
  pub checkout_interrupted-Loses :
      (k : String) (fresh : External) (m : Clients) (w : W)
      → IsCache m
      → IsFresh c fresh m w
      → Option.bind (load k m) one_less ≡ none
      → Loses k fresh m w
  unfolding Option.bind
  checkout_interrupted-Loses k fresh m w v f last = elim (Option-cases (load k m)) [
    | inl e ↦ Loses-none k fresh m w v f e
    | inr (old, e) ↦ Loses-some k fresh old m w v f e (rw e at last)
  ]
