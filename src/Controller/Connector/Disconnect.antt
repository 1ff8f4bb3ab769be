-- ===== src/Controller/Connector/Disconnect.antt =====
-- What Disconnect does to a cache.
use mathlib.Core.Option
use provider_temporal.Base.{
  ℕ, zero, suc, ◌≡◌, refl, sym, ◌∙◌, String, false, none, some, [], ◌∷◌, if◌then◌else◌, arith,
}
use provider_temporal.Base.Int.{pos}
use provider_temporal.Go.Effects.{Result, ok, err, panic}
use provider_temporal.Controller.Connector.Cache.{
  External, Clients, load, decrement_usage_counter, clamp, release_entry, disconnect,
}
use provider_temporal.Controller.Connector.Invariant.{IsCache, Connections, IsExactly}
use provider_temporal.Controller.Connector.Remaining.{
  one_less, remaining, dropped, remaining_last, remaining_shared, dropped_last, dropped_shared,
  owned-remaining, load-remaining, remaining-IsCache, dropped-load,
}

module _ {W : Type 0} (close : ℕ → W → W) where
  -- One entry of a held client: it is closed and left out, or kept with a user less.
  release_last :
      (k : String) (e : External) (h : ℕ) (w : W)
      → e.service ≡ some h
      → e.usage_counter ≡ pos 1
      → release_entry close k e w ≡ (ok [], close h w)
  unfolding release_entry
  release_last k e h w p q = ground arith

  clamp_shared :
      (e : External) (n : ℕ)
      → e.usage_counter ≡ pos (suc (suc n))
      → clamp (decrement_usage_counter e) ≡ record e { usage_counter = pos (suc n) }
  unfolding clamp decrement_usage_counter
  clamp_shared e n q = rw q (ground arith)

  release_shared :
      (k : String) (e : External) (n : ℕ) (w : W)
      → e.usage_counter ≡ pos (suc (suc n))
      → release_entry close k e w ≡ (ok ((k, record e { usage_counter = pos (suc n) }) ∷ []), w)
  unfolding release_entry
  release_shared k e n w q = ground (arith, clamp_shared e n q)

module _ {W : Type 0} {close : ℕ → W → W} (c : Connections close) where
  pub disconnect-remaining :
      (m : Clients) (w : W)
      → IsCache m
      → (w' : W) × (disconnect close m w ≡ (ok (remaining m), w'))
        × ((d : ℕ) → c.is_open w' d ≡ (if dropped m d then false else c.is_open w d))
  unfolding disconnect
  disconnect-remaining [] w v = (w, unfold remaining in refl, λ d. unfold dropped in refl)
  disconnect-remaining ((k, e) ∷ m) w (absent, (h, zero, p, q, apart), v) =
      let (w', left, closed) = disconnect-remaining m (close h w) v in
      (
        w',
        rw (release_last close k e h w p q, left, remaining_last k e m q) refl,
        λ d. rw (dropped_last k e m d q, closed d, c.close_lem h d w, p) (ground arith),
      )
  disconnect-remaining ((k, e) ∷ m) w (absent, (h, suc n, p, q, apart), v) =
      let (w', left, closed) = disconnect-remaining m w v in
      (
        w',
        rw (release_shared close k e n w q, left, remaining_shared k e m n q) refl,
        λ d. rw (dropped_shared k e m n d q) (closed d),
      )

module _ {W : Type 0} {close : ℕ → W → W} (c : Connections close) where
  abbrev pub Disconnects : Clients → Result Clients × W → Type 0
  Disconnects m (ok m', w') =
      IsCache m' × IsExactly c w' m' × ((k : String) → load k m' ≡ Option.bind (load k m) one_less)
  Disconnects m (err e, w') = ⊥
  Disconnects m (panic, w') = ⊥

  -- From a well-formed cache whose connections are just the open ones, Disconnect succeeds, keeps
  -- both, and takes one user from every client, so that those with a single one are closed and
  -- gone.
  pub disconnect-Disconnects :
      (m : Clients) (w : W) → IsCache m → IsExactly c w m → Disconnects m (disconnect close m w)
  disconnect-Disconnects m w v exact =
      let (w', done, closed) = disconnect-remaining c m w v in
      rw done (
        remaining-IsCache m v,
        (λ d. rw (closed d, exact d) (sym (owned-remaining m d v))),
        λ k. load-remaining k m v,
      )

module _ {W : Type 0} {close : ℕ → W → W} (c : Connections close) where
  -- A client of a well-formed cache that has one user is closed and forgotten by the next
  -- Disconnect, which succeeds.
  pub disconnect_closes_single :
      (k : String) (e : External) (h : ℕ) (m : Clients) (w : W)
      → IsCache m
      → load k m ≡ some e
      → e.service ≡ some h
      → e.usage_counter ≡ pos 1
      → (m' : Clients) × (w' : W) × (disconnect close m w ≡ (ok m', w'))
        × (load k m' ≡ none)
        × (c.is_open w' h ≡ false)
  unfolding Option.bind
  disconnect_closes_single k e h m w v l p q =
      let (w', done, closed) = disconnect-remaining c m w v in
      (
        remaining m,
        w',
        done,
        load-remaining k m v ∙ rw (l, q) refl,
        closed h ∙ rw (dropped-load k e h m v l p q) refl,
      )
