-- ===== src/Controller/Connector/Drain.antt =====
-- Disconnects one after the other, until no client is left.
use provider_temporal.Base.{ℕ, zero, suc, ◌≡◌, refl, sym, ◌∙◌, ◌≤◌, false, [], ◌∷◌, arith}
use provider_temporal.Base.Int.{pos}
use provider_temporal.Go.Effects.{Action, ok, ◌>>=◌, pure}
use provider_temporal.Controller.Connector.Cache.{Clients, disconnect}
use provider_temporal.Controller.Connector.Invariant.{owned, IsCache, Connections, IsExactly}
use provider_temporal.Controller.Connector.Remaining.{
  remaining, remaining_last, remaining_shared, remaining-IsCache, owned-remaining,
}
use provider_temporal.Controller.Connector.Disconnect.{disconnect-remaining}

-- No client has more than `n` users.
abbrev pub AtMost : ℕ → Clients → Type 0
AtMost n [] = Unit
AtMost n ((k, e) ∷ m) = ((j : ℕ) × (e.usage_counter ≡ pos j) × (j ≤ n)) × AtMost n m

remaining-AtMost : (n : ℕ) (m : Clients) → IsCache m → AtMost (suc n) m → AtMost n (remaining m)
remaining-AtMost n [] v b = unfold remaining in tt
remaining-AtMost n ((k, e) ∷ m) (_, (h, zero, p, q, _), v) (_, b) =
    rw (remaining_last k e m q) (remaining-AtMost n m v b)
remaining-AtMost n ((k, e) ∷ m) (_, (h, suc i, p, q, _), v) ((j, r, le), b) =
    rw (remaining_shared k e m i q) (
      (suc i, refl, (let eq : pos j ≡ pos (suc (suc i)) = sym r ∙ q in ground arith)),
      remaining-AtMost n m v b,
    )

AtMost-zero : (m : Clients) → IsCache m → AtMost 0 m → m ≡ []
AtMost-zero [] v b = refl
AtMost-zero ((k, e) ∷ m) (_, (h, i, p, q, _), v) ((j, r, le), b) =
    let eq : pos j ≡ pos (suc i) = sym r ∙ q in absurd (ground arith)

module _ {W : Type 0} (close : ℕ → W → W) where
  -- `n` calls of Disconnect.
  unfoldable pub disconnect_times : ℕ → Clients → Action W Clients
  disconnect_times zero m = pure m
  disconnect_times (suc n) m = disconnect close m >>= disconnect_times n

module _ {W : Type 0} {close : ℕ → W → W} (c : Connections close) where
  -- From a well-formed cache whose connections are just the open ones, and in which no client has
  -- more than `n` users, `n` calls of Disconnect succeed and leave no client and no open
  -- connection.
  pub disconnect_times-Drains :
      (n : ℕ) (m : Clients) (w : W)
      → IsCache m
      → IsExactly c w m
      → AtMost n m
      → (w' : W) × (disconnect_times close n m w ≡ (ok [], w')) × ((d : ℕ) → c.is_open w' d ≡ false)
  unfolding disconnect_times
  disconnect_times-Drains zero m w v exact b =
      let empty = AtMost-zero m v b in
      (w, rw empty refl, λ d. exact d ∙ rw empty (unfold owned in refl))
  disconnect_times-Drains (suc n) m w v exact b =
      let (w1, done, closed) = disconnect-remaining c m w v in
      let (w', rest, none_open) =
        disconnect_times-Drains n (remaining m) w1 (remaining-IsCache m v)
          (λ d. rw (closed d, exact d) (sym (owned-remaining m d v))) (remaining-AtMost n m v b) in
      (w', rw done rest, none_open)
