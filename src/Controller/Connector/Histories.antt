-- ===== src/Controller/Connector/Histories.antt =====
-- Connects and disconnects, one after the other.
use mathlib.Core.Option
use provider_temporal.Base.{
  ℕ, zero, suc, ◌≡◌, refl, ◌∙◌, String, false, Option, none, some, [], eq_refl, subst, nat_eq, sym,
  ap, ◌||◌,
}
use provider_temporal.Base.Int.{pos}
use provider_temporal.Go.Effects.{ok}
use provider_temporal.Controller.Connector.Cache.{
  External, Clients, load, increment_usage_counter, checkout, disconnect,
}
use provider_temporal.Controller.Connector.Invariant.{owned, IsCache, Connections, IsExactly}
use provider_temporal.Controller.Connector.Disconnect.{Disconnects, disconnect-Disconnects}
use provider_temporal.Controller.Connector.Remaining.{one_less}
use provider_temporal.Controller.Connector.Checkout.{
  Checks, IsFresh, existing, checkout-Checks, increment_held,
}

module _ {W : Type 0} {close : ℕ → W → W} (c : Connections close) where
  -- A new client whose connection the step from `w` to `w1` opened, and no user yet.
  pub record IsBrought (fresh : External) (w w1 : W) : Type 0 where
    pub handle : ℕ
    pub served : fresh.service ≡ some handle
    pub unused : fresh.usage_counter ≡ pos 0
    pub closed : c.is_open w handle ≡ false
    pub opened : (d : ℕ) → c.is_open w1 d ≡ (nat_eq d handle || c.is_open w d)

  IsFresh-IsBrought :
      {fresh : External} {m : Clients} {w w1 : W}
      → IsBrought fresh w w1
      → IsExactly c w m
      → IsFresh c fresh m w1
  IsFresh-IsBrought b exact = record {
    handle = b.handle;
    served = b.served;
    unused = b.unused;
    apart = sym (exact b.handle) ∙ b.closed;
    opened = λ d. b.opened d ∙ ap (λ o. nat_eq d b.handle || o) (exact d);
  }

  -- Any successful calls of any workers, with any credentials.
  pub data Reaches : Clients → W → Type 0 where
    starts : (w : W) → ((d : ℕ) → c.is_open w d ≡ false) → Reaches [] w
    connects :
        {m m' : Clients} {w w1 w' : W} {ext : External} (k : String) (fresh : External)
        → Reaches m w
        → IsBrought fresh w w1
        → checkout close k fresh m w1 ≡ (ok (ext, m'), w')
        → Reaches m' w'
    disconnects :
        {m m' : Clients} {w w' : W}
        → Reaches m w
        → disconnect close m w ≡ (ok m', w')
        → Reaches m' w'

  -- After any history each key has one client with a user at least, and open are just the connections
  -- of these clients.
  pub Reaches-IsExactly : {m : Clients} {w : W} → Reaches m w → IsCache m × IsExactly c w m
  Reaches-IsExactly (starts w closed) = (tt, λ d. unfold owned in closed d)
  Reaches-IsExactly (connects {m} {m'} {w} {w1} {w'} {ext} k fresh r f q) =
      let (v, exact) = Reaches-IsExactly r in
      let checks =
        subst (Checks c k fresh m) q
          (checkout-Checks c k fresh m w1 v (IsFresh-IsBrought f exact)) in
      (checks.0, checks.1)
  Reaches-IsExactly (disconnects {m} {m'} {w} {w'} r q) =
      let (v, exact) = Reaches-IsExactly r in
      let rests = subst (Disconnects c m) q (disconnect-Disconnects c m w v exact) in
      (rests.0, rests.1)

  -- What a key's client looks like with `n` users.
  abbrev pub Uses : ℕ → Option External → Type 0
  Uses zero o = o ≡ none
  Uses (suc n) o = (e : External) × (o ≡ some e) × (e.usage_counter ≡ pos (suc n))

  -- A history of workers that all have the same credentials, with the number of those that are
  -- connected.
  pub data Shares (k : String) : ℕ → Clients → W → Type 0 where
    starts : (w : W) → ((d : ℕ) → c.is_open w d ≡ false) → Shares k 0 [] w
    connects :
        {n : ℕ} {m m' : Clients} {w w1 w' : W} {ext : External} (fresh : External)
        → Shares k n m w
        → IsBrought fresh w w1
        → checkout close k fresh m w1 ≡ (ok (ext, m'), w')
        → Shares k (suc n) m' w'
    disconnects :
        {n : ℕ} {m m' : Clients} {w w' : W}
        → Shares k (suc n) m w
        → disconnect close m w ≡ (ok m', w')
        → Shares k n m' w'

  Shares-Reaches : {k : String} {n : ℕ} {m : Clients} {w : W} → Shares k n m w → Reaches m w
  Shares-Reaches (starts w closed) = starts w closed
  Shares-Reaches {k} (connects fresh r f q) = connects k fresh (Shares-Reaches r) f q
  Shares-Reaches (disconnects r q) = disconnects (Shares-Reaches r) q

  Uses-increment :
      (n : ℕ) (o : Option External) (fresh : External)
      → fresh.usage_counter ≡ pos 0
      → Uses n o
      → (increment_usage_counter (existing o fresh)).usage_counter ≡ pos (suc n)
  Uses-increment zero o fresh z u = rw u (increment_held fresh 0 z)
  Uses-increment (suc n) o fresh z (e, q, count) = rw q (increment_held e (suc n) count)

  Uses-one_less : (n : ℕ) (o : Option External) → Uses (suc n) o → Uses n (Option.bind o one_less)
  unfolding Option.bind
  Uses-one_less zero o (e, q, count) = rw (q, count) refl
  Uses-one_less (suc n) o (e, q, count) =
      rw q (rw count (record e { usage_counter = pos (suc n) }, refl, refl))

  -- In a history of workers that all have the same key, from an empty cache with no connection
  -- open, the key has a client as long as a worker is connected, and its counter is the number of
  -- those that are.
  pub Shares-Uses : {k : String} {n : ℕ} {m : Clients} {w : W} → Shares k n m w → Uses n (load k m)
  Shares-Uses (starts w closed) = unfold load in refl
  Shares-Uses {k} (connects {n} {m} {m'} {w} {w1} {w'} {ext} fresh r f q) =
      let (v, exact) = Reaches-IsExactly (Shares-Reaches r) in
      let (_, _, made, after) =
        subst (Checks c k fresh m) q
          (checkout-Checks c k fresh m w1 v (IsFresh-IsBrought f exact)) in
      (
        ext,
        after k ∙ rw (eq_refl k) refl,
        rw made (Uses-increment n (load k m) fresh f.unused (Shares-Uses r)),
      )
  Shares-Uses {k} (disconnects {n} {m} {m'} {w} {w'} r q) =
      let (v, exact) = Reaches-IsExactly (Shares-Reaches r) in
      let (_, _, after) = subst (Disconnects c m) q (disconnect-Disconnects c m w v exact) in
      rw (after k) (Uses-one_less n (load k m) (Shares-Uses r))
