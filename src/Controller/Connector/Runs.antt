-- ===== src/Controller/Connector/Runs.antt =====
-- A connector in use: calls of Connect, with whatever outcome, and of Disconnect, one after the other.
use provider_temporal.Base.{ℕ, ◌≡◌, false, [], subst}
use provider_temporal.Go.Effects.{Error, ok, err, panic, Action}
use provider_temporal.Api.Kube.{Kube}
use provider_temporal.Controller.Managed.{Managed}
use provider_temporal.Controller.Connector.Cache.{External, Clients}
use provider_temporal.Controller.Connector.Invariant.{Connections, IsCache, IsExactly, owned}
use provider_temporal.Controller.Connector.Account.{Accounts}
use provider_temporal.Controller.Connector.Disconnect.{Disconnects}

module _ {k : Kube} {W : Type 0} {close : ℕ → W → W} (c : Connections close)
    (connect : Managed k → Clients → Action W (External × Clients))
    (disconnect : Clients → Action W Clients) where
  -- From an empty cache and no open connection: any calls of any workers, for any resources. A call
  -- that fails or panics leaves the cache as it was.
  pub data Runs : Clients → W → Type 0 where
    starts : (w : W) → ((i : ℕ) → c.is_open w i ≡ false) → Runs [] w
    connects :
        {m m' : Clients} {w w' : W} {ext : External} (mg : Managed k)
        → Runs m w
        → connect mg m w ≡ (ok (ext, m'), w')
        → Runs m' w'
    fails :
        {m : Clients} {w w' : W} {f : Error} (mg : Managed k)
        → Runs m w
        → connect mg m w ≡ (err f, w')
        → Runs m w'
    panics :
        {m : Clients} {w w' : W} (mg : Managed k)
        → Runs m w
        → connect mg m w ≡ (panic, w')
        → Runs m w'
    disconnects : {m m' : Clients} {w w' : W} → Runs m w → disconnect m w ≡ (ok m', w') → Runs m' w'

  module _
      (accounts : (mg : Managed k) (m : Clients) (w : W)
        → IsCache m
        → IsExactly c w m
        → Accounts c m (connect mg m w))
      (disconnects_all : (m : Clients) (w : W)
        → IsCache m
        → IsExactly c w m
        → Disconnects c m (disconnect m w)) where
    -- A Connect and a Disconnect that keep the account of the open connections keep it over any history.
    pub Runs-IsExactly : {m : Clients} {w : W} → Runs m w → IsCache m × IsExactly c w m
    Runs-IsExactly (starts w closed) = (tt, λ i. unfold owned in closed i)
    Runs-IsExactly (connects {m} {m'} {w} mg r q) =
        let (v, exact) = Runs-IsExactly r in subst (Accounts c m) q (accounts mg m w v exact)
    Runs-IsExactly (fails {m} {w} mg r q) =
        let (v, exact) = Runs-IsExactly r in (v, subst (Accounts c m) q (accounts mg m w v exact))
    Runs-IsExactly (panics {m} {w} mg r q) =
        let (v, exact) = Runs-IsExactly r in (v, subst (Accounts c m) q (accounts mg m w v exact))
    Runs-IsExactly (disconnects {m} {m'} {w} r q) =
        let (v, exact) = Runs-IsExactly r in
        let rests = subst (Disconnects c m) q (disconnects_all m w v exact) in (rests.0, rests.1)
