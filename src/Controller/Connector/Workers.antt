-- ===== src/Controller/Connector/Workers.antt =====
-- Connects of many workers at once, in steps between which others may come: making a service, LoadOrStore,
-- closing a service that is not needed, and the increment under the client's lock. While none disconnects
-- a client stays under its key, so the key stands for the pointer that a worker holds.
pub mod Accounts
pub mod Counting
pub mod Safety
pub mod Interrupted
use provider_temporal.Base.{ℕ, ◌≡◌, String, Bool, true, false, List, [], ◌∷◌}
use provider_temporal.Go.Effects.{ok}
use provider_temporal.Controller.Connector.Interleaving.{OneOf}
use provider_temporal.Controller.Connector.Cache.{
  External, Clients, load_or_store, modify_entry, increment_usage_counter, close_service,
}
use provider_temporal.Controller.Connector.Invariant.{Connections}
use provider_temporal.Controller.Connector.Histories.{IsBrought}

-- Where a worker stands in Connect.
pub data Pc : Type 0 where
  idle : Pc
  made : (k : String) (ext : External) → Pc  -- before LoadOrStore
  closing : (k : String) (ext : External) → Pc  -- a client was there; before Close of the new one
  counting : (k : String) → Pc  -- before IncrementUsageCounter
  working : (k : String) → Pc  -- Connect has returned

abbrev pub AllIdle : List Pc → Type 0
AllIdle [] = Unit
AllIdle (pc ∷ pcs) = (pc ≡ idle) × AllIdle pcs

module _ {W : Type 0} {close : ℕ → W → W} (c : Connections close) where
  -- One step of one worker. Before a service is made, or when it is not, nothing that is shared changes.
  pub data Move (m : Clients) (w : W) : Pc → Clients → W → Pc → Type 0 where
    fail : Move m w idle m w idle
    make :
        {w1 : W} (k : String) (ext : External)
        → IsBrought c ext w w1
        → Move m w idle m w1 (made k ext)
    store :
        {k : String} {ext stored : External} {m' : Clients}
        → load_or_store k ext m ≡ (stored, false, m')
        → Move m w (made k ext) m' w (counting k)
    find :
        {k : String} {ext stored : External} {m' : Clients}
        → load_or_store k ext m ≡ (stored, true, m')
        → Move m w (made k ext) m' w (closing k ext)
    close_new :
        {k : String} {ext : External} {w1 : W}
        → close_service close ext.service w ≡ (ok tt, w1)
        → Move m w (closing k ext) m w1 (counting k)
    count :
        {k : String}
        → Move m w (counting k) (modify_entry k increment_usage_counter m) w (working k)

  -- A step of any of the workers.
  abbrev pub Step : Clients → W → List Pc → Clients → W → List Pc → Type 0
  Step m w pcs m' w' pcs' = OneOf (λ pc pc'. Move m w pc m' w' pc') pcs pcs'

  -- What workers that all began idle, with an empty cache and no connection open, can come to.
  pub data Interleaves : Clients → W → List Pc → Type 0 where
    begins :
        {pcs : List Pc} (w : W)
        → ((d : ℕ) → c.is_open w d ≡ false)
        → AllIdle pcs
        → Interleaves [] w pcs
    steps :
        {m m' : Clients} {w w' : W} {pcs pcs' : List Pc}
        → Interleaves m w pcs
        → Step m w pcs m' w' pcs'
        → Interleaves m' w' pcs'
