-- ===== src/Controller/Connector/Cache.antt =====
-- The cache of clients: `external` with its usage counter, externalClientsByCreds, and what Connect
-- and Disconnect do to them. An entry holds the object itself: of a client that Connect returned its
-- user reads only the service, which never changes, and the counter is read and written through the
-- map alone. sync.Map is atomic, and so are Connect and Disconnect here. The service of a client is the
-- number of its connection; `none` is a nil interface. The counter is an int and does not wrap below
-- 2 ^ 63 users.
use provider_temporal.Base.{
  ℕ, String, Bool, true, false, ◌&&◌, Option, none, some, List, [], ◌∷◌, ◌++◌, if◌then◌else◌, ◌==◌,
}
use provider_temporal.Base.Int.{ℤ, pos, ◌+ℤ◌, ◌-ℤ◌, ltb_ℤ, eqb_ℤ}
use provider_temporal.Go.Effects.{Action, ◌>>=◌, ◌>>◌, pure, deref}

pub record External : Type 0 where
  pub service : Option ℕ
  pub id : String
  pub usage_counter : ℤ

abbrev pub Clients : Type 0
Clients = List (String × External)

unfoldable pub get_usage_counter : External → ℤ
get_usage_counter e = e.usage_counter

unfoldable pub set_usage_counter : ℤ → External → External
set_usage_counter n e = record e { usage_counter = n }

unfoldable pub increment_usage_counter : External → External
unfolding ◌+ℤ◌
increment_usage_counter e = record e { usage_counter = e.usage_counter +ℤ pos 1 }

unfoldable pub decrement_usage_counter : External → External
unfolding ◌-ℤ◌
decrement_usage_counter e = record e { usage_counter = e.usage_counter -ℤ pos 1 }

-- `m.Load(key)`
unfoldable pub load : String → Clients → Option External
load k [] = none
load k ((j, e) ∷ m) = if j == k then some e else load k m

abbrev pub or_store : String → External → Clients → Option External → External × Bool × Clients
or_store k e m (some old) = (old, true, m)
or_store k e m none = (e, false, (k, e) ∷ m)

-- `m.LoadOrStore(key, e)`: the stored value with true, or `e` with false and the map with it.
unfoldable pub load_or_store : String → External → Clients → External × Bool × Clients
load_or_store k e m = or_store k e m (load k m)

-- A call of a method on the object under a key.
unfoldable pub modify_entry : String → (External → External) → Clients → Clients
modify_entry k f [] = []
modify_entry k f ((j, e) ∷ m) = if j == k then (j, f e) ∷ m else (j, e) ∷ modify_entry k f m

-- `if ext.GetUsageCounter() < 0 { ext.SetUsageCounter(0) }`
unfoldable pub clamp : External → External
unfolding get_usage_counter set_usage_counter
clamp e = if ltb_ℤ (get_usage_counter e) (pos 0) then set_usage_counter (pos 0) e else e

unfoldable pub is_unused : External → Bool
unfolding get_usage_counter
is_unused e = eqb_ℤ (get_usage_counter e) (pos 0) && elim e.service [ none ↦ false | some _ ↦ true ]

-- `close` is the Close of a service.
module _ {W : Type 0} (close : ℕ → W → W) where
  abbrev pub close_service : Option ℕ → Action W (Unit {0})
  close_service none w = deref none w
  close_service (some h) w = pure tt (close h w)

  -- After LoadOrStore: of a client that is there already the new one is closed again.
  abbrev pub use_stored :
      String → External → External × Bool × Clients → Action W (External × Clients)
  use_stored cred_hash fresh (ext, loaded, m) = do
    if loaded then close_service fresh.service else pure tt
    pure (increment_usage_counter ext, modify_entry cred_hash increment_usage_counter m)

  -- The part of Connect from LoadOrStore on, for a client that was just made.
  unfoldable pub checkout : String → External → Clients → Action W (External × Clients)
  unfolding load_or_store
  checkout cred_hash fresh m = use_stored cred_hash fresh (load_or_store cred_hash fresh m)

  -- The body of the Range of Disconnect at one entry: what is left of it.
  unfoldable pub release_entry : String → External → Action W Clients
  unfolding decrement_usage_counter clamp is_unused
  release_entry key e =
      let ext = clamp (decrement_usage_counter e) in
      if is_unused ext then (close_service ext.service >>= λ _. pure []) else pure ((key, ext) ∷ [])

  -- Range visits each key once, in an order of its own; here in that of the list.
  unfoldable pub disconnect : Clients → Action W Clients
  unfolding release_entry
  disconnect [] = pure []
  disconnect ((key, e) ∷ rest) = do
    left ← release_entry key e
    others ← disconnect rest
    pure (left ++ others)
