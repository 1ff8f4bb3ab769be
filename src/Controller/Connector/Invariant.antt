-- ===== src/Controller/Connector/Invariant.antt =====
-- What holds of a cache between two calls, and the connections that it stands for.
use provider_temporal.Base.{
  ℕ, suc, ◌≡◌, Bool, false, ◌||◌, none, some, [], ◌∷◌, if◌then◌else◌, nat_eq,
}
use provider_temporal.Base.Int.{pos}
use provider_temporal.Controller.Connector.Cache.{External, Clients, load}

-- Whose service a connection is.
abbrev pub serves : External → ℕ → Bool
serves e d = elim e.service [ none ↦ false | some h ↦ nat_eq d h ]

-- Some entry's service is the connection `d`.
unfoldable pub owned : Clients → ℕ → Bool
owned [] d = false
owned ((k, e) ∷ m) d = serves e d || owned m d

-- One entry for a key, one entry for a connection, and each entry with a user at least.
abbrev pub IsCache : Clients → Type 0
IsCache [] = Unit
IsCache ((k, e) ∷ m) =
    (load k m ≡ none)
    × ((h : ℕ) × (n : ℕ) × (e.service ≡ some h)
        × (e.usage_counter ≡ pos (suc n))
        × (owned m h ≡ false))
    × IsCache m

-- What the code relies on of the connections: closing one closes no other.
pub record Connections {W : Type 0} (close : ℕ → W → W) : Type 0 where
  pub is_open : W → ℕ → Bool
  pub close_lem :
      (h d : ℕ) (w : W) → is_open (close h w) d ≡ (if nat_eq d h then false else is_open w d)

-- Open are just the connections of the cache: none leaks, and none in use is closed.
abbrev pub IsExactly : {W : Type 0} {close : ℕ → W → W} → Connections close → W → Clients → Type 0
IsExactly c w m = (d : ℕ) → c.is_open w d ≡ owned m d
