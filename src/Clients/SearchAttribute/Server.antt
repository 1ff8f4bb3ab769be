-- ===== src/Clients/SearchAttribute/Server.antt =====
-- What the calls rely on of a Temporal server: it keeps the custom search attributes of each namespace,
-- by name. The order in which a map lists its entries is the server's choice.
use provider_temporal.Base.{ℕ, ◌≡◌, String, Option, none, some, List, [], ◌∷◌, if◌then◌else◌, ◌==◌}
use provider_temporal.Go.Effects.{Error, reply, failure}
use provider_temporal.Clients.Temporal.{Temporal}

-- The type of an attribute, by its name.
unfoldable pub find : String → List (String × ℕ) → Option ℕ
find k [] = none
find k ((j, v) ∷ m) = if j == k then some v else find k m

-- `view w ns` lists the attributes of a namespace that there is.
pub record AttributeServer {W : Type 0} (t : Temporal W) : Type 0 where
  pub view : W → String → Option (List (String × ℕ))
  pub list_present :
      (w : W) (ns : String) (m : List (String × ℕ))
      → view w ns ≡ some m
      → t.list_search_attributes ns w ≡ (reply (some m), w)
  pub list_absent :
      (w : W) (ns : String)
      → view w ns ≡ none
      → (e : Error) × (t.list_search_attributes ns w ≡ (failure e, w))
  pub add_success :
      (ns k : String) (v : ℕ) (w w' : W)
      → t.add_search_attributes (record { namespace = ns; search_attributes = (k, v) ∷ [] }) w
        ≡ (reply tt, w')
      → (m : List (String × ℕ)) × (view w' ns ≡ some m) × (find k m ≡ some v)
  pub remove_success :
      (ns k : String) (w w' : W)
      → t.remove_search_attributes (record { namespace = ns; search_attributes = k ∷ [] }) w
        ≡ (reply tt, w')
      → (m : List (String × ℕ)) × (view w' ns ≡ some m) × (find k m ≡ none)
