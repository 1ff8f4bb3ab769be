-- ===== src/Controller/Connector/Shared.antt =====
-- Connects and Disconnects of many workers at once, a shared access at a time. sync.Map leads from a key to the
-- address of an `external`, and a worker that has loaded one keeps its address whatever happens to the map.
-- Range may give for a key any value that was stored for it, and each key once; it may end at any time, which
-- allows more than sync.Map does. `origin` is the key of the
-- credentials that an object was made with; the program does not keep it.
pub mod Ownership
pub mod Keeping
pub mod Counters
pub mod Safety
pub mod Visits
pub mod Progress
pub mod Race
pub mod View
pub mod Atomic
pub mod Visit
pub mod Entry
pub mod Range
use provider_temporal.Base.{
  ℕ, suc, ◌≡◌, String, Bool, true, false, ◌||◌, Option, none, some, List, [], ◌∷◌, ◌⊎◌, ◌==◌,
  if◌then◌else◌, nat_eq,
}
use provider_temporal.Base.Int.{pos, ltb_ℤ}
use provider_temporal.Go.Effects.{ok}
use provider_temporal.Controller.Connector.Interleaving.{OneOf}
use provider_temporal.Controller.Connector.Cache.{
  External, get_usage_counter, set_usage_counter, increment_usage_counter, decrement_usage_counter,
  is_unused, close_service,
}

pub record Object : Type 0 where
  pub origin : String
  pub external : External

-- The addresses below `next` are in use. `keys` is the map, `stored` all that was ever stored in it.
pub record Shared (W : Type 0) : Type 0 where
  pub next : ℕ
  pub objects : ℕ → Object
  pub keys : List (String × ℕ)
  pub stored : List (String × ℕ)
  pub world : W

abbrev pub load : String → List (String × ℕ) → Option ℕ
load k [] = none
load k ((j, p) ∷ m) = if j == k then some p else load k m

-- `m.Delete(key)`
abbrev pub delete : String → List (String × ℕ) → List (String × ℕ)
delete k [] = []
delete k ((j, p) ∷ m) = if j == k then delete k m else (j, p) ∷ delete k m

abbrev pub IsIn : String × ℕ → List (String × ℕ) → Type 0
IsIn e [] = ⊥
IsIn e (x ∷ m) = (e ≡ x) ⊎ IsIn e m

abbrev pub is_seen : String → List String → Bool
is_seen k [] = false
is_seen k (j ∷ js) = j == k || is_seen k js

module _ {W : Type 0} where
  -- A method that writes the object at `p`.
  abbrev pub modify : ℕ → (External → External) → Shared W → Shared W
  modify p f s = record s {
    objects =
        λ q. let o = s.objects q in if nat_eq q p then record o { external = f o.external } else o;
  }

  -- `&external{...}`
  abbrev pub allocate : String → External → Shared W → Shared W
  allocate k e s = record s {
    next = suc s.next;
    objects = λ q. if nat_eq q s.next then record { origin = k; external = e } else s.objects q;
  }

-- Where a worker stands, with its local variables: its key and its client in Connect, and in Disconnect the
-- keys that Range has visited, with the key and the client of the visit.
pub data Pc : Type 0 where
  idle : Pc
  made : (k : String) (p : ℕ) → Pc  -- before LoadOrStore
  closing : (k : String) (p fresh : ℕ) → Pc  -- a client was there; before Close of the new one
  counting : (k : String) (p : ℕ) → Pc  -- before IncrementUsageCounter
  working : (k : String) (p : ℕ) → Pc  -- Connect has returned
  ranging : (seen : List String) → Pc  -- in Range, between two visits
  visiting : (seen : List String) (k : String) (p : ℕ) → Pc  -- before DecrementUsageCounter
  testing : (seen : List String) (k : String) (p : ℕ) → Pc  -- before `GetUsageCounter() < 0`
  resetting : (seen : List String) (k : String) (p : ℕ) → Pc  -- before SetUsageCounter
  deciding : (seen : List String) (k : String) (p : ℕ) → Pc  -- before `GetUsageCounter() == 0`
  releasing : (seen : List String) (k : String) (p : ℕ) → Pc  -- before Close
  deleting : (seen : List String) (k : String) (p : ℕ) → Pc  -- before LoadAndDelete

abbrev pub AllIdle : List Pc → Type 0
AllIdle [] = Unit
AllIdle (pc ∷ pcs) = (pc ≡ idle) × AllIdle pcs

module _ {W : Type 0} (close : ℕ → W → W) where
  -- One step of one worker.
  pub data Move (s : Shared W) : Pc → Shared W → Pc → Type 0 where
    fail : (w : W) → Move s idle (record s { world = w }) idle  -- Connect returns an error
    make :
        (k : String) (e : External) (h : ℕ) (w : W)
        → e.service ≡ some h
        → e.usage_counter ≡ pos 0
        → Move s idle (allocate k e (record s { world = w })) (made k s.next)
    store :
        {k : String} {p : ℕ}
        → load k s.keys ≡ none
        → Move s
            (made k p)
            (record s { keys = (k, p) ∷ s.keys; stored = (k, p) ∷ s.stored })
            (counting k p)
    find : {k : String} {p q : ℕ} → load k s.keys ≡ some q → Move s (made k p) s (closing k q p)
    close_new :
        {k : String} {p q : ℕ} {w : W}
        → close_service close (s.objects p).external.service s.world ≡ (ok tt, w)
        → Move s (closing k q p) (record s { world = w }) (counting k q)
    count :
        {k : String} {p : ℕ}
        → Move s (counting k p) (modify p increment_usage_counter s) (working k p)
    leave : {k : String} {p : ℕ} → Move s (working k p) s (ranging [])
    visit :
        {seen : List String} {k : String} {p : ℕ}
        → IsIn (k, p) s.stored
        → is_seen k seen ≡ false
        → Move s (ranging seen) s (visiting (k ∷ seen) k p)
    decrement :
        {seen : List String} {k : String} {p : ℕ}
        → Move s (visiting seen k p) (modify p decrement_usage_counter s) (testing seen k p)
    negative :
        {seen : List String} {k : String} {p : ℕ}
        → ltb_ℤ (get_usage_counter (s.objects p).external) (pos 0) ≡ true
        → Move s (testing seen k p) s (resetting seen k p)
    not_negative :
        {seen : List String} {k : String} {p : ℕ}
        → ltb_ℤ (get_usage_counter (s.objects p).external) (pos 0) ≡ false
        → Move s (testing seen k p) s (deciding seen k p)
    reset :
        {seen : List String} {k : String} {p : ℕ}
        → Move s (resetting seen k p) (modify p (set_usage_counter (pos 0)) s) (deciding seen k p)
    unused :
        {seen : List String} {k : String} {p : ℕ}
        → is_unused (s.objects p).external ≡ true
        → Move s (deciding seen k p) s (releasing seen k p)
    used :
        {seen : List String} {k : String} {p : ℕ}
        → is_unused (s.objects p).external ≡ false
        → Move s (deciding seen k p) s (ranging seen)
    release :
        {seen : List String} {k : String} {p : ℕ} {w : W}
        → close_service close (s.objects p).external.service s.world ≡ (ok tt, w)
        → Move s (releasing seen k p) (record s { world = w }) (deleting seen k p)
    remove :
        {seen : List String} {k : String} {p : ℕ}
        → Move s (deleting seen k p) (record s { keys = delete k s.keys }) (ranging seen)
    finish : {seen : List String} → Move s (ranging seen) s idle

  -- Steps of one worker that no other comes between.
  pub data Alone (s : Shared W) (pc : Pc) : Shared W → Pc → Type 0 where
    rests : Alone s pc s pc
    goes :
        {t t' : Shared W} {pc1 pc2 : Pc} → Alone s pc t pc1 → Move t pc1 t' pc2 → Alone s pc t' pc2

  pub Alone-trans :
      {s t : Shared W} {pc pc1 : Pc} {u : Shared W} {pc2 : Pc}
      → Alone s pc t pc1
      → Alone t pc1 u pc2
      → Alone s pc u pc2
  Alone-trans before rests = before
  Alone-trans before (goes after move) = goes (Alone-trans before after) move

  -- A step of any of the workers.
  abbrev pub Step : Shared W → List Pc → Shared W → List Pc → Type 0
  Step s pcs s' pcs' = OneOf (λ pc pc'. Move s pc s' pc') pcs pcs'

  -- What workers that all began idle, with an empty map, can come to.
  pub data Reaches : Shared W → List Pc → Type 0 where
    begins :
        {pcs : List Pc} (objects : ℕ → Object) (w : W)
        → AllIdle pcs
        → Reaches (record { next = 0; objects = objects; keys = []; stored = []; world = w }) pcs
    steps :
        {s s' : Shared W} {pcs pcs' : List Pc}
        → Reaches s pcs
        → Step s pcs s' pcs'
        → Reaches s' pcs'
