-- ===== src/Controller/Connector/Shared/Keeping.antt =====
-- What each step of a worker keeps: who owns which client, in the map and in the hands of every worker.
use provider_temporal.Base.{ℕ, ◌≡◌, refl, String, true, some, List, [], ◌∷◌, nat_eq, arith}
use provider_temporal.Base.Int.{pos}
use provider_temporal.Go.Effects.{}
use provider_temporal.Controller.Connector.Cache.{
  External, set_usage_counter, increment_usage_counter, decrement_usage_counter,
}
use provider_temporal.Controller.Connector.Shared.{
  Shared, delete, modify, allocate, Pc, idle, made, closing, counting, working, ranging, visiting,
  testing, resetting, deciding, releasing, deleting, Move, fail, make, store, find, close_new,
  count, leave, visit, decrement, negative, not_negative, reset, unused, used, release, remove,
  finish,
}
use provider_temporal.Controller.Connector.Shared.Ownership.{
  Owns, Extends, Owns-Extends, AllOwned, AllOwned-Extends, load-Owns, IsIn-Owns, delete-AllOwned,
  modify-Extends, allocate-Extends,
}

module _ {W : Type 0} where
  -- A worker holds clients that were made for its key, and in Disconnect for the key that it visits.
  abbrev pub Fits : Shared W → Pc → Type 0
  Fits s idle = Unit
  Fits s (made k p) = Owns s k p
  Fits s (closing k p fresh) = Owns s k p × Owns s k fresh
  Fits s (counting k p) = Owns s k p
  Fits s (working k p) = Owns s k p
  Fits s (ranging seen) = Unit
  Fits s (visiting seen k p) = Owns s k p
  Fits s (testing seen k p) = Owns s k p
  Fits s (resetting seen k p) = Owns s k p
  Fits s (deciding seen k p) = Owns s k p
  Fits s (releasing seen k p) = Owns s k p
  Fits s (deleting seen k p) = Owns s k p

  pub Fits-Extends : (s s' : Shared W) (pc : Pc) → Extends s s' → Fits s pc → Fits s' pc
  Fits-Extends s s' idle grown o = tt
  Fits-Extends s s' (made k p) grown o = Owns-Extends s s' k p grown o
  Fits-Extends s s' (closing k p fresh) grown (o, new) =
      (Owns-Extends s s' k p grown o, Owns-Extends s s' k fresh grown new)
  Fits-Extends s s' (counting k p) grown o = Owns-Extends s s' k p grown o
  Fits-Extends s s' (working k p) grown o = Owns-Extends s s' k p grown o
  Fits-Extends s s' (ranging seen) grown o = tt
  Fits-Extends s s' (visiting seen k p) grown o = Owns-Extends s s' k p grown o
  Fits-Extends s s' (testing seen k p) grown o = Owns-Extends s s' k p grown o
  Fits-Extends s s' (resetting seen k p) grown o = Owns-Extends s s' k p grown o
  Fits-Extends s s' (deciding seen k p) grown o = Owns-Extends s s' k p grown o
  Fits-Extends s s' (releasing seen k p) grown o = Owns-Extends s s' k p grown o
  Fits-Extends s s' (deleting seen k p) grown o = Owns-Extends s s' k p grown o

  abbrev pub IsOwned : Shared W → Type 0
  IsOwned s = AllOwned s s.keys × AllOwned s s.stored

  world_Extends : (s : Shared W) (w : W) → Extends s (record s { world = w })
  world_Extends s w = record { more = omega arith; kept = λ k p o. (o.mine, o.served) }

  Extends-refl : (s : Shared W) → Extends s s
  Extends-refl s = record { more = omega arith; kept = λ k p o. (o.mine, o.served) }

  keys_Extends :
      (s : Shared W) (keys stored : List (String × ℕ))
      → Extends s (record s { keys = keys; stored = stored })
  keys_Extends s keys stored = record { more = omega arith; kept = λ k p o. (o.mine, o.served) }

  IsOwned-Extends :
      (s s' : Shared W) → Extends s s' → IsOwned s → AllOwned s' s.keys × AllOwned s' s.stored
  IsOwned-Extends s s' grown (a, b) =
      (AllOwned-Extends s s' s.keys grown a, AllOwned-Extends s s' s.stored grown b)

  make_Extends :
      (s : Shared W) (k : String) (e : External) (w : W)
      → Extends s (allocate k e (record s { world = w }))
  make_Extends s k e w =
      let s1 : Shared W = record s { world = w } in
      let grown = allocate-Extends s1 k e in
      record {
        more = grown.more;
        kept = λ j q o. grown.kept j q (Owns-Extends s s1 j q (world_Extends s w) o);
      }

  allocated_Owns :
      (s : Shared W) (k : String) (e : External) (h : ℕ)
      → e.service ≡ some h
      → Owns (allocate k e s) k s.next
  allocated_Owns s k e h p =
      let same : nat_eq s.next s.next ≡ true = ground arith in
      record { used = omega arith; mine = rw same refl; served = rw same (h, p) }

  -- What a step keeps and gives.
  pub record Keeps (s s' : Shared W) (pc' : Pc) : Type 0 where
    pub extends : Extends s s'
    pub owned : IsOwned s'
    pub fits : Fits s' pc'

  keeps :
      (s s' : Shared W) (pc pc' : Pc)
      → Extends s s'
      → IsOwned s'
      → Fits s pc
      → (Fits s' pc → Fits s' pc')
      → Keeps s s' pc'
  keeps s s' pc pc' grown v o f = record {
    extends = grown;
    owned = v;
    fits = f (Fits-Extends s s' pc grown o);
  }

  counter_Keeps :
      (s : Shared W) (p : ℕ) (f : External → External)
      → ((e : External) → (f e).service ≡ e.service)
      → (pc pc' : Pc) → IsOwned s
      → Fits s pc
      → (Fits (modify p f s) pc → Fits (modify p f s) pc')
      → Keeps s (modify p f s) pc'
  counter_Keeps s p f same pc pc' v o g =
      let grown = modify-Extends s p f same in
      keeps s (modify p f s) pc pc' grown (IsOwned-Extends s (modify p f s) grown v) o g

  pub Move-Keeps :
      {close : ℕ → W → W} {s s' : Shared W} {pc pc' : Pc}
      → Move close s pc s' pc'
      → IsOwned s
      → Fits s pc
      → Keeps s s' pc'
  unfolding increment_usage_counter decrement_usage_counter set_usage_counter
  Move-Keeps {s} (fail w) v o =
      let s' : Shared W = record s { world = w } in
      let grown = world_Extends s w in
      keeps s s' idle idle grown (IsOwned-Extends s s' grown v) o (λ f. f)
  Move-Keeps {s} (make k e h w p q) v o =
      let s' : Shared W = allocate k e (record s { world = w }) in
      let grown = make_Extends s k e w in
      record {
        extends = grown;
        owned = IsOwned-Extends s s' grown v;
        fits = allocated_Owns (record s { world = w }) k e h p;
      }
  Move-Keeps {s} (store {k} {p} l) (a, b) o =
      let s' : Shared W = record s { keys = (k, p) ∷ s.keys; stored = (k, p) ∷ s.stored } in
      let grown = keys_Extends s s'.keys s'.stored in
      let (a', b') = IsOwned-Extends s s' grown (a, b) in
      let o' = Owns-Extends s s' k p grown o in
      keeps s s' (made k p) (counting k p) grown ((o', a'), (o', b')) o (λ f. f)
  Move-Keeps {s} (find {k} {p} {q} l) v o =
      keeps s s (made k p) (closing k q p) (Extends-refl s) v o
        (λ f. (load-Owns s k q s.keys v.0 l, f))
  Move-Keeps {s} (close_new {k} {p} {q} {w} _) v o =
      let s' : Shared W = record s { world = w } in
      let grown = world_Extends s w in
      keeps s s' (closing k q p) (counting k q) grown (IsOwned-Extends s s' grown v) o (λ f. f.0)
  Move-Keeps {s} (count {k} {p}) v o =
      counter_Keeps s p increment_usage_counter (λ e. refl) (counting k p) (working k p) v o
        (λ f. f)
  Move-Keeps {s} (leave {k} {p}) v o =
      keeps s s (working k p) (ranging []) (Extends-refl s) v o (λ f. tt)
  Move-Keeps {s} (visit {seen} {k} {p} i _) v o =
      keeps s s (ranging seen) (visiting (k ∷ seen) k p) (Extends-refl s) v o
        (λ f. IsIn-Owns s k p s.stored v.1 i)
  Move-Keeps {s} (decrement {seen} {k} {p}) v o =
      counter_Keeps s p decrement_usage_counter (λ e. refl) (visiting seen k p) (testing seen k p) v
        o (λ f. f)
  Move-Keeps {s} (negative {seen} {k} {p} _) v o =
      keeps s s (testing seen k p) (resetting seen k p) (Extends-refl s) v o (λ f. f)
  Move-Keeps {s} (not_negative {seen} {k} {p} _) v o =
      keeps s s (testing seen k p) (deciding seen k p) (Extends-refl s) v o (λ f. f)
  Move-Keeps {s} (reset {seen} {k} {p}) v o =
      counter_Keeps s p (set_usage_counter (pos 0)) (λ e. refl) (resetting seen k p)
        (deciding seen k p) v o (λ f. f)
  Move-Keeps {s} (unused {seen} {k} {p} _) v o =
      keeps s s (deciding seen k p) (releasing seen k p) (Extends-refl s) v o (λ f. f)
  Move-Keeps {s} (used {seen} {k} {p} _) v o =
      keeps s s (deciding seen k p) (ranging seen) (Extends-refl s) v o (λ f. tt)
  Move-Keeps {s} (release {seen} {k} {p} {w} _) v o =
      let s' : Shared W = record s { world = w } in
      let grown = world_Extends s w in
      keeps s s' (releasing seen k p) (deleting seen k p) grown (IsOwned-Extends s s' grown v) o
        (λ f. f)
  Move-Keeps {s} (remove {seen} {k} {p}) v o =
      let s' : Shared W = record s { keys = delete k s.keys } in
      let grown = keys_Extends s s'.keys s'.stored in
      let (a, b) = IsOwned-Extends s s' grown v in
      keeps s s' (deleting seen k p) (ranging seen) grown (delete-AllOwned s' k s.keys a, b) o
        (λ f. tt)
  Move-Keeps {s} (finish {seen}) v o = keeps s s (ranging seen) idle (Extends-refl s) v o (λ f. tt)
