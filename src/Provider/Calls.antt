-- ===== src/Provider/Calls.antt =====
-- The calls that the start of the provider makes on the world outside, recorded, and what it is to make given calls
-- in order, up to the first that fails.
use mathlib.Core.List.{append_assoc, map-append}
use provider_temporal.Base.{
  ◌≡◌, refl, subst, sym, ap, ◌∙◌, String, Bool, true, false, List, [], ◌∷◌, ◌++◌, map, Bool-cases,
  inl, inr,
}
use provider_temporal.Go.Effects.{
  Error, wrap, Reply, reply, failure, Result, ok, err, panic, Action, resume, ◌>>=◌, pure, call,
  answered, caught, attempt, or_wrap,
}
use provider_temporal.Api.Scheme.{SchemeBuilder}
use provider_temporal.Controller.Runtime.{
  ControllerBuild, ManagerOptions, DefaultStoreConfig, Flag, Runtime,
}

pub data Call : Type 0 where
  parse : List Flag → Call
  get_config : Call
  new_manager : ManagerOptions → Call
  add_to_scheme : List SchemeBuilder → Call
  create_store_config : DefaultStoreConfig → Call
  complete : ControllerBuild → Call
  start : Call

-- The calls in their order, each with whether it succeeded.
abbrev pub Record : Type 0
Record = List (Call × Bool)

abbrev pub done : Call → Call × Bool
done c = (c, true)

abbrev succeeded : {A : Type 0} → (Error → Bool) → Reply A → Bool
succeeded harmless (reply a) = true
succeeded harmless (failure e) = harmless e

append_nil : (log : Record) → log ≡ log ++ []
append_nil [] = refl
append_nil (x ∷ log) = ap (λ l. x ∷ l) (append_nil log)

-- What a record comes to that more is added to after `calls`.
added_done :
    (log log' end : Record) (calls : List Call)
    → log' ≡ log ++ map done calls
    → log' ++ end ≡ log ++ (map done calls ++ end)
added_done log log' end calls p = rw p (append_assoc log (map done calls) end)

module _ {W : Type 0} where
  abbrev noted :
      {A : Type 0} → (Error → Bool) → Call → Record → Reply A × W → Reply A × (W × Record)
  noted harmless c log (r, w) = (r, (w, log ++ ((c, succeeded harmless r) ∷ [])))

  abbrev pub recorded :
      {A : Type 0} → (Error → Bool) → Call → (W → Reply A × W) → W × Record → Reply A × (W × Record)
  recorded harmless c f (w, log) = noted harmless c log (f w)

  -- The same world outside, with a record of the calls. Of the creation of the StoreConfig an error that says that
  -- there is one already is no failure.
  abbrev pub recording : {C : Type 0} → Runtime W C → Runtime (W × Record) C
  recording rt = record {
    must_parse = λ fs. recorded (λ e. false) (parse fs) (rt.must_parse fs);
    get_config = recorded (λ e. false) get_config rt.get_config;
    limit_rest_config = rt.limit_rest_config;
    new_manager = λ c o. recorded (λ e. false) (new_manager o) (rt.new_manager c o);
    add_to_scheme = λ bs. recorded (λ e. false) (add_to_scheme bs) (rt.add_to_scheme bs);
    create_store_config =
        λ s. recorded rt.is_already_exists (create_store_config s) (rt.create_store_config s);
    is_already_exists = rt.is_already_exists;
    enabled = rt.enabled;
    managed_controller_name = rt.managed_controller_name;
    config_controller_name = rt.config_controller_name;
    complete = λ b. recorded (λ e. false) (complete b) (rt.complete b);
    start = recorded (λ e. false) start rt.start;
  }

  -- All calls were made and none failed, or with an error just those before the first that failed, and that one.
  pub data Ends {A : Type 0} (log : Record) (calls : List Call)
      : Result A × (W × Record) → Type 0 where
    finished :
        (a : A) (w : W) (log' : Record)
        → log' ≡ log ++ map done calls
        → Ends log calls (ok a, (w, log'))
    stopped :
        (before : List Call) (c : Call) (after : List Call) (e : Error) (w : W) (log' : Record)
        → calls ≡ before ++ (c ∷ after)
        → log' ≡ log ++ (map done before ++ ((c, false) ∷ []))
        → Ends log calls (err e, (w, log'))

  abbrev pub Follows : {A : Type 0} → Action (W × Record) A → List Call → Type 0
  Follows m calls = (w : W) (log : Record) → Ends log calls (m (w, log))

  pub pure-Follows : {A : Type 0} (a : A) → Follows (pure a) []
  pure-Follows a w log = finished a w log (append_nil log)

  Ends-after :
      {A : Type 0} (log log' : Record) (calls more : List Call) (r : Result A × (W × Record))
      → log' ≡ log ++ map done calls
      → Ends log' more r
      → Ends log (calls ++ more) r
  Ends-after log log' calls more _ p (finished a w l q) = finished a w l (
      q
      ∙ added_done log log' (map done more) calls p
      ∙ ap (λ x. log ++ x) (sym (map-append done calls more)))
  Ends-after log log' calls more _ p (stopped before c after e w l r q) =
      stopped (calls ++ before) c after e w l
        (ap (λ x. calls ++ x) r ∙ sym (append_assoc calls before (c ∷ after)))
        (q
          ∙ added_done log log' (map done before ++ ((c, false) ∷ [])) calls p
          ∙ ap (λ x. log ++ x)
              (sym (append_assoc (map done calls) (map done before) ((c, false) ∷ []))
                ∙ ap (λ x. x ++ ((c, false) ∷ [])) (sym (map-append done calls before))))

  resumed-Ends :
      {A B : Type 0} (f : A → Action (W × Record) B) (calls more : List Call) (log : Record)
      (r : Result A × (W × Record))
      → Ends log calls r
      → ((a : A) → Follows (f a) more)
      → Ends log (calls ++ more) (resume f r)
  resumed-Ends f calls more log _ (finished a w l p) g =
      Ends-after log l calls more (f a (w, l)) p (g a w l)
  resumed-Ends f calls more log _ (stopped before c after e w l r q) g =
      stopped before c (after ++ more) e w l
        (ap (λ x. x ++ more) r ∙ append_assoc before (c ∷ after) more) q

  pub >>=-Follows :
      {A B : Type 0} (m : Action (W × Record) A) (f : A → Action (W × Record) B)
      (calls more : List Call)
      → Follows m calls
      → ((a : A) → Follows (f a) more)
      → Follows (m >>= f) (calls ++ more)
  >>=-Follows m f calls more g h w log = resumed-Ends f calls more log (m (w, log)) (g w log) h

  noted-Follows :
      {A B : Type 0} (harmless : Error → Bool) (c : Call) (k : Reply A → Action (W × Record) B)
      (calls : List Call)
      → ((a : A) → Follows (k (reply a)) calls)
      → ((e : Error) → harmless e ≡ true → Follows (k (failure e)) calls)
      → ((e : Error)
          → harmless e ≡ false
          → (x : W × Record) → (e' : Error) × (k (failure e) x ≡ (err e', x)))
      → (r : Reply A) (w : W) (log : Record)
      → Ends log (c ∷ calls) (resume k (answered (noted harmless c log (r, w))))
  noted-Follows harmless c k calls good harm bad (reply a) w log =
      Ends-after log (log ++ ((c, true) ∷ [])) (c ∷ []) calls
        (k (reply a) (w, log ++ ((c, true) ∷ []))) refl (good a w (log ++ ((c, true) ∷ [])))
  noted-Follows harmless c k calls good harm bad (failure e) w log =
      elim (Bool-cases (harmless e)) [
        | inl t ↦ rw t (
            Ends-after log (log ++ ((c, true) ∷ [])) (c ∷ []) calls
              (k (failure e) (w, log ++ ((c, true) ∷ []))) refl
              (harm e t w (log ++ ((c, true) ∷ []))))
        | inr t ↦
            let ended = bad e t (w, log ++ ((c, false) ∷ [])) in
            rw (t, ended.1) (stopped [] c calls ended.0 w (log ++ ((c, false) ∷ [])) refl refl)
      ]

  -- A call and what is done with its answer.
  pub call-Follows :
      {A B : Type 0} (harmless : Error → Bool) (c : Call) (f : W → Reply A × W)
      (k : Reply A → Action (W × Record) B) (calls : List Call)
      → ((a : A) → Follows (k (reply a)) calls)
      → ((e : Error) → harmless e ≡ true → Follows (k (failure e)) calls)
      → ((e : Error)
          → harmless e ≡ false
          → (x : W × Record) → (e' : Error) × (k (failure e) x ≡ (err e', x)))
      → Follows (call (recorded harmless c f) >>= k) (c ∷ calls)
  call-Follows harmless c f k calls good harm bad w log =
      noted-Follows harmless c k calls good harm bad (f w).0 (f w).1 log

  caught-Ends :
      {B : Type 0} (log : Record) (calls more : List Call)
      (k : Reply (Unit {0}) → Action (W × Record) B) (r : Result (Unit {0}) × (W × Record))
      → Ends log calls r
      → Follows (k (reply tt)) more
      → ((e : Error) (x : W × Record) → (e' : Error) × (k (failure e) x ≡ (err e', x)))
      → Ends log (calls ++ more) (resume k (caught r))
  caught-Ends log calls more k _ (finished a w l p) good bad =
      Ends-after log l calls more (k (reply a) (w, l)) p (good w l)
  caught-Ends log calls more k _ (stopped before c after e w l r q) good bad =
      let ended = bad e (w, l) in
      rw ended.1 (
        stopped before c (after ++ more) ended.0 w l
          (ap (λ x. x ++ more) r ∙ append_assoc before (c ∷ after) more) q)

  -- An error of the program's own that is passed on.
  pub attempt-Follows :
      {B : Type 0} (m : Action (W × Record) (Unit {0})) (calls more : List Call)
      (k : Reply (Unit {0}) → Action (W × Record) B)
      → Follows m calls
      → Follows (k (reply tt)) more
      → ((e : Error) (x : W × Record) → (e' : Error) × (k (failure e) x ≡ (err e', x)))
      → Follows (attempt m >>= k) (calls ++ more)
  attempt-Follows m calls more k g good bad w log =
      caught-Ends log calls more k (m (w, log)) (g w log) good bad

  -- A call whose error ends the process.
  pub wrapped-Follows :
      {A B : Type 0} (c : Call) (f : W → Reply A × W) (message : String)
      (k : A → Action (W × Record) B) (calls : List Call)
      → ((a : A) → Follows (k a) calls)
      → Follows (call (recorded (λ e. false) c f) >>= λ r. (or_wrap message r >>= k)) (c ∷ calls)
  wrapped-Follows c f message k calls g =
      call-Follows (λ e. false) c f (λ r. or_wrap message r >>= k) calls g (λ e t. cc)
        (λ e t x. (wrap e message, refl))

  resume_assoc :
      {X A B : Type 0} (f : X → Action (W × Record) A) (k : A → Action (W × Record) B)
      (r : Result X × (W × Record))
      → resume (λ x. f x >>= k) r ≡ resume k (resume f r)
  resume_assoc f k (ok x, w) = refl
  resume_assoc f k (err e, w) = refl
  resume_assoc f k (panic, w) = refl

  pub assoc-Follows :
      {X A B : Type 0} (m : Action (W × Record) X) (f : X → Action (W × Record) A)
      (k : A → Action (W × Record) B) (calls : List Call)
      → Follows (m >>= λ x. (f x >>= k)) calls
      → Follows (m >>= f >>= k) calls
  assoc-Follows m f k calls g w log =
      subst (Ends log calls) (resume_assoc f k (m (w, log))) (g w log)
