-- ===== src/Controller/Connector/Interleaving.antt =====
-- Steps of many workers of which one moves at a time, whatever a worker is and however it moves: sums over the
-- workers, and how a step changes a sum.
use provider_temporal.Base.{ℕ, ◌+◌, ◌≡◌, refl, List, [], ◌∷◌, All, arith}

unfoldable pub total : {A : Type 0} → (A → ℕ) → List A → ℕ
total f [] = 0
total f (pc ∷ pcs) = f pc + total f pcs

-- One of the workers moves.
pub data OneOf {A : Type 0} (Moves : A → A → Type 0) : List A → List A → Type 0 where
  here : {pc pc' : A} {pcs : List A} → Moves pc pc' → OneOf Moves (pc ∷ pcs) (pc' ∷ pcs)
  there : {pc : A} {pcs pcs' : List A} → OneOf Moves pcs pcs' → OneOf Moves (pc ∷ pcs) (pc ∷ pcs')

All-mono :
    {A : Type 0} (P Q : A → Type 0) (pcs : List A)
    → ((pc : A) → P pc → Q pc)
    → All P pcs
    → All Q pcs
All-mono P Q [] f a = tt
All-mono P Q (pc ∷ pcs) f (p, a) = (f pc p, All-mono P Q pcs f a)

module _ {A : Type 0} {Moves : A → A → Type 0} where
  -- Where the worker that moves stands.
  unfoldable pub mover : {pcs pcs' : List A} → OneOf Moves pcs pcs' → A
  mover (here {pc} move) = pc
  mover (there step) = mover step

  -- The worker that moves, with every sum and every property of the others left as they are.
  pub record IsOneMove {pcs pcs' : List A} (step : OneOf Moves pcs pcs') : Type 1 where
    pub before : A
    pub after : A
    pub mover_stands : before ≡ mover step
    pub move : Moves before after
    pub exchange : (f : A → ℕ) → total f pcs' + f before ≡ total f pcs + f after
    pub replace :
        (P Q : A → Type 0)
        → ((pc : A) → P pc → Q pc)
        → All P pcs
        → P before × (Q after → All Q pcs')

  pub OneOf-IsOneMove : {pcs pcs' : List A} (step : OneOf Moves pcs pcs') → IsOneMove step
  unfolding total mover
  OneOf-IsOneMove (here {pc} {pc'} {pcs} move) = record {
    before = pc;
    after = pc';
    mover_stands = refl;
    move = move;
    exchange = λ f. omega arith;
    replace = λ P Q f a. (a.0, λ q. (q, All-mono P Q pcs f a.1));
  }
  OneOf-IsOneMove (there {pc} {pcs} {pcs'} step) =
      let one = OneOf-IsOneMove step in
      record {
        before = one.before;
        after = one.after;
        mover_stands = one.mover_stands;
        move = one.move;
        exchange = λ f. omega (arith, one.exchange f);
        replace = λ P Q f a. let (p, rest) = one.replace P Q f a.1 in (p, λ q. (f pc a.0, rest q));
      }
