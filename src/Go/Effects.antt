-- ===== src/Go/Effects.antt =====
-- Go's way to fail, as a monad: a function returns a value, returns an error, or panics, and what
-- it did to the world before stays done. Calls that the code inspects itself give a `Reply`.
use provider_temporal.Base.{◌≡◌, refl, ◌⊎◌, inl, inr, String, Bool, true, false, Option, none, some}

-- The errors of go.temporal.io/api/serviceerror that the code tells apart, and all others.
pub data ServiceErrorKind : Type 0 where
  namespace_already_exists namespace_not_found namespace_invalid_state : ServiceErrorKind
  other_service_error : ServiceErrorKind

-- `wrap` is what errors.Wrap of github.com/pkg/errors builds; errors.As looks through it.
pub data Error : Type 0 where
  service_error : ServiceErrorKind → String → Error
  message : String → Error
  wrap : Error → String → Error

abbrev pub same_kind : ServiceErrorKind → ServiceErrorKind → Bool
same_kind namespace_already_exists namespace_already_exists = true
same_kind namespace_not_found namespace_not_found = true
same_kind namespace_invalid_state namespace_invalid_state = true
same_kind other_service_error other_service_error = true
same_kind _ _ = false

-- errors.As: the first error of the chain that has the wanted type.
unfoldable pub errors_as : ServiceErrorKind → Error → Bool
errors_as k (service_error j _) = same_kind j k
errors_as k (message _) = false
errors_as k (wrap e _) = errors_as k e

pub data Reply (A : Type 0) : Type 0 where
  reply : A → Reply A
  failure : Error → Reply A

pub data Result (A : Type 0) : Type 0 where
  ok : A → Result A
  err : Error → Result A
  panic : Result A

abbrev pub Action : Type 0 → Type 0 → Type 0
Action W A = W → Result A × W

module _ {W : Type 0} where
  infixl 5 ◌>>=◌ ◌>>◌
  -- What follows an outcome.
  abbrev pub resume : {A B : Type 0} → (A → Action W B) → Result A × W → Result B × W
  resume f (ok a, w) = f a w
  resume f (err e, w) = (err e, w)
  resume f (panic, w) = (panic, w)

  abbrev pub ◌>>=◌ : {A B : Type 0} → Action W A → (A → Action W B) → Action W B
  ◌>>=◌ m f w = resume f (m w)

  abbrev pub ◌>>◌ : {A B : Type 0} → Action W A → Action W B → Action W B
  m >> k = m >>= λ _. k

  abbrev pub pure : {A : Type 0} → A → Action W A
  pure a w = (ok a, w)

  abbrev pub raise : {A : Type 0} → Error → Action W A
  raise e w = (err e, w)

  abbrev pub panics : {A : Type 0} → Action W A
  panics w = (panic, w)

  -- A pointer that is followed: nil panics.
  abbrev pub deref : {A : Type 0} → Option A → Action W A
  deref none = panics
  deref (some a) = pure a

  abbrev pub answered : {A : Type 0} → Reply A × W → Result (Reply A) × W
  answered (r, w) = (ok r, w)

  -- A call whose error the code inspects.
  abbrev pub call : {A : Type 0} → (W → Reply A × W) → Action W (Reply A)
  call f w = answered (f w)

  abbrev pub caught : {A : Type 0} → Result A × W → Result (Reply A) × W
  caught (ok a, w) = (ok (reply a), w)
  caught (err e, w) = (ok (failure e), w)
  caught (panic, w) = (panic, w)

  -- The error of a call of the program's own, taken as a value; a panic goes on.
  abbrev pub attempt : {A : Type 0} → Action W A → Action W (Reply A)
  attempt m w = caught (m w)

  -- `if err != nil { return err }`
  abbrev pub or_raise : {A : Type 0} → Reply A → Action W A
  or_raise (reply a) = pure a
  or_raise (failure e) = raise e

  -- `if err != nil { return errors.Wrap(err, msg) }`
  abbrev pub or_wrap : {A : Type 0} → String → Reply A → Action W A
  or_wrap s (reply a) = pure a
  or_wrap s (failure e) = raise (wrap e s)

-- A split on the outcome of a call, with the equation.
pub Reply-cases :
    {W A : Type 0} (x : Reply A × W)
    → ((a : A) × (w : W) × (x ≡ (reply a, w))) ⊎ ((e : Error) × (w : W) × (x ≡ (failure e, w)))
Reply-cases (reply a, w) = inl (a, w, refl)
Reply-cases (failure e, w) = inr (e, w, refl)

module _ {W A B : Type 0} where
  -- What a value that was bound came from.
  pub >>=-eq-ok :
      (f : A → Action W B) (r : Result A × W) {b : B} {w' : W}
      → resume f r ≡ (ok b, w')
      → (a : A) × (w1 : W) × (r ≡ (ok a, w1)) × (f a w1 ≡ (ok b, w'))
  >>=-eq-ok f (ok a, w) h = (a, w, refl, h)
  >>=-eq-ok f (err e, w) h = cc
  >>=-eq-ok f (panic, w) h = cc
