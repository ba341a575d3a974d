-- ===== src/Store/Actions.antt =====
-- A service's method: it reads and writes the transaction, and returns or raises. What was written before
-- a raise stays in the transaction, for the unit of work to undo.
use gd_classroom.Prelude.{Bool, if◌then◌else◌, Option, none, some, List, [], ◌∷◌, Result, ok, err}

-- The exceptions of backend/app/core/errors.py that the services raise.
pub data AppError : Type 0 where
  validation authentication token_expired authorization not_found conflict : AppError
  illegal_transition classroom_not_ready seats_full invitation_closed : AppError

abbrev pub Action : Type 0 → Type 0 → Type 0
Action S A = S → Result AppError A × S

module _ {S : Type 0} where
  abbrev pub pure : {A : Type 0} → A → Action S A
  pure a s = (ok a, s)

  abbrev pub raise : {A : Type 0} → AppError → Action S A
  raise e s = (err e, s)

  abbrev pub gets : {A : Type 0} → (S → A) → Action S A
  gets f s = (ok (f s), s)

  abbrev pub modifies : (S → S) → Action S (Unit {0})
  modifies f s = (ok tt, f s)

  -- `if value is None: raise`
  abbrev pub or_raise : {A : Type 0} → Option A → AppError → Action S A
  or_raise o e s = (elim o [ none ↦ err e | some a ↦ ok a ], s)

  -- `if condition: raise`
  abbrev pub raise_if : Bool → AppError → Action S (Unit {0})
  raise_if c e s = (if c then err e else ok tt, s)

infixl 5 ◌>>=◌ ◌>>◌
unfoldable pub ◌>>=◌ : {S A B : Type 0} → Action S A → (A → Action S B) → Action S B
◌>>=◌ m f s = let (r, s') = m s in elim r [ ok a ↦ f a s' | err e ↦ (err e, s') ]

abbrev pub ◌>>◌ : {S A B : Type 0} → Action S A → Action S B → Action S B
m >> k = m >>= λ _. k

-- A `for` loop over the items.
abbrev pub each : {S A : Type 0} → (A → Action S (Unit {0})) → List A → Action S (Unit {0})
each f [] s = (ok tt, s)
each f (x ∷ xs) s = (f x >> each f xs) s
