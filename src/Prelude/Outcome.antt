-- ===== src/Prelude/Outcome.antt =====
-- The outcome of a service call: a value or the HTTP exception it throws; and calls that read and
-- write a state. What a call has written before it throws stays written, unless it runs in a
-- transaction.
use mathlib.Core.Bool.{Bool}
use mathlib.Core.Path.{◌≡◌, refl}
use mathlib.Core.Logic.{◌⊎◌, inl, inr}
use mathlib.Core.Option.{Option, none, some}
use package.water_credits_backend.Prelude.Tests.{if◌then◌else◌}

-- The NestJS exceptions that the services throw; `failure` is a plain `Error`.
pub data HttpError : Type 0 where
  bad_request unauthorized forbidden not_found conflict too_many_requests internal_error : HttpError
  service_unavailable : HttpError
  failure : HttpError

pub data Result {ℓ} (A : Type ℓ) : Type ℓ where
  ok : A → Result A
  err : HttpError → Result A

abbrev pub Action : Type 0 → Type 0 → Type 0
Action S A = S → Result A × S

infixl 5 ◌>>=◌ ◌>>◌
abbrev pub ◌>>=◌ : {S A B : Type 0} → Action S A → (A → Action S B) → Action S B
◌>>=◌ m f s = let (r, s') = m s in elim r [ ok a ↦ f a s' | err e ↦ (err e, s') ]

abbrev pub ◌>>◌ : {S B : Type 0} → Action S (Unit {0}) → Action S B → Action S B
m >> k = m >>= λ _. k

module _ {S : Type 0} where
  abbrev pub pure : {A : Type 0} → A → Action S A
  pure a s = (ok a, s)

  abbrev pub throw : {A : Type 0} → HttpError → Action S A
  throw e s = (err e, s)

  abbrev pub gets : {A : Type 0} → (S → A) → Action S A
  gets f s = (ok (f s), s)

  abbrev pub modify : (S → S) → Action S (Unit {0})
  modify f s = (ok tt, f s)

  -- `if (test) throw …`
  abbrev pub throw_if : Bool → HttpError → Action S (Unit {0})
  throw_if b e s = (if b then err e else ok tt, s)

  -- The value, or the exception where it is null.
  abbrev pub require : {A : Type 0} → Option A → HttpError → Action S A
  require none e s = (err e, s)
  require (some a) e s = (ok a, s)

  -- A database transaction: an exception rolls the state back.
  abbrev pub transaction : {A : Type 0} → Action S A → Action S A
  transaction m s = let (r, s') = m s in elim r [ ok a ↦ (ok a, s') | err e ↦ (err e, s) ]

-- A check that reads no state.
abbrev pub lift : {S A : Type 0} → Result A → Action S A
lift r s = (r, s)

pub Result-cases {ℓ} :
    {A : Type ℓ} (r : Result A) → ((e : HttpError) × (r ≡ err e)) ⊎ ((a : A) × (r ≡ ok a))
Result-cases (ok a) = inr (a, refl)
Result-cases (err e) = inl (e, refl)
