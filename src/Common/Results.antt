-- ===== src/Common/Results.antt =====
-- Go's `error` values, and results of fallible calls. An `Op` also passes a state on, which comes
-- back beside the error too.
use mathlib.Core.Path.{◌≡◌, refl}
use mathlib.Core.Logic.{◌⊎◌, inl, inr}
use mathlib.Core.Bool.{Bool, true, false}
use mathlib.Core.Option.{Option, none, some}
use watch_tower.Common.Texts.{Text}

-- The sentinel errors that the program compares with, a failure with a message, and `%w` wrapping.
pub data Error : Type 0 where
  canceled deadline_exceeded net_closed redis_closed redis_nil : Error
  max_bytes too_long not_implemented : Error
  failure : Text → Error
  wrapped : Text → Error → Error

pub data Result {ℓ} (A : Type ℓ) : Type ℓ where
  ok : A → Result A
  err : Error → Result A

abbrev pub Done : Type 0
Done = Result (Unit {0})

abbrev pub Op : Type 0 → Type 0 → Type 0
Op S A = S → Result A × S

infixl 10 ◌>>=◌ ◌>>◌
abbrev pub and_then : {S A B : Type 0} → Result A → (A → Op S B) → Op S B
and_then (ok a) f s = f a s
and_then (err e) f s = (err e, s)

abbrev pub ◌>>=◌ : {S A B : Type 0} → Op S A → (A → Op S B) → Op S B
◌>>=◌ m f s = let (r, s') = m s in and_then r f s'

abbrev pub ◌>>◌ : {S A B : Type 0} → Op S A → Op S B → Op S B
m >> n = m >>= λ _. n

abbrev pub pure : {S A : Type 0} → A → Op S A
pure a s = (ok a, s)

abbrev pub fail : {S A : Type 0} → Error → Op S A
fail e s = (err e, s)

-- `if err != nil { return fmt.Errorf("...: %w", err) }`
abbrev pub wrap_error : {A : Type 0} → Text → Result A → Result A
wrap_error msg (ok a) = ok a
wrap_error msg (err e) = err (wrapped msg e)

abbrev pub is_ok : {A : Type 0} → Result A → Bool
is_ok (ok a) = true
is_ok (err e) = false

-- A failure reported by the environment, as the result of a call that returns only an error.
abbrev pub from_fault : Option Error → Done
from_fault none = ok tt
from_fault (some e) = err e

pub Result-cases :
    {A : Type 0} (r : Result A) → ((a : A) × (r ≡ ok a)) ⊎ ((e : Error) × (r ≡ err e))
Result-cases (ok a) = inl (a, refl)
Result-cases (err e) = inr (e, refl)
