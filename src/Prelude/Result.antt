-- ===== src/Prelude/Result.antt =====
-- Calls that may raise. The exception classes are Python's and adl_lite/exceptions.py's; an
-- `ADLConsensusError` is told apart by the place that raises it. Messages are not modelled.
use mathlib.Core.Path.{◌≡◌, refl}
use mathlib.Core.Logic.{◌⊎◌, inl, inr}
use mathlib.Core.Bool.{Bool, true, false}
use adl_lite.Prelude.Tests.{if◌then◌else◌}

pub data Error : Type 0 where
  value_error type_error key_error index_error assertion_error overflow_error : Error
  not_registered no_execution_spec invalid_transition too_few_validators : Error
  unknown_task : Error
  already_registered unknown_agent not_the_owner : Error
  admin_not_allowed signature_missing signature_invalid : Error
  self_validation validator_not_active : Error
  unsupported_method : Error

-- A value, or the exception that ended the call.
pub data Result {ℓ} (A : Type ℓ) : Type ℓ where
  ok : A → Result A
  err : Error → Result A

module _ {ℓ} {A : Type ℓ} where
  -- A call has returned or raised.
  pub Result-cases : (call : Result A) → ((x : Error) × (call ≡ err x)) ⊎ ((v : A) × (call ≡ ok v))
  Result-cases (err x) = inl (x, refl)
  Result-cases (ok v) = inr (v, refl)

  pub ok-injective : {v w : A} → ok v ≡ ok w → v ≡ w
  ok-injective same = cc

  pub if-eq-ok :
      (test : Bool) (v : A) (x : Error) {w : A}
      → (if test then ok v else err x) ≡ ok w
      → (test ≡ true) × (v ≡ w)
  if-eq-ok false v x same = cc
  if-eq-ok true v x same = (refl, ok-injective same)

-- What follows a call runs on its value, and an exception goes through.
infixl 5 ◌>>=◌
abbrev pub ◌>>=◌ {κ ℓ} : {A : Type κ} {B : Type ℓ} → Result A → (A → Result B) → Result B
call >>= next = elim call [ err x ↦ err x | ok v ↦ next v ]

-- Both calls of a chain that returned have returned.
pub >>=-eq-ok {κ ℓ} :
    {A : Type κ} {B : Type ℓ} (call : Result A) (next : A → Result B) {w : B}
    → (call >>= next) ≡ ok w
    → (v : A) × (call ≡ ok v) × (next v ≡ ok w)
>>=-eq-ok (err x) next done = cc
>>=-eq-ok (ok v) next done = (v, refl, done)
