-- ===== src/Base/Outcome.antt =====
-- Go's `(value, error)`: an error is the sentinel that `errors.Is` finds in it.
use mathlib.Core.Path.{◌≡◌, refl}
use mathlib.Core.Logic.{◌⊎◌, inl, inr}
use mathlib.Core.Option.{Option, none, some}

pub data Error : Type 0 where
  invalid_argument not_found forbidden conflict : Error
  bot_not_configured bot_command_failed : Error
  unauthorized invalid_token email_required : Error
  invitation_expired invitation_revoked invitation_already_accepted : Error
  invitation_email_mismatch invitation_email_delivery : Error
  -- a failure of the database or of another part outside the repository
  unavailable : Error

pub data Result {ℓ} (A : Type ℓ) : Type ℓ where
  ok : A → Result A
  err : Error → Result A

-- The value, where the caller goes on without one after an error.
abbrev pub found {ℓ} : {A : Type ℓ} → Result A → Option A
found (ok a) = some a
found (err _) = none

-- A method that changes a state and may fail. What was written before the error stays written.
abbrev pub Exec {ℓ} : Type ℓ → Type ℓ → Type ℓ
Exec S A = S → Result A × S

module _ {ℓ} {S A : Type ℓ} where
  abbrev pub pure : A → Exec S A
  pure a s = (ok a, s)

  abbrev pub raise : Error → Exec S A
  raise e s = (err e, s)

module _ {ℓ} {S A B : Type ℓ} where
  abbrev pub continue : Result A × S → (A → Exec S B) → Result B × S
  continue (ok a, s) f = f a s
  continue (err e, s) f = (err e, s)

  infixl 5 ◌>>=◌
  abbrev pub ◌>>=◌ : Exec S A → (A → Exec S B) → Exec S B
  ◌>>=◌ m f s = continue (m s) f

module _ {ℓ κ} {S A B : Type ℓ} (P : S → Type κ) (f : A → Exec S B) where
  continue-keeps :
      (m : Result A × S) → P m.1 → ((a : A) → m.0 ≡ ok a → P (f a m.1).1) → P (continue m f).1
  continue-keeps (ok a, s) h k = k a refl
  continue-keeps (err e, s) h k = h

  -- A property of the state holds after two actions in a row.
  pub bind-keeps :
      (m : Exec S A) (s : S)
      → P (m s).1
      → ((a : A) → (m s).0 ≡ ok a → P (f a (m s).1).1)
      → P ((m >>= f) s).1
  bind-keeps m s = continue-keeps (m s)

pub Result-cases {ℓ} :
    {A : Type ℓ} (answer : Result A)
    → ((value : A) × (answer ≡ ok value)) ⊎ ((cause : Error) × (answer ≡ err cause))
Result-cases (ok value) = inl (value, refl)
Result-cases (err cause) = inr (cause, refl)

module _ {ℓ κ} {S A B : Type ℓ} (Q : Result B × S → Type κ) (f : A → Exec S B) where
  -- A property of the outcome of two actions in a row, by the outcome of the first.
  pub continue-case :
      (m : Result A × S)
      → ((e : Error) → m.0 ≡ err e → Q (err e, m.1))
      → ((a : A) → m.0 ≡ ok a → Q (f a m.1))
      → Q (continue m f)
  continue-case (ok a, s) h k = k a refl
  continue-case (err e, s) h k = h e refl

pub ok-injective {ℓ} : {A : Type ℓ} (a b : A) → ok a ≡ ok b → a ≡ b
ok-injective a b e = cc e
