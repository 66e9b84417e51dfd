-- ===== src/Base/Results.antt =====
-- `Result`, and the outcome of an operation that may go on waiting for the device.

pub data Result {ℓ κ} (A : Type ℓ) (E : Type κ) : Type (ℓ ⊔ κ) where
  ok : A → Result A E
  err : E → Result A E

infixl 5 ◌>>=◌
abbrev pub ◌>>=◌ {ℓ κ ι} :
    {A : Type ℓ} {B : Type κ} {E : Type ι} → Result A E → (A → Result B E) → Result B E
ok a >>= f = f a
err e >>= f = err e

-- What a call that polls the device has come to after the polls that were made: a value, an error,
-- or no answer yet.
pub data Outcome {ℓ κ} (A : Type ℓ) (E : Type κ) : Type (ℓ ⊔ κ) where
  done : A → Outcome A E
  failed : E → Outcome A E
  waiting : Outcome A E
