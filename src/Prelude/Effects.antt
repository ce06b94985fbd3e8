-- ===== src/Prelude/Effects.antt =====
-- How a call ends: it returns, the process exits (`LOG_FATAL` and `abort`), or the behaviour is
-- undefined (an access out of bounds).
use mathlib.Core.Path.{◌≡◌, refl}

pub data Outcome {ℓ} (Value : Type ℓ) : Type ℓ where
  undefined exits : Outcome Value
  ok : Value → Outcome Value

module _ {ℓ κ} {Value : Type ℓ} {Next : Type κ} where
  infixl 5 ◌>>=◌
  -- What follows a call happens only if the call returns.
  abbrev pub ◌>>=◌ : Outcome Value → (Value → Outcome Next) → Outcome Next
  undefined >>= rest = undefined
  exits >>= rest = exits
  ok value >>= rest = rest value

  -- Inversion of a bind that returns.
  pub >>=-eq-ok :
      (m : Outcome Value) (rest : Value → Outcome Next) {b : Next}
      → (m >>= rest) ≡ ok b
      → (a : Value) × (m ≡ ok a) × (rest a ≡ ok b)
  >>=-eq-ok undefined rest h = cc
  >>=-eq-ok exits rest h = cc
  >>=-eq-ok (ok a) rest h = (a, refl, h)

  -- A bind whose two parts return.
  pub >>=-returns :
      (m : Outcome Value) (rest : Value → Outcome Next) (a : Value)
      → m ≡ ok a
      → (b : Next) × (rest a ≡ ok b)
      → (b : Next) × ((m >>= rest) ≡ ok b)
  >>=-returns m rest a e (b, e') = (b, rw e e')

pub >>=-ok {ℓ} : {Value : Type ℓ} (m : Outcome Value) → (m >>= λ value. ok value) ≡ m
>>=-ok (ok value) = refl
>>=-ok exits = refl
>>=-ok undefined = refl
