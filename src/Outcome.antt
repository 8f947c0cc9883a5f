-- ===== src/Outcome.antt =====
-- What a call comes to: a value, or undefined behaviour of the source (a failed `assert`, a read
-- out of range, a null pointer), or, in a model that takes fuel, no fuel left.
use mathlib.Core.Path.{◌≡◌, ap}

pub data Outcome {ℓ} (A : Type ℓ) : Type ℓ where
  done : A → Outcome A
  fault : Outcome A
  out_of_fuel : Outcome A

infixl 5 ◌>>=◌
abbrev pub ◌>>=◌ {ℓ κ} : {A : Type ℓ} {B : Type κ} → Outcome A → (A → Outcome B) → Outcome B
done a >>= f = f a
fault >>= f = fault
out_of_fuel >>= f = out_of_fuel

abbrev or_else {ℓ} : {A : Type ℓ} → A → Outcome A → A
or_else a (done b) = b
or_else a fault = a
or_else a out_of_fuel = a

pub done-injective {ℓ} : {A : Type ℓ} {a b : A} → done a ≡ done b → a ≡ b
done-injective {a = a} e = ap (or_else a) e
