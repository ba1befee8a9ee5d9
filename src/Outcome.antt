-- ===== src/Outcome.antt =====
-- How a C++ call ends: with a value, with an exception, or with undefined behaviour. Every part of
-- the library that can fail is written in this result type.
use marko_cpp.Prelude.{Bytes, Bool, true, false}

pub data Exn : Type 0 where
  -- std::runtime_error, with its text
  runtime_error : Bytes → Exn
  -- std::invalid_argument and std::out_of_range
  invalid_argument : Exn
  out_of_range : Exn
  -- std::bad_function_call, of an empty std::function
  bad_function_call : Exn

-- `undefined` is a step that C++ gives no meaning: a write or read out of bounds.
pub data Outcome {ℓ} (A : Type ℓ) : Type ℓ where
  returned : A → Outcome A
  threw : Exn → Outcome A
  undefined : Outcome A

infixl 5 ◌>>=◌ ◌>>◌
abbrev pub ◌>>=◌ {ℓ κ} : {A : Type ℓ} {B : Type κ} → Outcome A → (A → Outcome B) → Outcome B
returned a >>= f = f a
threw e >>= f = threw e
undefined >>= f = undefined

abbrev pub ◌>>◌ {ℓ} : {B : Type ℓ} → Outcome (Unit {0}) → Outcome B → Outcome B
m >> k = m >>= λ _. k

-- The code goes on only where `b` holds: what C++ requires of the operation that comes next.
abbrev pub require : Bool → Outcome (Unit {0})
require true = returned tt
require false = undefined
