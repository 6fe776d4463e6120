-- ===== src/Common/Results.antt =====
-- Outcomes of code that may abort on a failed `assert` or throw from `std::vector` or from JsonCpp.
use mathlib.Core.Bool.{Bool, true, false}

pub data Fault : Type 0 where
  assertion length_error json_error : Fault

pub data Result {ℓ} (A : Type ℓ) : Type ℓ where
  ok : A → Result A
  fault : Fault → Result A

infixl 5 ◌>>=◌ ◌>>◌
abbrev pub ◌>>=◌ {ℓ κ} : {A : Type ℓ} {B : Type κ} → Result A → (A → Result B) → Result B
ok a >>= f = f a
fault e >>= f = fault e

abbrev pub ◌>>◌ {ℓ} : {B : Type ℓ} → Result (Unit {0}) → Result B → Result B
m >> k = m >>= λ _. k

-- `assert(b)`, in a build without NDEBUG.
abbrev pub assert : Bool → Result (Unit {0})
assert true = ok tt
assert false = fault assertion

-- `throw std::length_error` unless `b`.
abbrev pub fits : Bool → Result (Unit {0})
fits true = ok tt
fits false = fault length_error
