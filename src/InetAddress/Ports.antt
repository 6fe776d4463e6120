-- ===== src/InetAddress/Ports.antt =====
-- Port numbers of src/network/base/InetAddress.cpp.
use tmms.Common.{
  ℕ, zero, suc, ◌+◌, ◌*◌, ◌/◌, ◌%◌, ◌^◌, ◌≤◌, ◌<◌, ◌≡◌, refl, sym, ap, ◌∙◌, inl, inr, true, false,
  some, List, [], ◌∷◌, arith, ltb, Bool-cases,
}
use tmms.InetAddress.{
  InetAddress, digits, to_string, set_port, is_digit, value, skip_space, sign, has_digit, port,
}

pub step-value :
    (n k : ℕ) (acc : List ℕ) → k < 10 → value n ((48 + k) ∷ acc) ≡ value (n * 10 + k) acc
unfolding value
step-value n k acc h = simp (numeral) (ap (λ m. value m acc) (omega arith))
  where
    numeral : is_digit (48 + k) ≡ true
    numeral = ground arith

pub value-digits :
    (fuel n : ℕ) (acc : List ℕ) → n ≤ fuel → value 0 (digits fuel n acc) ≡ value n acc
unfolding digits
value-digits zero n acc h = step-value 0 n acc (omega arith) ∙ ap (λ m. value m acc) (omega arith)
value-digits (suc fuel) n acc h = elim (Bool-cases (ltb n 10)) [
  | inl small ↦ rw small (step-value 0 n acc (ground arith) ∙ ap (λ m. value m acc) (omega arith))
  | inr large ↦ rw large (
      value-digits fuel (n / 10) ((48 + n % 10) ∷ acc) (ground arith)
      ∙ step-value (n / 10) (n % 10) acc (omega arith)
      ∙ ap (λ m. value m acc) (omega arith))
]

-- The first byte of the digits is a digit.
StartsWithDigit : List ℕ → Type 0
StartsWithDigit xs = (k : ℕ) × (rest : List ℕ) × (k < 10) × (xs ≡ (48 + k) ∷ rest)

digits-StartsWithDigit :
    (fuel n : ℕ) (acc : List ℕ) → n ≤ fuel → StartsWithDigit (digits fuel n acc)
unfolding digits StartsWithDigit
digits-StartsWithDigit zero n acc h = (n, acc, omega arith, refl)
digits-StartsWithDigit (suc fuel) n acc h = elim (Bool-cases (ltb n 10)) [
  | inl small ↦ rw small (n, acc, ground arith, refl)
  | inr large ↦ rw large (digits-StartsWithDigit fuel (n / 10) ((48 + n % 10) ∷ acc) (ground arith))
]

skip_space_digit : (k : ℕ) (rest : List ℕ) → k < 10 → skip_space ((48 + k) ∷ rest) ≡ (48 + k) ∷ rest
unfolding skip_space
skip_space_digit k rest small = ground arith

sign_digit : (k : ℕ) (rest : List ℕ) → k < 10 → sign ((48 + k) ∷ rest) ≡ (false, (48 + k) ∷ rest)
sign_digit k rest small = ground arith

has_digit_digit : (k : ℕ) (rest : List ℕ) → k < 10 → has_digit ((48 + k) ∷ rest) ≡ true
has_digit_digit k rest small = ground arith

text_of_digits :
    (k : ℕ) (rest text : List ℕ)
    → k < 10
    → text ≡ (48 + k) ∷ rest
    → sign (skip_space text) ≡ (false, text)
text_of_digits k rest text small e =
    ap (λ t. sign (skip_space t)) e
    ∙ ap sign (skip_space_digit k rest small)
    ∙ sign_digit k rest small
    ∙ ap (λ t. (false, t)) (sym e)

port_of_digits :
    (n : ℕ) (a : InetAddress)
    → StartsWithDigit a.port_text
    → value 0 a.port_text ≡ n
    → n < 2 ^ 16
    → port a ≡ some n
unfolding port StartsWithDigit
port_of_digits n a (k, rest, small, e) v room =
    simp
      (
        text_of_digits k rest a.port_text small e,
        ap has_digit e ∙ has_digit_digit k rest small,
        v,
        fits_int,
      )
      (ap some (omega arith))
  where
    fits_int : ltb n (2 ^ 31) ≡ true
    fits_int = ground arith

-- The digits of a number have no sign and no space, and their value is the number.
pub number_text :
    (n : ℕ) → (sign (skip_space (to_string n)) ≡ (false, to_string n)) × (value 0 (to_string n) ≡ n)
unfolding StartsWithDigit value
number_text n =
    let (k, rest, small, e) = digits-StartsWithDigit n n [] (omega arith) in
    (text_of_digits k rest (to_string n) small e, value-digits n n [] (omega arith))

-- A 16-bit port that was set is the one that is read.
pub port-set_port : (n : ℕ) (a : InetAddress) → n < 2 ^ 16 → port (set_port n a) ≡ some n
unfolding set_port value
port-set_port n a h =
    port_of_digits n (record a { port_text = to_string n })
      (digits-StartsWithDigit n n [] (omega arith)) (value-digits n n [] (omega arith)) h
