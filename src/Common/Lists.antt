-- ===== src/Common/Lists.antt =====
-- Lists measured and indexed by native numbers.
use Prim.Native.Nat.{ℕ, zero, suc, ◌+◌, ◌-◌, ◌≤◌, min}
use mathlib.Core.Path.{◌≡◌, refl, ap, ◌∙◌}
use mathlib.Core.List.{List, [], ◌∷◌, ◌++◌}
use mathlib.Core.Option.{Option, none, some}
use native.Mathlib.Omega.{arith}

module _ {ℓ} {A : Type ℓ} where
  abbrev pub length : List A → ℕ
  length [] = 0
  length (x ∷ xs) = suc (length xs)

  abbrev pub get_elem? : List A → ℕ → Option A
  get_elem? [] i = none
  get_elem? (x ∷ xs) zero = some x
  get_elem? (x ∷ xs) (suc i) = get_elem? xs i

  abbrev pub take : ℕ → List A → List A
  take zero xs = []
  take (suc n) [] = []
  take (suc n) (x ∷ xs) = x ∷ take n xs

  abbrev pub drop : ℕ → List A → List A
  drop zero xs = xs
  drop (suc n) [] = []
  drop (suc n) (x ∷ xs) = drop n xs

  abbrev pub replicate : ℕ → A → List A
  replicate zero a = []
  replicate (suc n) a = a ∷ replicate n a

  pub length-append : (xs ys : List A) → length (xs ++ ys) ≡ length xs + length ys
  length-append [] ys = omega arith
  length-append (x ∷ xs) ys = omega (arith, length-append xs ys)

  pub length-take : (n : ℕ) (xs : List A) → length (take n xs) ≡ min n (length xs)
  length-take zero xs = omega arith
  length-take (suc n) [] = omega arith
  length-take (suc n) (x ∷ xs) = omega (arith, length-take n xs)

  pub length-drop : (n : ℕ) (xs : List A) → length (drop n xs) ≡ length xs - n
  length-drop zero xs = omega arith
  length-drop (suc n) [] = omega arith
  length-drop (suc n) (x ∷ xs) = omega (arith, length-drop n xs)

  pub length-replicate : (n : ℕ) (a : A) → length (replicate n a) ≡ n
  length-replicate zero a = refl
  length-replicate (suc n) a = ap suc (length-replicate n a)

  pub take-append-drop : (n : ℕ) (xs : List A) → take n xs ++ drop n xs ≡ xs
  take-append-drop zero xs = refl
  take-append-drop (suc n) [] = refl
  take-append-drop (suc n) (x ∷ xs) = ap (◌∷◌ x) (take-append-drop n xs)

  -- A prefix that covers the list is the list, and what is dropped after it is empty.
  pub take_all : (n : ℕ) (xs : List A) → length xs ≤ n → take n xs ≡ xs
  take_all zero [] h = refl
  take_all zero (x ∷ xs) h = absurd (omega arith)
  take_all (suc n) [] h = refl
  take_all (suc n) (x ∷ xs) h = ap (◌∷◌ x) (take_all n xs (omega arith))

  pub drop_all : (n : ℕ) (xs : List A) → length xs ≤ n → drop n xs ≡ []
  drop_all zero [] h = refl
  drop_all zero (x ∷ xs) h = absurd (omega arith)
  drop_all (suc n) [] h = refl
  drop_all (suc n) (x ∷ xs) h = drop_all n xs (omega arith)

  pub take-append : (n : ℕ) (xs ys : List A) → n ≤ length xs → take n (xs ++ ys) ≡ take n xs
  take-append zero xs ys h = refl
  take-append (suc n) [] ys h = absurd (omega arith)
  take-append (suc n) (x ∷ xs) ys h = ap (◌∷◌ x) (take-append n xs ys (omega arith))

  pub take-append_past :
      (n : ℕ) (xs ys : List A) → length xs ≤ n → take n (xs ++ ys) ≡ xs ++ take (n - length xs) ys
  take-append_past n [] ys h = ap (λ k. take k ys) (omega arith)
  take-append_past zero (x ∷ xs) ys h = absurd (omega arith)
  take-append_past (suc n) (x ∷ xs) ys h =
      ap (◌∷◌ x) (take-append_past n xs ys (omega arith) ∙ ap (λ k. xs ++ take k ys) (omega arith))

  pub drop-append : (n : ℕ) (xs ys : List A) → n ≤ length xs → drop n (xs ++ ys) ≡ drop n xs ++ ys
  drop-append zero xs ys h = refl
  drop-append (suc n) [] ys h = absurd (omega arith)
  drop-append (suc n) (x ∷ xs) ys h = drop-append n xs ys (omega arith)

  pub drop-append_past :
      (n : ℕ) (xs ys : List A) → length xs ≤ n → drop n (xs ++ ys) ≡ drop (n - length xs) ys
  drop-append_past n [] ys h = ap (λ k. drop k ys) (omega arith)
  drop-append_past zero (x ∷ xs) ys h = absurd (omega arith)
  drop-append_past (suc n) (x ∷ xs) ys h =
      drop-append_past n xs ys (omega arith) ∙ ap (λ k. drop k ys) (omega arith)

  -- The end `k` of the slice is a variable, with its sum as an equation.
  pub drop-take : (m n k : ℕ) (xs : List A) → k ≡ m + n → drop m (take k xs) ≡ take n (drop m xs)
  drop-take zero n k xs e = ap (λ j. take j xs) (omega arith)
  drop-take (suc m) n zero xs e = absurd (omega arith)
  drop-take (suc m) zero (suc k) [] e = refl
  drop-take (suc m) (suc n) (suc k) [] e = refl
  drop-take (suc m) n (suc k) (x ∷ xs) e = drop-take m n k xs (omega arith)

  pub drop-drop : (n m k : ℕ) (xs : List A) → k ≡ m + n → drop n (drop m xs) ≡ drop k xs
  drop-drop n zero k xs e = ap (λ j. drop j xs) (omega arith)
  drop-drop n (suc m) zero xs e = absurd (omega arith)
  drop-drop zero (suc m) (suc k) [] e = refl
  drop-drop (suc n) (suc m) (suc k) [] e = refl
  drop-drop n (suc m) (suc k) (x ∷ xs) e = drop-drop n m k xs (omega arith)

  pub take-take : (n m : ℕ) (xs : List A) → n ≤ m → take n (take m xs) ≡ take n xs
  take-take zero m xs h = refl
  take-take (suc n) zero xs h = absurd (omega arith)
  take-take (suc n) (suc m) [] h = refl
  take-take (suc n) (suc m) (x ∷ xs) h = ap (◌∷◌ x) (take-take n m xs (omega arith))

  -- `std::copy` into a vector: the bytes from index `i` on are overwritten by `ys`.
  abbrev pub write_at : List A → ℕ → List A → List A
  write_at xs i ys = take i xs ++ (ys ++ drop (i + length ys) xs)

  pub length-write_at :
      (xs : List A) (i : ℕ) (ys : List A)
      → i + length ys ≤ length xs
      → length (write_at xs i ys) ≡ length xs
  length-write_at xs i ys h = omega (
    arith,
    length-append (take i xs) (ys ++ drop (i + length ys) xs),
    length-append ys (drop (i + length ys) xs),
    length-take i xs,
    length-drop (i + length ys) xs,
  )

  -- What was written is the end of the prefix that reaches just past it.
  pub take-write_at :
      (xs : List A) (i k : ℕ) (ys : List A)
      → i ≤ length xs
      → k ≡ i + length ys
      → take k (write_at xs i ys) ≡ take i xs ++ ys
  take-write_at xs i k ys h e =
      take-append_past k (take i xs) (ys ++ drop (i + length ys) xs) (omega (arith, size))
      ∙ ap (λ zs. take i xs ++ zs)
          (take-append (k - length (take i xs)) ys (drop (i + length ys) xs) (omega (arith, size))
            ∙ take_all (k - length (take i xs)) ys (omega (arith, size)))
    where
      size : length (take i xs) ≡ i
      size = omega (arith, length-take i xs)

  -- `std::vector::resize`, with the value that new elements get.
  abbrev pub resize : ℕ → A → List A → List A
  resize n a xs = take n xs ++ replicate (n - length xs) a

  pub length-resize : (n : ℕ) (a : A) (xs : List A) → length (resize n a xs) ≡ n
  length-resize n a xs = omega (
    arith,
    length-append (take n xs) (replicate (n - length xs) a),
    length-take n xs,
    length-replicate (n - length xs) a,
  )

  pub take-resize :
      (k n : ℕ) (a : A) (xs : List A) → k ≤ n → k ≤ length xs → take k (resize n a xs) ≡ take k xs
  take-resize k n a xs h g =
      take-append k (take n xs) (replicate (n - length xs) a) (omega (arith, length-take n xs))
      ∙ take-take k n xs h
