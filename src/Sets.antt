-- ===== src/Sets.antt =====
-- Lists of numbers that stand for sets, such as the pointers in an `unordered_set`.
use tmms.Common.{
  ℕ, ◌≡◌, refl, ap, ◌∙◌, inl, inr, Bool, true, false, ◌&&◌, ◌||◌, not, List, [], ◌∷◌, ◌++◌, arith,
  ◌==◌, if◌then◌else◌, Bool-cases,
}

unfoldable pub has : ℕ → List ℕ → Bool
has t [] = false
has t (u ∷ us) = (t == u) || has t us

unfoldable pub erase : ℕ → List ℕ → List ℕ
erase t [] = []
erase t (u ∷ us) = let rest = erase t us in if t == u then us else u ∷ rest

-- No number stands in the list twice.
abbrev pub NoDup : List ℕ → Type 0
NoDup [] = Unit {0}
NoDup (t ∷ ts) = (has t ts ≡ false) × NoDup ts

pub has-append : (t u : ℕ) (ts : List ℕ) → has t (ts ++ (u ∷ [])) ≡ has t ts || (t == u)
unfolding has
has-append t u [] = ground arith
has-append t u (x ∷ xs) = grind (arith, has-append t u xs)

pub append-NoDup : (t : ℕ) (ts : List ℕ) → has t ts ≡ false → NoDup ts → NoDup (ts ++ (t ∷ []))
unfolding has
append-NoDup t [] h d = (refl, _)
append-NoDup t (x ∷ xs) h (n, d) =
    (ground (arith, has-append x t xs), append-NoDup t xs ground arith d)

-- `erase` takes out one number and leaves the others.
pub has-erase : (t u : ℕ) (ts : List ℕ) → NoDup ts → has u (erase t ts) ≡ has u ts && not (u == t)
unfolding has erase
has-erase t u [] d = refl
has-erase t u (x ∷ xs) (n, d) = elim (Bool-cases (t == x)) [
  | inl same ↦ rw same (erased (ground arith))
  | inr other ↦ rw other (ground (arith, has-erase t u xs d))
]
  where
    erased : t ≡ x → has u xs ≡ ((u == x) || has u xs) && not (u == t)
    erased e = elim (Bool-cases (u == x)) [
      | inl hit ↦ (ap (λ v. has v xs) {x = u} {y = x} (ground arith) ∙ n) ∙ ground arith
      | inr miss ↦ ground arith
    ]

pub erase-NoDup : (t : ℕ) (ts : List ℕ) → NoDup ts → NoDup (erase t ts)
unfolding erase
erase-NoDup t [] d = d
erase-NoDup t (x ∷ xs) (n, d) = elim (Bool-cases (t == x)) [
  | inl same ↦ rw same d
  | inr other ↦ rw other (ground (arith, has-erase t x xs d), erase-NoDup t xs d)
]

pub already : (t u : ℕ) (ts : List ℕ) → has t ts ≡ true → has u ts ≡ has u ts || (u == t)
already t u ts held = elim (Bool-cases (u == t)) [
  | inl hit ↦ ap (λ v. has v ts) {x = u} {y = t} (ground arith) ∙ held ∙ ground arith
  | inr miss ↦ ground arith
]
