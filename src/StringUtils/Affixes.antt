-- ===== src/StringUtils/Affixes.antt =====
-- `StartsWith` and `EndsWith` of src/base/StringUtils.cpp decide the prefix and the suffix relation.
use tmms.Common.{
  ℕ, zero, suc, ◌-◌, ◌≡◌, refl, ap, sym, ◌∙◌, ◌↔◌, true, false, List, [], ◌∷◌, ◌++◌, length, take,
  drop, arith, length-append, take-append-drop, append-nil, ltb_refuted,
}
use tmms.StringUtils.{is_empty, same, starts_with, ends_with}

pub same→eq : (xs ys : List ℕ) → same xs ys ≡ true → xs ≡ ys
unfolding same
same→eq [] [] h = refl
same→eq [] (y ∷ ys) h = cc
same→eq (x ∷ xs) [] h = cc
same→eq (x ∷ xs) (y ∷ ys) h = ground (arith, same→eq xs ys)

pub same_self : (xs : List ℕ) → same xs xs ≡ true
unfolding same
same_self [] = refl
same_self (x ∷ xs) = ground (arith, same_self xs)

pub take-append_self : (xs ys : List ℕ) → take (length xs) (xs ++ ys) ≡ xs
take-append_self [] ys = refl
take-append_self (x ∷ xs) ys = ap (◌∷◌ x) (take-append_self xs ys)

pub drop-append_self : (n : ℕ) (xs ys : List ℕ) → n ≡ length xs → drop n (xs ++ ys) ≡ ys
drop-append_self zero [] ys e = refl
drop-append_self (suc n) [] ys e = absurd (omega arith)
drop-append_self zero (x ∷ xs) ys e = absurd (omega arith)
drop-append_self (suc n) (x ∷ xs) ys e = drop-append_self n xs ys (omega arith)

starts_with-append : (sub rest : List ℕ) → starts_with (sub ++ rest) sub ≡ true
unfolding starts_with
starts_with-append [] rest = refl
starts_with-append (b ∷ bs) rest =
    rw
      (
        ltb_refuted (length ((b ∷ bs) ++ rest)) (length (b ∷ bs))
            (omega (arith, length-append (b ∷ bs) rest)),
        take-append_self (b ∷ bs) rest,
      )
      (same_self (b ∷ bs))

starts_with_iff :
    (s sub : List ℕ) → (starts_with s sub ≡ true) ↔ ((rest : List ℕ) × (s ≡ sub ++ rest))
unfolding starts_with
starts_with_iff s [] = (λ h. (s, refl), λ h. refl)
starts_with_iff [] (b ∷ bs) = (λ h. cc, λ h. cc h.1)
starts_with_iff (a ∷ xs) (b ∷ bs) = (
  λ h. (
    drop (length (b ∷ bs)) (a ∷ xs),
    sym (take-append-drop (length (b ∷ bs)) (a ∷ xs))
        ∙ ap (λ ys. ys ++ drop (length (b ∷ bs)) (a ∷ xs))
            (same→eq (take (length (b ∷ bs)) (a ∷ xs)) (b ∷ bs) (ground arith)),
  ),
  λ h. ap (λ ys. starts_with ys (b ∷ bs)) h.1 ∙ starts_with-append (b ∷ bs) h.0,
)

ends_with-append :
    (front : List ℕ) (b : ℕ) (bs : List ℕ) → ends_with (front ++ (b ∷ bs)) (b ∷ bs) ≡ true
unfolding ends_with
ends_with-append front b bs =
    rw
      (
        nonempty front,
        ltb_refuted (length (front ++ (b ∷ bs))) (length (b ∷ bs))
            (omega (arith, length-append front (b ∷ bs))),
        drop-append_self (length (front ++ (b ∷ bs)) - length (b ∷ bs)) front (b ∷ bs)
            (omega (arith, length-append front (b ∷ bs))),
      )
      (same_self (b ∷ bs))
  where
    nonempty : (xs : List ℕ) → is_empty (xs ++ (b ∷ bs)) ≡ false
    nonempty [] = refl
    nonempty (x ∷ xs) = refl

ends_with_iff :
    (s sub : List ℕ) → (ends_with s sub ≡ true) ↔ ((front : List ℕ) × (s ≡ front ++ sub))
unfolding ends_with
ends_with_iff s [] = (λ h. (s, sym (append-nil s)), λ h. refl)
ends_with_iff [] (b ∷ bs) =
    (λ h. cc, λ h. ap (λ ys. ends_with ys (b ∷ bs)) h.1 ∙ ends_with-append h.0 b bs)
ends_with_iff (a ∷ xs) (b ∷ bs) = (
  λ h. (
    take (length (a ∷ xs) - length (b ∷ bs)) (a ∷ xs),
    sym (take-append-drop (length (a ∷ xs) - length (b ∷ bs)) (a ∷ xs))
        ∙ ap (λ ys. take (length (a ∷ xs) - length (b ∷ bs)) (a ∷ xs) ++ ys)
            (same→eq (drop (length (a ∷ xs) - length (b ∷ bs)) (a ∷ xs)) (b ∷ bs) (ground arith)),
  ),
  λ h. ap (λ ys. ends_with ys (b ∷ bs)) h.1 ∙ ends_with-append h.0 b bs,
)

-- `StartsWith(s, sub)` is true exactly when `s` is `sub` followed by some string, and
-- `EndsWith(s, sub)` exactly when `s` is some string followed by `sub`.
pub affixes_iff :
    (s sub : List ℕ)
    → ((starts_with s sub ≡ true) ↔ ((rest : List ℕ) × (s ≡ sub ++ rest)))
      × ((ends_with s sub ≡ true) ↔ ((front : List ℕ) × (s ≡ front ++ sub)))
affixes_iff s sub = (starts_with_iff s sub, ends_with_iff s sub)
