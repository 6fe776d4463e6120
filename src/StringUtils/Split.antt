-- ===== src/StringUtils/Split.antt =====
-- `SplitString` of src/base/StringUtils.cpp against an independent description: the text is its
-- pieces joined by the delimiter, and the result is those pieces that are not empty.
use tmms.Common.{
  ℕ, zero, suc, ◌+◌, ◌-◌, ◌≤◌, ◌<◌, ◌≡◌, refl, sym, ap, ◌∙◌, subst, ◌⊎◌, inl, inr, Bool, true,
  false, Option, none, some, List, [], ◌∷◌, ◌++◌, append-nil, append_assoc, arith, length, take,
  drop, length-append, length-drop, take_all, take-append, drop-drop, ltb, if◌then◌else◌,
  Bool-cases,
}
use tmms.StringUtils.Affixes.{drop-append_self}
use tmms.StringUtils.{split_string, find, split_loop, is_empty, has_prefix, find_in}

-- `pieces` with the delimiter between each two.
abbrev pub join : List ℕ → List ℕ → List (List ℕ) → List ℕ
join d piece [] = piece
join d piece (p ∷ ps) = piece ++ (d ++ join d p ps)

abbrev pub nonempty : List (List ℕ) → List (List ℕ)
nonempty [] = []
nonempty (p ∷ ps) = if is_empty p then nonempty ps else p ∷ nonempty ps

-- The delimiter starts at no index of the text.
abbrev pub Free : List ℕ → List ℕ → Type 0
Free d [] = Unit {0}
Free d (c ∷ cs) = (has_prefix d (c ∷ cs) ≡ false) × Free d cs

-- The delimiter starts at no index of `front` when `back` follows.
abbrev pub FreeBefore : List ℕ → List ℕ → List ℕ → Type 0
FreeBefore d [] back = Unit {0}
FreeBefore d (c ∷ front) back = (has_prefix d (c ∷ front ++ back) ≡ false) × FreeBefore d front back

has_prefix-split : (d xs : List ℕ) → has_prefix d xs ≡ true → (rest : List ℕ) × (xs ≡ d ++ rest)
has_prefix-split [] xs h = (xs, refl)
has_prefix-split (a ∷ d) [] h = cc
has_prefix-split (a ∷ d) (c ∷ cs) h =
    let (rest, e) = has_prefix-split d cs (ground arith) in (rest, ground arith)

-- What `find_in` finds in `xs` from index `first` on.
abbrev Found : List ℕ → List ℕ → ℕ → Option ℕ → Type 0
Found d xs first r =
    ((r ≡ none) × Free d xs)
    ⊎ ((front : List ℕ) × (rest : List ℕ) × (xs ≡ front ++ (d ++ rest))
        × FreeBefore d front (d ++ rest)
        × (r ≡ some (first + length front)))

find_in-Found : (d xs : List ℕ) (first : ℕ) → Found d xs first (find_in d xs first)
unfolding find_in
find_in-Found d [] first = inl (refl, tt)
find_in-Found d (c ∷ cs) first = elim (Bool-cases (has_prefix d (c ∷ cs))) [
  | inl here ↦
      let (rest, e) = has_prefix-split d (c ∷ cs) here in
      inr ([], rest, e, tt, rw here (ap some (omega arith)))
  | inr there ↦ elim (find_in-Found d cs (suc first)) [
    | inl (e, free) ↦ inl (rw there e, (there, free))
    | inr (front, rest, e, free, r) ↦ inr (
      c ∷ front,
      rest,
      ap (◌∷◌ c) e,
      (ap (λ ys. has_prefix d (c ∷ ys)) (sym e) ∙ there, free),
      rw there (r ∙ ap some (omega arith)),
    )
  ]
]

-- The pieces hold no delimiter: none starts inside a piece, also where it would run on into the
-- delimiter behind it.
abbrev pub Clean : List ℕ → List ℕ → List (List ℕ) → Type 0
Clean d piece [] = Free d piece
Clean d piece (p ∷ ps) = FreeBefore d piece (d ++ join d p ps) × Clean d p ps

-- What the loop does from index `last` on.
abbrev Splits : List ℕ → List ℕ → List (List ℕ) → Option (List (List ℕ)) → Type 0
Splits d rest result out =
    (piece : List ℕ) × (pieces : List (List ℕ)) × (out ≡ some (result ++ nonempty (piece ∷ pieces)))
    × (rest ≡ join d piece pieces)
    × Clean d piece pieces

-- A part is kept where it is not empty, which the code tests by its ends.
keep_part :
    (part : List ℕ) (test : Bool) (result : List (List ℕ))
    → ((test ≡ true) × (0 < length part)) ⊎ ((test ≡ false) × (length part ≡ 0))
    → (if test then result ++ (part ∷ []) else result) ≡ result ++ nonempty (part ∷ [])
keep_part [] test result (inl h) = absurd (omega arith)
keep_part [] test result (inr h) = rw (h.0, append-nil)
keep_part (x ∷ xs) test result (inl h) = rw h.0
keep_part (x ∷ xs) test result (inr h) = absurd (omega arith)

ltb_sides : (a b n : ℕ) → b ≡ a + n → ((ltb a b ≡ true) × (0 < n)) ⊎ ((ltb a b ≡ false) × (n ≡ 0))
ltb_sides a b n e = ground arith

nonempty-cons :
    (p : List ℕ) (ps : List (List ℕ)) → nonempty (p ∷ []) ++ nonempty ps ≡ nonempty (p ∷ ps)
nonempty-cons [] ps = refl
nonempty-cons (x ∷ xs) ps = refl

take_front : (n : ℕ) (xs ys : List ℕ) → n ≡ length xs → take n (xs ++ ys) ≡ xs
take_front n xs ys e = take-append n xs ys (omega arith) ∙ take_all n xs (omega arith)

nonempty_size : (d : List ℕ) → is_empty d ≡ false → 0 < length d
nonempty_size [] h = cc
nonempty_size (c ∷ cs) h = omega arith

-- One round of the loop, with a delimiter found behind `front`.
module _ (s d front rest : List ℕ) (last : ℕ) (result : List (List ℕ))
    (e : drop last s ≡ front ++ (d ++ rest)) where
  abbrev next : ℕ
  next = last + length front

  abbrev kept : List (List ℕ)
  kept = if ltb last next then result ++ (take (next - last) (drop last s) ∷ []) else result

  kept_lem : kept ≡ result ++ nonempty (front ∷ [])
  kept_lem =
      ap (λ part. if ltb last next then result ++ (part ∷ []) else result)
        (ap (take (next - last)) e ∙ take_front (next - last) front (d ++ rest) (omega arith))
      ∙ keep_part front (ltb last next) result (ltb_sides last next (length front) refl)

  after_delimiter : drop (next + length d) s ≡ rest
  after_delimiter =
      sym (drop-drop (length front + length d) last (next + length d) s (omega arith))
      ∙ ap (drop (length front + length d)) (e ∙ sym (append_assoc front d rest))
      ∙ drop-append_self (length front + length d) (front ++ d) rest
          (omega (arith, length-append front d))

  sizes : length s - last ≡ length front + (length d + length rest)
  sizes = omega (
    arith,
    length-drop last s,
    ap length e,
    length-append front (d ++ rest),
    length-append d rest,
  )

  found-Splits :
      (fuel : ℕ)
      → FreeBefore d front (d ++ rest)
      → find s d last ≡ some next
      → Splits d (drop (next + length d) s) kept (split_loop fuel s d (next + length d) kept)
      → Splits d (drop last s) result (split_loop (suc fuel) s d last result)
  unfolding split_loop
  found-Splits fuel free r (p, ps, o, j, c) = (
    front,
    p ∷ ps,
    rw (r, split_loop)
        (o
          ∙ ap some (
              ap (λ xs. xs ++ nonempty (p ∷ ps)) kept_lem
              ∙ append_assoc result (nonempty (front ∷ [])) (nonempty (p ∷ ps))
              ∙ ap (λ xs. result ++ xs) (nonempty-cons front (p ∷ ps)))),
    e ∙ ap (λ xs. front ++ (d ++ xs)) (sym after_delimiter ∙ j),
    (subst (λ xs. FreeBefore d front (d ++ xs)) (sym after_delimiter ∙ j) free, c),
  )

split_loop-Splits :
    (fuel : ℕ) (s d : List ℕ) (last : ℕ) (result : List (List ℕ))
    → is_empty d ≡ false
    → last ≤ length s
    → length s < last + fuel
    → Splits d (drop last s) result (split_loop fuel s d last result)
unfolding find
split_loop-Splits zero s d last result ne le enough = absurd (omega arith)
split_loop-Splits (suc fuel) s d last result ne le enough =
    elim (find_in-Found d (drop last s) last) [
      | inl (e, free) ↦ (
        drop last s,
        [],
        unfold split_loop in
            rw (e, split_loop)
              (ap some (
                keep_part (drop last s) (ltb last (length s)) result (
                  ltb_sides last (length s) (length (drop last s))
                    (omega (arith, length-drop last s))))),
        refl,
        free,
      )
      | inr (front, rest, e, free, r) ↦ found-Splits s d front rest last result e fuel free r (
          split_loop-Splits fuel s d (next s d front rest last result e + length d)
            (kept s d front rest last result e) ne
            (omega (arith, sizes s d front rest last result e))
            (omega (arith, sizes s d front rest last result e, nonempty_size d ne)))
    ]

-- `SplitString` with a delimiter that is not empty always ends, within one round for each byte and
-- one more. The text is some pieces joined by the delimiter, no piece holds a delimiter, and the
-- result is those of the pieces that are not empty, in order.
pub split_string_lem :
    (s d : List ℕ)
    → is_empty d ≡ false
    → (piece : List ℕ) × (pieces : List (List ℕ)) × (split_string s d
        ≡ some (nonempty (piece ∷ pieces)))
      × (s ≡ join d piece pieces)
      × Clean d piece pieces
unfolding split_string
split_string_lem s d ne =
    rw ne (split_loop-Splits (length s + 1) s d 0 [] ne (omega arith) (omega arith))
