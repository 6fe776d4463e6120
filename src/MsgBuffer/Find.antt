-- ===== src/MsgBuffer/Find.antt =====
-- `findCRLF` and `findEOL` of src/network/base/MsgBuffer.h. A result is an offset from `begin()`,
-- and `none` is NULL.
use tmms.Common.{
  ◌∙◌, ◌≤◌, ap, get_elem?, le→leb, ℕ, zero, suc, ◌+◌, ◌<◌, ◌≡◌, refl, ◌⊎◌, inl, inr, List, [], ◌∷◌,
  length, drop, Bool, true, false, ◌&&◌, Option, none, some, ◌==◌, leb, if◌then◌else◌, Result, ok,
  ◌>>◌, assert, arith, Bool-cases,
}
use tmms.MsgBuffer.{MsgBuffer, peek, begin_write, slice}
use tmms.MsgBuffer.Valid.{IsValid, contents, length-contents}

abbrev pub cr : ℕ
cr = 13

abbrev pub lf : ℕ
lf = 10

-- Does the text begin with kCRLF?
abbrev pub starts_crlf : List ℕ → Bool
starts_crlf (a ∷ b ∷ rest) = (a == cr) && (b == lf)
starts_crlf _ = false

-- `std::search` for kCRLF in a range that begins at offset `first`: where the first match starts,
-- or the end of the range.
search_crlf : List ℕ → ℕ → ℕ
search_crlf [] first = first
search_crlf (c ∷ cs) first =
    let later = search_crlf cs (suc first) in if starts_crlf (c ∷ cs) then first else later

-- `memchr` for '\n' in such a range.
memchr_eol : List ℕ → ℕ → Option ℕ
memchr_eol [] first = none
memchr_eol (c ∷ cs) first =
    let later = memchr_eol cs (suc first) in if c == lf then some first else later

or_null : ℕ → ℕ → Option ℕ
or_null end found = if found == end then none else some found

unfoldable pub find_crlf : MsgBuffer → Option ℕ
unfolding search_crlf or_null
find_crlf b = or_null (begin_write b) (search_crlf (slice b (peek b) (begin_write b)) (peek b))

-- The overload with a start.
pub find_crlf_from : ℕ → MsgBuffer → Result (Option ℕ)
unfolding search_crlf or_null
find_crlf_from start b = do
  assert (leb (peek b) start)
  assert (leb start (begin_write b))
  ok (or_null (begin_write b) (search_crlf (slice b start (begin_write b)) start))

pub find_eol : MsgBuffer → Option ℕ
unfolding memchr_eol
find_eol b = memchr_eol (slice b (peek b) (begin_write b)) (peek b)

pub find_eol_from : ℕ → MsgBuffer → Result (Option ℕ)
unfolding memchr_eol
find_eol_from start b = do
  assert (leb (peek b) start)
  assert (leb start (begin_write b))
  ok (memchr_eol (slice b start (begin_write b)) start)

-- Is there a match at index `i` of a text?
abbrev pub crlf_at : List ℕ → ℕ → Bool
crlf_at xs i = starts_crlf (drop i xs)

-- The index `i` is the first at which the test holds.
abbrev pub IsFirst : (ℕ → Bool) → ℕ → Type 0
IsFirst test i = (test i ≡ true) × ((j : ℕ) → j < i → test j ≡ false)

-- What a search over `xs` from offset `first` finds.
abbrev Finds : (ℕ → Bool) → ℕ → ℕ → ℕ → Type 0
Finds test size first found =
    ((i : ℕ) × (found ≡ first + i) × (i < size) × IsFirst test i)
    ⊎ ((found ≡ first + size) × ((j : ℕ) → test j ≡ false))

shift_none :
    (test : ℕ → Bool) → test 0 ≡ false → ((j : ℕ) → test (suc j) ≡ false) → (j : ℕ) → test j ≡ false
shift_none test z s zero = z
shift_none test z s (suc j) = s j

shift_first :
    (test : ℕ → Bool) (i : ℕ)
    → test 0 ≡ false
    → ((j : ℕ) → j < i → test (suc j) ≡ false)
    → (j : ℕ) → j < suc i
    → test j ≡ false
shift_first test i z s zero h = z
shift_first test i z s (suc j) h = s j (omega arith)

search_crlf-Finds :
    (xs : List ℕ) (first : ℕ) → Finds (crlf_at xs) (length xs) first (search_crlf xs first)
unfolding search_crlf
search_crlf-Finds [] first = inr (omega arith, λ j. nothing j)
  where
    nothing : (j : ℕ) → crlf_at [] j ≡ false
    nothing zero = refl
    nothing (suc j) = refl
search_crlf-Finds (c ∷ cs) first = elim (Bool-cases (starts_crlf (c ∷ cs))) [
  | inl here ↦
      inl
        (0, rw (here, search_crlf) (omega arith), omega arith, (here, λ j h. absurd (omega arith)))
  | inr there ↦ elim (search_crlf-Finds cs (suc first)) [
    | inl (i, e, h, (found, before)) ↦ inl (
      suc i,
      rw there (omega (arith, e)),
      omega arith,
      (found, shift_first (crlf_at (c ∷ cs)) i there before),
    )
    | inr (e, never) ↦ inr (rw there (omega (arith, e)), shift_none (crlf_at (c ∷ cs)) there never)
  ]
]

-- `findCRLF` finds the first "\r\n" among the readable bytes, and is NULL only if there is none.
pub find_crlf_lem :
    (b : MsgBuffer)
    → IsValid b
    → ((i : ℕ) × (find_crlf b ≡ some (b.reader_index + i))
        × (i < length (contents b))
        × IsFirst (crlf_at (contents b)) i)
      ⊎ ((find_crlf b ≡ none) × ((j : ℕ) → crlf_at (contents b) j ≡ false))
unfolding find_crlf or_null
find_crlf_lem b v = elim (search_crlf-Finds (contents b) b.reader_index) [
  | inl (i, e, h, f) ↦ inl (i, ground (arith, e, length-contents b v), h, f)
  | inr (e, never) ↦ inr (ground (arith, e, length-contents b v), never)
]

abbrev pub eol_at : List ℕ → ℕ → Bool
eol_at xs i = elim (get_elem? xs i) [ none ↦ false | some c ↦ c == lf ]

abbrev pub FindsEol : List ℕ → ℕ → Option ℕ → Type 0
FindsEol xs first found =
    ((i : ℕ) × (found ≡ some (first + i)) × (i < length xs) × IsFirst (eol_at xs) i)
    ⊎ ((found ≡ none) × ((j : ℕ) → eol_at xs j ≡ false))

memchr_eol-FindsEol : (xs : List ℕ) (first : ℕ) → FindsEol xs first (memchr_eol xs first)
unfolding memchr_eol
memchr_eol-FindsEol [] first = inr (refl, λ j. refl)
memchr_eol-FindsEol (c ∷ cs) first = elim (Bool-cases (c == lf)) [
  | inl here ↦
      inl (0, rw here (ap some (omega arith)), omega arith, (here, λ j h. absurd (omega arith)))
  | inr there ↦ elim (memchr_eol-FindsEol cs (suc first)) [
    | inl (i, e, h, (found, before)) ↦ inl (
      suc i,
      rw there (e ∙ ap some (omega arith)),
      omega arith,
      (found, shift_first (eol_at (c ∷ cs)) i there before),
    )
    | inr (e, never) ↦ inr (rw there e, shift_none (eol_at (c ∷ cs)) there never)
  ]
]

-- `findEOL` finds the first '\n' among the readable bytes, and is NULL only if there is none.
pub find_eol_lem : (b : MsgBuffer) → FindsEol (contents b) b.reader_index (find_eol b)
unfolding find_eol
find_eol_lem b = memchr_eol-FindsEol (contents b) b.reader_index

-- From a start inside the readable bytes both searches see exactly the readable bytes from there
-- on, and their assertions hold.
pub find_from_lem :
    (start : ℕ) (b : MsgBuffer)
    → IsValid b
    → b.reader_index ≤ start
    → start ≤ b.writer_index
    → (find_crlf_from start b ≡ ok (find_crlf (record b { reader_index = start })))
      × (find_eol_from start b ≡ ok (find_eol (record b { reader_index = start })))
unfolding find_crlf_from find_eol_from find_crlf find_eol
find_from_lem start b v lo hi = (
  rw (le→leb b.reader_index start lo, le→leb start b.writer_index hi),
  rw (le→leb b.reader_index start lo, le→leb start b.writer_index hi),
)
