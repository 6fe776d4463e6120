-- ===== src/MsgBuffer/Moves.antt =====
-- The consuming side of `MsgBuffer` in src/network/base/MsgBuffer.h: what `retrieve`, `unwrite`
-- and the string readers do to the readable bytes.
use tmms.Common.{
  take_all, sub_size, ℕ, ◌-◌, ◌≤◌, ◌≡◌, refl, ap, sym, ◌∙◌, inl, inr, [], length, take, drop,
  length-take, drop_all, drop-drop, drop-take, take-take, arith, ok, ltb, add_size, Bool-cases,
  le→leb,
}
use tmms.MsgBuffer.{
  retrieve_until, retrieve_all_as_string, unwrite, MsgBuffer, readable_bytes, retrieve,
  retrieve_all, unwrite, retrieve_until, retrieve_as_string, retrieve_all_as_string,
}
use tmms.MsgBuffer.Valid.{IsValid, contents, length-contents}

pub retrieve_all-IsValid : (b : MsgBuffer) → IsValid b → IsValid (retrieve_all b)
unfolding retrieve_all
retrieve_all-IsValid b v = omega arith

pub contents-retrieve_all : (b : MsgBuffer) → contents (retrieve_all b) ≡ []
unfolding retrieve_all
contents-retrieve_all b = drop_all 8 (take 8 b.buffer) (omega (arith, length-take 8 b.buffer))

buffer-retrieve_all : (b : MsgBuffer) → (retrieve_all b).buffer ≡ b.buffer
unfolding retrieve_all
buffer-retrieve_all b = refl

-- The buffer that `retrieve` leaves where its assertion holds.
abbrev pub Retrieved : ℕ → MsgBuffer → MsgBuffer → Type 0
Retrieved len b b' = IsValid b' × (contents b' ≡ drop len (contents b)) × (b'.buffer ≡ b.buffer)

-- `retrieve(len)` with at most the readable bytes succeeds and drops exactly the first `len` of
-- them.
pub retrieve_lem :
    (len : ℕ) (b : MsgBuffer)
    → IsValid b
    → len ≤ length (contents b)
    → (b' : MsgBuffer) × (retrieve len b ≡ ok b') × Retrieved len b b'
unfolding retrieve
retrieve_lem len b v h = elim (Bool-cases (ltb len (readable_bytes b))) [
  | inl less ↦ (
    record b { reader_index = add_size b.reader_index len },
    rw (le→leb len (readable_bytes b) fit, less) refl,
    (
      ground arith,
      sym (
          drop-drop len b.reader_index (add_size b.reader_index len) (take b.writer_index b.buffer)
            (ground arith)),
      refl,
    ),
  )
  | inr all ↦ (
    retrieve_all b,
    rw (le→leb len (readable_bytes b) fit, all) refl,
    (
      retrieve_all-IsValid b v,
      contents-retrieve_all b
          ∙ sym (drop_all len (contents b) (ground (arith, length-contents b v))),
      buffer-retrieve_all b,
    ),
  )
]
  where
    fit : len ≤ readable_bytes b
    fit = omega (arith, length-contents b v)

-- The string that the readers copy out is the front of the readable bytes.
pub string-contents :
    (len : ℕ) (b : MsgBuffer)
    → IsValid b
    → len ≤ length (contents b)
    → take len (drop b.reader_index b.buffer) ≡ take len (contents b)
string-contents len b v h =
    sym (
      take-take len (b.writer_index - b.reader_index) (drop b.reader_index b.buffer)
        (omega (arith, length-contents b v)))
    ∙ ap (take len) (
        sym (
          drop-take b.reader_index (b.writer_index - b.reader_index) b.writer_index b.buffer
            (omega arith)))

-- `retrieveAsString(len)` returns the first `len` readable bytes and drops them.
pub retrieve_as_string_lem :
    (len : ℕ) (b : MsgBuffer)
    → IsValid b
    → len ≤ length (contents b)
    → (b' : MsgBuffer) × (retrieve_as_string len b ≡ ok (take len (contents b), b'))
      × Retrieved len b b'
unfolding retrieve_as_string
retrieve_as_string_lem len b v h =
    let (b', e, r) = retrieve_lem len b v h in
    (
      b',
      rw (
        le→leb len (readable_bytes b) (omega (arith, length-contents b v)),
        e,
        string-contents len b v h,
      ),
      r,
    )

-- `retrieveAllAsString` hands over everything and leaves the buffer empty.
pub retrieve_all_as_string_lem :
    (b : MsgBuffer)
    → IsValid b
    → (b' : MsgBuffer) × (retrieve_all_as_string b ≡ ok (contents b, b'))
      × IsValid b'
      × (contents b' ≡ [])
unfolding retrieve_all_as_string
retrieve_all_as_string_lem b v =
    let (b', e, (w, c, _)) =
      retrieve_as_string_lem (readable_bytes b) b v (omega (arith, length-contents b v)) in
    (
      b',
      e
          ∙ ap (λ xs. ok (xs, b'))
              (take_all (readable_bytes b) (contents b) (omega (arith, length-contents b v))),
      w,
      c ∙ drop_all (readable_bytes b) (contents b) (omega (arith, length-contents b v)),
    )

-- `retrieveUntil(end)` at an offset inside the readable bytes drops those before it.
pub retrieve_until_lem :
    (end : ℕ) (b : MsgBuffer)
    → IsValid b
    → b.reader_index ≤ end
    → end ≤ b.writer_index
    → (b' : MsgBuffer) × (retrieve_until end b ≡ ok b') × Retrieved (end - b.reader_index) b b'
unfolding retrieve_until
retrieve_until_lem end b v lo hi =
    rw (le→leb b.reader_index end lo, le→leb end b.writer_index hi, exact)
      (retrieve_lem (end - b.reader_index) b v (omega (arith, length-contents b v)))
  where
    exact : sub_size end b.reader_index ≡ end - b.reader_index
    exact = omega arith

-- `unwrite(len)` takes back the last `len` readable bytes.
pub unwrite_lem :
    (len : ℕ) (b : MsgBuffer)
    → IsValid b
    → len ≤ length (contents b)
    → (b' : MsgBuffer) × (unwrite len b ≡ ok b')
      × IsValid b'
      × (contents b' ≡ take (length (contents b) - len) (contents b))
unfolding unwrite
unwrite_lem len b v h = (
  record b { writer_index = sub_size b.writer_index len },
  rw (le→leb len (readable_bytes b) (omega (arith, length-contents b v))),
  omega (arith, length-contents b v),
  ap (drop b.reader_index) (
        sym (
          take-take (sub_size b.writer_index len) b.writer_index b.buffer
            (omega (arith, length-contents b v))))
      ∙ drop-take b.reader_index (length (contents b) - len) (sub_size b.writer_index len)
          (take b.writer_index b.buffer) (omega (arith, length-contents b v)),
)
