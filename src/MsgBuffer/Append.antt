-- ===== src/MsgBuffer/Append.antt =====
-- The producing side of `MsgBuffer` in src/network/base/MsgBuffer.h: making room and appending.
use tmms.Common.{
  ℕ, ◌+◌, ◌≤◌, ◌<◌, ◌≡◌, refl, ap, ◌∙◌, inl, inr, List, ◌++◌, length, take, drop, length-take,
  drop-append, drop-append_past, write_at, length-write_at, take-write_at, resize, length-resize,
  take-resize, arith, ok, fault, ltb, ltb→lt, add_size, Bool-cases, le→leb, lt→ltb, ltb_refuted,
  length_error, ◌>>=◌,
}
use tmms.MsgBuffer.{
  MsgBuffer, max_size, cheap_prepend, readable_bytes, writable_bytes, prependable_bytes,
  ensure_writable_bytes, append, has_written, make_space, grow, compact,
}
use tmms.MsgBuffer.Valid.{IsValid, contents, length-contents}

-- What making room for `len` bytes leaves behind.
pub record Roomy (len : ℕ) (b b' : MsgBuffer) : Type 0 where
  pub valid : IsValid b'
  pub room : len ≤ writable_bytes b'
  pub kept : contents b' ≡ contents b

-- Room for `len` more bytes fits into a vector.
abbrev pub CanHold : ℕ → MsgBuffer → Type 0
CanHold len b = b.writer_index + len ≤ max_size

grow_lem :
    (len : ℕ) (b : MsgBuffer)
    → IsValid b
    → CanHold len b
    → writable_bytes b < len
    → (b' : MsgBuffer) × (grow len b ≡ ok b') × Roomy len b b'
unfolding grow
grow_lem len b v h less = (
  record b { buffer = resize (add_size b.writer_index len) 0 b.buffer },
  rw (le→leb (add_size b.writer_index len) max_size (omega arith)),
  record {
    valid = omega (arith, size);
    room = omega (arith, size);
    kept = ap (drop b.reader_index) (
        take-resize b.writer_index (add_size b.writer_index len) 0 b.buffer (omega arith)
          (omega arith));
  },
)
  where
    size : length (resize (add_size b.writer_index len) 0 b.buffer) ≡ add_size b.writer_index len
    size = length-resize (add_size b.writer_index len) 0 b.buffer

drop-take_self : (m : ℕ) (xs ys : List ℕ) → m ≤ length xs → drop m (take m xs ++ ys) ≡ ys
drop-take_self m xs ys h =
    drop-append_past m (take m xs) ys (omega (arith, length-take m xs))
    ∙ ap (λ k. drop k ys) {y = 0} (omega (arith, length-take m xs))

compact_lem :
    (len : ℕ) (b : MsgBuffer)
    → IsValid b
    → cheap_prepend < b.reader_index
    → len + cheap_prepend ≤ writable_bytes b + prependable_bytes b
    → (b' : MsgBuffer) × (compact b ≡ ok b') × Roomy len b b' × (length b'.buffer ≡ length b.buffer)
unfolding compact
compact_lem len b v h fit = (
  record b {
    buffer = moved;
    reader_index = cheap_prepend;
    writer_index = add_size cheap_prepend (readable_bytes b);
  },
  ground (arith, lt→ltb 8 b.reader_index h),
  record {
    valid = omega (arith, size, length-contents b v);
    room = omega (arith, size, length-contents b v);
    kept =
        ap (drop cheap_prepend) (
          take-write_at b.buffer 8 (add_size cheap_prepend (readable_bytes b)) (contents b)
            (omega arith) (omega (arith, length-contents b v)))
        ∙ drop-take_self 8 b.buffer (contents b) (omega arith);
  },
  size,
)
  where
    moved : List ℕ
    moved = write_at b.buffer cheap_prepend (contents b)

    size : length moved ≡ length b.buffer
    size = length-write_at b.buffer 8 (contents b) (omega (arith, length-contents b v))

-- `makeSpace` is called only where the writable bytes do not suffice. There its assertion
-- `kCheapPrepend < readerIndex_` holds, and it makes the room.
make_space_lem :
    (len : ℕ) (b : MsgBuffer)
    → IsValid b
    → CanHold len b
    → writable_bytes b < len
    → (b' : MsgBuffer) × (make_space len b ≡ ok b') × Roomy len b b'
unfolding make_space
make_space_lem len b v h less =
    elim (Bool-cases
      (ltb (add_size (writable_bytes b) (prependable_bytes b)) (add_size len cheap_prepend))) [
        | inl short ↦ rw short (grow_lem len b v h less)
        | inr enough ↦
            rw enough
              (let (b', e, r, _) = compact_lem len b v (ground arith) (ground arith) in (b', e, r))
      ]

-- Bytes that were consumed are used again: where the free space at both ends suffices, the
-- storage keeps its size.
pub make_space_in_place :
    (len : ℕ) (b : MsgBuffer)
    → IsValid b
    → writable_bytes b < len
    → len + cheap_prepend ≤ writable_bytes b + prependable_bytes b
    → (b' : MsgBuffer) × (make_space len b ≡ ok b')
      × Roomy len b b'
      × (length b'.buffer ≡ length b.buffer)
unfolding make_space
make_space_in_place len b v less fit =
    rw
      (ltb_refuted (add_size (writable_bytes b) (prependable_bytes b)) (add_size len cheap_prepend)
        (omega arith))
      (compact_lem len b v (omega arith) fit)

-- `ensureWritableBytes(len)` succeeds: afterwards `len` bytes can be written and the readable
-- bytes are the same.
pub ensure_writable_bytes_lem :
    (len : ℕ) (b : MsgBuffer)
    → IsValid b
    → CanHold len b
    → (b' : MsgBuffer) × (ensure_writable_bytes len b ≡ ok b') × Roomy len b b'
unfolding ensure_writable_bytes
ensure_writable_bytes_lem len b v h = elim (Bool-cases (ltb (writable_bytes b) len)) [
  | inl short ↦
      let (b', e, r) = make_space_lem len b v h (ltb→lt (writable_bytes b) len short) in
      (b', rw (short, e) (rw (le→leb len (writable_bytes b') r.room) refl), r)
  | inr enough ↦ (
    b,
    rw (enough, le→leb len (writable_bytes b) (ground arith)) refl,
    record { valid = v; room = ground arith; kept = refl },
  )
]

module _ (bytes : List ℕ) (b : MsgBuffer) (v : IsValid b)
    (room : length bytes ≤ writable_bytes b) where
  unfoldable pub copied : MsgBuffer
  copied = record b { buffer = write_at b.buffer b.writer_index bytes }

  pub size-copied : length copied.buffer ≡ length b.buffer
  unfolding copied
  size-copied = length-write_at b.buffer b.writer_index bytes (omega arith)

  pub contents_written :
      drop b.reader_index (take (add_size b.writer_index (length bytes)) copied.buffer)
      ≡ contents b ++ bytes
  unfolding copied
  contents_written =
      ap (drop b.reader_index) (
        take-write_at b.buffer b.writer_index (add_size b.writer_index (length bytes)) bytes
          (omega arith) (omega arith))
      ∙ drop-append b.reader_index (take b.writer_index b.buffer) bytes
          (omega (arith, length-take b.writer_index b.buffer))

  -- Copying to `beginWrite()` and reporting it by `hasWritten` adds the bytes at the end.
  pub copy_has_written :
      (b' : MsgBuffer) × (has_written
          (length bytes)
          (record b { buffer = write_at b.buffer b.writer_index bytes })
        ≡ ok b')
      × IsValid b'
      × (contents b' ≡ contents b ++ bytes)
  unfolding has_written copied
  copy_has_written = (
    record copied { writer_index = add_size b.writer_index (length bytes) },
    rw (le→leb (length bytes) (writable_bytes copied) (omega (arith, size-copied))),
    omega (arith, size-copied),
    contents_written,
  )

-- `append` succeeds and adds exactly its bytes behind the readable ones.
pub append_lem :
    (bytes : List ℕ) (b : MsgBuffer)
    → IsValid b
    → CanHold (length bytes) b
    → (b' : MsgBuffer) × (append bytes b ≡ ok b') × IsValid b' × (contents b' ≡ contents b ++ bytes)
unfolding append
append_lem bytes b v h =
    let (b1, e, r) = ensure_writable_bytes_lem (length bytes) b v h in
    let (b2, e2, w, c) = copy_has_written bytes b1 r.valid r.room in
    (b2, rw (e, ◌>>=◌) e2, w, c ∙ ap (λ xs. xs ++ bytes) r.kept)

-- A vector that cannot grow so far refuses: nothing is appended.
pub append-length_error :
    (bytes : List ℕ) (b : MsgBuffer)
    → IsValid b
    → length bytes ≤ max_size
    → max_size < b.writer_index + length bytes
    → writable_bytes b + prependable_bytes b < length bytes + cheap_prepend
    → append bytes b ≡ fault length_error
unfolding append ensure_writable_bytes make_space grow
append-length_error bytes b v small big short = ground arith
