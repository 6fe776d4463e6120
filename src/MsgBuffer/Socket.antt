-- ===== src/MsgBuffer/Socket.antt =====
-- src/network/base/MsgBuffer.cpp: `readFd`. The outcome of `readv` is an argument: the bytes that
-- the kernel put into the two vectors, in order, or an errno.
use tmms.Common.{
  ℕ, ◌+◌, ◌≤◌, ◌<◌, ◌≡◌, refl, ap, sym, ◌∙◌, inl, inr, List, [], ◌++◌, length, take, drop, ltb, leb,
  if◌then◌else◌, Result, ok, ◌>>=◌, write_at, arith, Bool-cases, add_size, append_assoc,
  length-take, length-drop, take-append-drop, leb→le, le→leb, leb_refuted, length-write_at,
  take_all, append-nil,
}
use tmms.MsgBuffer.{MsgBuffer, writable_bytes, begin_write, append, max_size}
use tmms.MsgBuffer.Valid.{IsValid, contents}
use tmms.MsgBuffer.Append.{append_lem, copied, size-copied, contents_written}

-- `sizeof extrabuf`.
abbrev pub extra_size : ℕ
extra_size = 65536

pub data Readv : Type 0 where
  got : List ℕ → Readv
  failed : ℕ → Readv

-- The return value, with what goes through `savedErrno`.
pub data ReadResult : Type 0 where
  count : ℕ → ReadResult
  error : ℕ → ReadResult

-- How much the vectors of one call hold.
abbrev pub capacity : MsgBuffer → ℕ
capacity b =
    if ltb (writable_bytes b) extra_size then writable_bytes b + extra_size else writable_bytes b

-- The kernel fills the writable part of the storage first, and `extrabuf` with the rest.
filled : List ℕ → MsgBuffer → MsgBuffer
filled bytes b = record b {
  buffer = write_at b.buffer (begin_write b) (take (writable_bytes b) bytes);
}

pub read_fd : Readv → MsgBuffer → Result (ReadResult × MsgBuffer)
unfolding filled
read_fd (failed errno) b = ok (error errno, b)
read_fd (got bytes) b =
    let b' = filled bytes b in
    if leb (length bytes) (writable_bytes b)
    then ok
        (count (length bytes), record b' { writer_index = add_size b.writer_index (length bytes) })
    else (do
      b'' ← append (drop (writable_bytes b) bytes) (record b' { writer_index = length b'.buffer })
      ok (count (length bytes), b''))

-- The kernel writes no more than the vectors hold.
abbrev pub Delivers : Readv → MsgBuffer → Type 0
Delivers (failed errno) b = Unit {0}
Delivers (got bytes) b = length bytes ≤ capacity b

-- A read that fits beside the storage only after growing needs the vector to be able to grow.
abbrev pub CanRead : Readv → MsgBuffer → Type 0
CanRead (failed errno) b = Unit {0}
CanRead (got bytes) b = length b.buffer + length bytes ≤ max_size

-- The bytes that arrived.
abbrev pub arrived : Readv → List ℕ
arrived (failed errno) = []
arrived (got bytes) = bytes

abbrev pub reported : Readv → ReadResult
reported (failed errno) = error errno
reported (got bytes) = count (length bytes)

-- A read that fits is a copy behind the writer index.
read_fitting :
    (bytes : List ℕ) (b : MsgBuffer)
    → IsValid b
    → length bytes ≤ writable_bytes b
    → (b' : MsgBuffer) × (read_fd (got bytes) b ≡ ok (count (length bytes), b'))
      × IsValid b'
      × (contents b' ≡ contents b ++ bytes)
unfolding read_fd copied
read_fitting bytes b v fit = (
  record (copied bytes b v fit) { writer_index = add_size b.writer_index (length bytes) },
  rw (le→leb (length bytes) (writable_bytes b) fit, take_all (writable_bytes b) bytes fit),
  omega (arith, size-copied bytes b v fit),
  contents_written bytes b v fit,
)

module _ (bytes : List ℕ) (b : MsgBuffer) (v : IsValid b)
    (spill : writable_bytes b < length bytes) where
  front : List ℕ
  front = take (writable_bytes b) bytes

  length-front : length front ≡ writable_bytes b
  unfolding front
  length-front = omega (arith, length-take (writable_bytes b) bytes)

  full : MsgBuffer
  full = record b {
    buffer = write_at b.buffer b.writer_index front;
    writer_index = length (write_at b.buffer b.writer_index front);
  }

  full_lem :
      IsValid full × (contents full ≡ contents b ++ front) × (full.writer_index ≡ length b.buffer)
  unfolding full copied
  full_lem = (
    omega (arith, size, length-front),
    rw end (contents_written front b v (omega (arith, length-front))),
    size,
  )
    where
      size : length (write_at b.buffer b.writer_index front) ≡ length b.buffer
      size = length-write_at b.buffer b.writer_index front (omega (arith, length-front))

      end : length (write_at b.buffer b.writer_index front) ≡ add_size b.writer_index (length front)
      end = omega (arith, size, length-front)

  read_spilling :
      length b.buffer + length bytes ≤ max_size
      → (b' : MsgBuffer) × (read_fd (got bytes) b ≡ ok (count (length bytes), b'))
        × IsValid b'
        × (contents b' ≡ contents b ++ bytes)
  unfolding read_fd full front
  read_spilling h =
      let (w, c, e) = full_lem in
      let (b', a, w', c') =
        append_lem (drop (writable_bytes b) bytes) full w
          (omega (arith, e, length-drop (writable_bytes b) bytes)) in
      (
        b',
        rw (leb_refuted (length bytes) (writable_bytes b) spill, a),
        w',
        c'
            ∙ ap (λ xs. xs ++ drop (writable_bytes b) bytes) c
            ∙ append_assoc (contents b) front (drop (writable_bytes b) bytes)
            ∙ ap (λ xs. contents b ++ xs) (take-append-drop (writable_bytes b) bytes),
      )

-- `readFd` succeeds, returns what `readv` returned, and adds exactly the bytes that arrived behind
-- the readable ones, whether they fit into the storage or spill into `extrabuf`.
pub read_fd_lem :
    (r : Readv) (b : MsgBuffer)
    → IsValid b
    → CanRead r b
    → (b' : MsgBuffer) × (read_fd r b ≡ ok (reported r, b'))
      × IsValid b'
      × (contents b' ≡ contents b ++ arrived r)
unfolding read_fd
read_fd_lem (failed errno) b v h = (b, refl, v, sym (append-nil (contents b)))
read_fd_lem (got bytes) b v h = elim (Bool-cases (leb (length bytes) (writable_bytes b))) [
  | inl fit ↦ read_fitting bytes b v (leb→le (length bytes) (writable_bytes b) fit)
  | inr spill ↦ read_spilling bytes b v (ground arith) h
]
