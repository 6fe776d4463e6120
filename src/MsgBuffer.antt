-- ===== src/MsgBuffer.antt =====
-- src/network/base/MsgBuffer.h: the byte buffer between a socket and its reader. A pointer into
-- the storage is its offset from `begin()`; a method that changes the buffer returns the new one.
pub mod Valid
pub mod Moves
pub mod Append
pub mod Ints
pub mod Find
pub mod Socket
mod Examples
use tmms.Common.{
  ℕ, ◌+◌, ◌-◌, ◌*◌, ◌/◌, ◌%◌, ◌^◌, Bool, true, false, ◌&&◌, Option, none, some, List, [], ◌∷◌, ◌++◌,
  length, take, drop, replicate, write_at, resize, ltb, leb, ◌==◌, if◌then◌else◌, add_size,
  sub_size, Result, ok, fault, Fault, length_error, ◌>>=◌, ◌>>◌, assert, fits,
}

abbrev pub cheap_prepend : ℕ
cheap_prepend = 8

abbrev pub initial_size : ℕ
initial_size = 1024

-- `std::vector<char>::max_size()`.
abbrev pub max_size : ℕ
max_size = 2 ^ 63 - 1

pub record MsgBuffer : Type 0 where
  pub buffer : List ℕ
  pub reader_index : ℕ
  pub writer_index : ℕ

abbrev pub readable_bytes : MsgBuffer → ℕ
readable_bytes b = sub_size b.writer_index b.reader_index

abbrev pub writable_bytes : MsgBuffer → ℕ
writable_bytes b = sub_size (length b.buffer) b.writer_index

abbrev pub prependable_bytes : MsgBuffer → ℕ
prependable_bytes b = b.reader_index

abbrev pub peek : MsgBuffer → ℕ
peek b = b.reader_index

abbrev pub begin_write : MsgBuffer → ℕ
begin_write b = b.writer_index

-- The bytes from one offset up to another.
abbrev pub slice : MsgBuffer → ℕ → ℕ → List ℕ
slice b first last = drop first (take last b.buffer)

pub fresh : ℕ → MsgBuffer
fresh size = record {
  buffer = replicate size 0;
  reader_index = cheap_prepend;
  writer_index = cheap_prepend;
}

-- The constructor, with its three assertions.
unfoldable pub init : ℕ → Result MsgBuffer
unfolding fresh
init n = do
  let b = fresh (add_size cheap_prepend n)
  fits (leb (add_size cheap_prepend n) max_size)
  assert (readable_bytes b == 0)
  assert (writable_bytes b == n)
  assert (prependable_bytes b == cheap_prepend)
  ok b

pub swap : MsgBuffer → MsgBuffer → MsgBuffer × MsgBuffer
swap b rhs = (
  record b {
    buffer = rhs.buffer;
    reader_index = rhs.reader_index;
    writer_index = rhs.writer_index;
  },
  record rhs { buffer = b.buffer; reader_index = b.reader_index; writer_index = b.writer_index },
)

unfoldable pub retrieve_all : MsgBuffer → MsgBuffer
retrieve_all b = record b { reader_index = cheap_prepend; writer_index = cheap_prepend }

unfoldable pub retrieve : ℕ → MsgBuffer → Result MsgBuffer
unfolding retrieve_all
retrieve len b = do
  assert (leb len (readable_bytes b))
  ok (
      if ltb len (readable_bytes b)
      then record b { reader_index = add_size b.reader_index len }
      else retrieve_all b)

pub retrieve_until : ℕ → MsgBuffer → Result MsgBuffer
retrieve_until end b = do
  assert (leb (peek b) end)
  assert (leb end (begin_write b))
  retrieve (sub_size end (peek b)) b

pub retrieve_int64 : MsgBuffer → Result MsgBuffer
retrieve_int64 b = retrieve 8 b

pub retrieve_int32 : MsgBuffer → Result MsgBuffer
retrieve_int32 b = retrieve 4 b

pub retrieve_int16 : MsgBuffer → Result MsgBuffer
retrieve_int16 b = retrieve 2 b

pub retrieve_int8 : MsgBuffer → Result MsgBuffer
retrieve_int8 b = retrieve 1 b

-- `std::string(peek(), len)` reads `len` bytes from the reader index on.
pub retrieve_as_string : ℕ → MsgBuffer → Result (List ℕ × MsgBuffer)
retrieve_as_string len b = do
  assert (leb len (readable_bytes b))
  b' ← retrieve len b
  ok (take len (drop (peek b) b.buffer), b')

pub retrieve_all_as_string : MsgBuffer → Result (List ℕ × MsgBuffer)
retrieve_all_as_string b = retrieve_as_string (readable_bytes b) b

pub grow : ℕ → MsgBuffer → Result MsgBuffer
grow len b = do
  let size = add_size b.writer_index len
  fits (leb size max_size)
  ok (record b { buffer = resize size 0 b.buffer })

-- Moves the readable bytes down to offset 8.
pub compact : MsgBuffer → Result MsgBuffer
compact b = do
  assert (ltb cheap_prepend b.reader_index)
  let readable = readable_bytes b
  let b' = record b {
    buffer = write_at b.buffer cheap_prepend (slice b b.reader_index b.writer_index);
    reader_index = cheap_prepend;
    writer_index = add_size cheap_prepend readable;
  }
  assert (readable == readable_bytes b')
  ok b'

pub make_space : ℕ → MsgBuffer → Result MsgBuffer
make_space len b =
    if ltb (add_size (writable_bytes b) (prependable_bytes b)) (add_size len cheap_prepend)
    then grow len b
    else compact b

pub ensure_writable_bytes : ℕ → MsgBuffer → Result MsgBuffer
ensure_writable_bytes len b = do
  b' ← if ltb (writable_bytes b) len then make_space len b else ok b
  assert (leb len (writable_bytes b'))
  ok b'

unfoldable pub has_written : ℕ → MsgBuffer → Result MsgBuffer
has_written len b = do
  assert (leb len (writable_bytes b))
  ok (record b { writer_index = add_size b.writer_index len })

pub unwrite : ℕ → MsgBuffer → Result MsgBuffer
unwrite len b = do
  assert (leb len (readable_bytes b))
  ok (record b { writer_index = sub_size b.writer_index len })

-- The list is `data[0 .. len)`.
pub append : List ℕ → MsgBuffer → Result MsgBuffer
append bytes b = do
  b' ← ensure_writable_bytes (length bytes) b
  has_written (length bytes) (record b' { buffer = write_at b'.buffer (begin_write b') bytes })
