-- ===== src/MsgBuffer/Valid.antt =====
-- The representation invariant of `MsgBuffer` in src/network/base/MsgBuffer.h, and the queue of
-- readable bytes that it stands for.
use tmms.Common.{
  ℕ, ◌+◌, ◌-◌, ◌≤◌, ◌<◌, ◌≡◌, List, [], length, take, length-take, length-drop, length-replicate,
  replicate, drop_all, ◌^◌, arith, ok, fault, length_error, add_size,
}
use tmms.MsgBuffer.{
  MsgBuffer, max_size, cheap_prepend, readable_bytes, writable_bytes, prependable_bytes, slice,
  init, fresh,
}

pub record IsValid (b : MsgBuffer) : Type 0 where
  pub prependable : cheap_prepend ≤ b.reader_index
  pub ordered : b.reader_index ≤ b.writer_index
  pub inside : b.writer_index ≤ length b.buffer
  pub small : length b.buffer ≤ max_size

-- The bytes between the two indices, oldest first.
abbrev pub contents : MsgBuffer → List ℕ
contents b = slice b b.reader_index b.writer_index

pub length-contents : (b : MsgBuffer) → IsValid b → length (contents b) ≡ readable_bytes b
length-contents b v = omega (
  arith,
  length-drop b.reader_index (take b.writer_index b.buffer),
  length-take b.writer_index b.buffer,
)

-- In a valid buffer the three regions make up the storage, and no subtraction wraps.
pub regions_exact :
    (b : MsgBuffer)
    → IsValid b
    → prependable_bytes b + readable_bytes b + writable_bytes b ≡ length b.buffer
regions_exact b v = omega arith

pub fresh-IsValid :
    (n : ℕ) → cheap_prepend + n ≤ max_size → IsValid (fresh (add_size cheap_prepend n))
unfolding fresh
fresh-IsValid n h = omega (arith, length-replicate {A = ℕ} (add_size 8 n) 0)

pub contents-fresh : (size : ℕ) → contents (fresh size) ≡ []
unfolding fresh
contents-fresh size =
    drop_all 8 (take 8 (replicate {A = ℕ} size 0))
      (omega (arith, length-take 8 (replicate {A = ℕ} size 0)))

pub init-ok :
    (n : ℕ) → cheap_prepend + n ≤ max_size → init n ≡ ok (fresh (add_size cheap_prepend n))
unfolding init
init-ok n h = ground (arith, length-replicate {A = ℕ} (add_size 8 n) 0)

-- A size for which the storage would pass `max_size` is refused by the vector.
pub init-length_error :
    (n : ℕ)
    → n < 2 ^ 64 - cheap_prepend
    → max_size < cheap_prepend + n
    → init n ≡ fault length_error
unfolding init
init-length_error n g h = ground arith
