-- ===== src/MsgBuffer/Examples.antt =====
-- Tests of src/network/base/MsgBuffer.h and MsgBuffer.cpp, and theorems applied to a small buffer.
use tmms.Common.{◌≡◌, refl, [], ◌∷◌, ◌++◌, some, ok, ◌>>=◌, arith, replicate}
use tmms.MsgBuffer.{
  MsgBuffer, init, append, make_space, grow, compact, ensure_writable_bytes, has_written,
}
use tmms.MsgBuffer.Valid.{IsValid, contents}
use tmms.MsgBuffer.Append.{append_lem}
use tmms.MsgBuffer.Ints.{read_int32, network_order, read_int32-append}
use tmms.MsgBuffer.Find.{find_crlf}
use tmms.MsgBuffer.Socket.{read_fd, read_fd_lem, got, count}

-- Two bytes consumed, "ab\r\n" readable, one byte writable.
abbrev sample : MsgBuffer
sample = record {
  buffer = replicate 10 0 ++ 97 ∷ 98 ∷ 13 ∷ 10 ∷ 0 ∷ [];
  reader_index = 10;
  writer_index = 14;
}

sample-IsValid : IsValid sample
sample-IsValid = omega arith

contents-sample : contents sample ≡ 97 ∷ 98 ∷ 13 ∷ 10 ∷ []
contents-sample = refl

-- "kCheapPrepend" bytes and six more, nothing readable.
abbrev blank : MsgBuffer
blank = record { buffer = replicate 14 0; reader_index = 8; writer_index = 8 }

blank-IsValid : IsValid blank
blank-IsValid = omega arith

init_runs : init 6 ≡ ok blank
unfolding init
init_runs = refl

append_runs :
    append (1 ∷ 2 ∷ 3 ∷ []) sample
    ≡ ok (record {
      buffer = replicate 8 0 ++ 97 ∷ 98 ∷ 13 ∷ 10 ∷ 1 ∷ 2 ∷ 3 ∷ [];
      reader_index = 8;
      writer_index = 15;
    })
unfolding append ensure_writable_bytes has_written make_space grow compact
append_runs = refl

find_crlf_runs : find_crlf sample ≡ some 12
unfolding find_crlf
find_crlf_runs = refl

append_lem_example :
    (b' : MsgBuffer) × (append (1 ∷ 2 ∷ 3 ∷ []) sample ≡ ok b')
    × IsValid b'
    × (contents b' ≡ 97 ∷ 98 ∷ 13 ∷ 10 ∷ 1 ∷ 2 ∷ 3 ∷ [])
append_lem_example = append_lem (1 ∷ 2 ∷ 3 ∷ []) sample sample-IsValid (omega arith)

read_fd_lem_example :
    (b' : MsgBuffer) × (read_fd (got (5 ∷ 6 ∷ 7 ∷ [])) sample ≡ ok (count 3, b'))
    × IsValid b'
    × (contents b' ≡ 97 ∷ 98 ∷ 13 ∷ 10 ∷ 5 ∷ 6 ∷ 7 ∷ [])
read_fd_lem_example = read_fd_lem (got (5 ∷ 6 ∷ 7 ∷ [])) sample sample-IsValid (omega arith)

read_int32-append_example :
    (b' : MsgBuffer) × ((append (network_order 70000 ++ (5 ∷ 6 ∷ [])) blank >>= read_int32)
      ≡ ok (70000, b'))
    × IsValid b'
    × (contents b' ≡ 5 ∷ 6 ∷ [])
read_int32-append_example =
    read_int32-append 70000 (5 ∷ 6 ∷ []) blank blank-IsValid (omega arith) (omega arith) refl
