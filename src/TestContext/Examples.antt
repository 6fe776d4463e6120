-- ===== src/TestContext/Examples.antt =====
-- Runs of the parser and examples of its theorems.
use tmms.Common.{
  ℕ, suc, ◌+◌, ◌≡◌, refl, true, false, List, [], ◌∷◌, ◌++◌, arith, length, replicate, ok,
}
use tmms.MsgBuffer.{MsgBuffer}
use tmms.MsgBuffer.Ints.{network_order}
use tmms.MsgBuffer.Valid.{IsValid, contents}
use tmms.TestContext.{header, TestContext, parse_message}
use tmms.TestContext.Frames.{IsIdle, frames, expecting, parse_message-frames}
use tmms.TestContext.Stall.{parse_message_stalls}

abbrev holding : List ℕ → MsgBuffer
holding bytes = record {
  buffer = replicate 8 0 ++ bytes;
  reader_index = 8;
  writer_index = 8 + length bytes;
}

abbrev idle : TestContext
idle = record {
  state = header;
  message_length = 0;
  message_body = [];
  has_callback = true;
  delivered = [];
}

idle-IsIdle : IsIdle idle
idle-IsIdle = record { at_header = refl; nothing = refl; calls = refl }

abbrev messages : List (List ℕ)
messages = (7 ∷ 8 ∷ []) ∷ (9 ∷ []) ∷ []

abbrev stream : List ℕ
stream = frames messages ++ 0 ∷ 0 ∷ []

stream-IsValid : IsValid (holding stream)
stream-IsValid = omega arith

parse_message-frames_example :
    (buf' : MsgBuffer) × (c' : TestContext) × (parse_message 9 (holding stream) idle
      ≡ ok (true, buf', c'))
    × IsValid buf'
    × (contents buf' ≡ 0 ∷ 0 ∷ [])
    × IsIdle c'
    × (c'.delivered ≡ messages)
parse_message-frames_example =
    parse_message-frames messages (0 ∷ 0 ∷ []) 9 (holding stream) idle stream-IsValid idle-IsIdle
      (omega arith) (omega arith) refl (omega arith)

abbrev cut : List ℕ
cut = network_order 5 ++ 7 ∷ 8 ∷ []

cut-IsValid : IsValid (holding cut)
cut-IsValid = omega arith

parse_message_stalls_example :
    (buf' : MsgBuffer) × ((rounds : ℕ)
      → parse_message (suc rounds) (holding cut) idle ≡ ok (false, buf', expecting 5 idle))
parse_message_stalls_example =
    parse_message_stalls 5 (7 ∷ 8 ∷ []) (holding cut) idle cut-IsValid idle-IsIdle (omega arith)
      (omega arith) (omega arith) refl
