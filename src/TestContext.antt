-- ===== src/TestContext.antt =====
-- src/network/TestContext.cpp: a parser of messages that are sent with their length in front. What
-- the callback is called with is recorded in `delivered`, oldest first.
pub mod Frames
pub mod Stall
mod Examples
use tmms.Common.{
  ℕ, zero, suc, ◌+◌, ◌-◌, ◌^◌, Bool, true, false, List, [], ◌∷◌, ◌++◌, take, drop, ltb, leb, ◌==◌,
  if◌then◌else◌, Result, ok, fault, ◌>>=◌, ◌>>◌,
}
use tmms.MsgBuffer.{MsgBuffer, readable_bytes, retrieve}
use tmms.MsgBuffer.Ints.{read_int32}

-- `state_`.
pub data State : Type 0 where
  header body : State

-- `message_length` is the `int32_t` field as the `size_t` that it is compared and used as.
pub record TestContext : Type 0 where
  pub state : State
  pub message_length : ℕ
  pub message_body : List ℕ
  pub has_callback : Bool
  pub delivered : List (List ℕ)

-- A `uint32_t` put into an `int32_t` and read as a `size_t`.
abbrev pub as_size : ℕ → ℕ
as_size n = if ltb n (2 ^ 31) then n else 2 ^ 64 - 2 ^ 32 + n

-- What a round of the loop ends with: the loop goes on, or the function returns 1.
pub data Turn : Type 0 where
  again leave : Turn

abbrev pub call_back : TestContext → TestContext
call_back c =
    if c.has_callback
    then record c { delivered = c.delivered ++ (c.message_body ∷ []); message_body = [] }
    else c

read_header : MsgBuffer → TestContext → Result (Turn × MsgBuffer × TestContext)
read_header buf c = do
  (n, buf') ← read_int32 buf
  ok (again, buf', record c { message_length = as_size n; state = body })

-- `tmp.assign(peek, message_length_)`, then `retrieve`.
read_body : MsgBuffer → TestContext → Result (Turn × MsgBuffer × TestContext)
read_body buf c = do
  let tmp = take c.message_length (drop buf.reader_index buf.buffer)
  buf' ← retrieve c.message_length buf
  let c' = record c { message_body = c.message_body ++ tmp; message_length = 0; state = header }
  ok (again, buf', record (call_back c') { state = header })

-- The body of the loop.
pub parse_round : State → MsgBuffer → TestContext → Result (Turn × MsgBuffer × TestContext)
unfolding read_header read_body
parse_round header buf c =
    if leb 4 (readable_bytes buf) then read_header buf c else ok (leave, buf, c)
parse_round body buf c =
    if leb c.message_length (readable_bytes buf) then read_body buf c else ok (again, buf, c)

-- `ParseMessage` for so many rounds; the result says whether it has returned.
pub parse_message : ℕ → MsgBuffer → TestContext → Result (Bool × MsgBuffer × TestContext)
unfolding parse_round
parse_message zero buf c = ok (false, buf, c)
parse_message (suc rounds) buf c = elim (readable_bytes buf == 0) [
  | true ↦ ok (true, buf, c)
  | false ↦ elim (parse_round c.state buf c) [
    | fault f ↦ fault f
    | ok (leave, buf', c') ↦ ok (true, buf', c')
    | ok (again, buf', c') ↦ parse_message rounds buf' c'
  ]
]
