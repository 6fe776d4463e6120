-- ===== src/TestContext/Stall.antt =====
-- A message of which only a part has arrived, in src/network/TestContext.cpp.
use tmms.Common.{
  ℕ, zero, suc, ◌^◌, ◌<◌, ◌≡◌, refl, ap, ◌∙◌, false, List, ◌++◌, arith, length, ◌==◌, leb_refuted,
  ok,
}
use tmms.MsgBuffer.{MsgBuffer, readable_bytes}
use tmms.MsgBuffer.Ints.{network_order}
use tmms.MsgBuffer.Valid.{IsValid, contents, length-contents}
use tmms.TestContext.{body, TestContext, again, parse_round, parse_message}
use tmms.TestContext.Frames.{IsIdle, expecting, round-header, step-again}

round-short :
    (buf : MsgBuffer) (c : TestContext)
    → readable_bytes buf < c.message_length
    → parse_round body buf c ≡ ok (again, buf, c)
unfolding parse_round
round-short buf c short = rw (leb_refuted c.message_length (readable_bytes buf) short) refl

-- In front of a part of a body the loop changes nothing, however often it goes round.
waits :
    (rounds : ℕ) (buf : MsgBuffer) (c : TestContext)
    → c.state ≡ body
    → 0 < readable_bytes buf
    → readable_bytes buf < c.message_length
    → parse_message rounds buf c ≡ ok (false, buf, c)
unfolding parse_message
waits zero buf c at some_bytes short = refl
waits (suc rounds) buf c at some_bytes short =
    step-again rounds buf buf c c (ground arith)
      (ap (λ s. parse_round s buf c) at ∙ round-short buf c short)
    ∙ waits rounds buf c at some_bytes short

-- Where the buffer holds a length and then a part of the message, but not all of it, the call does
-- not return: after the round that reads the length, every number of rounds leaves it running with
-- the buffer and the context as they are.
pub parse_message_stalls :
    (n : ℕ) (part : List ℕ) (buf : MsgBuffer) (c : TestContext)
    → IsValid buf
    → IsIdle c
    → n < 2 ^ 31
    → 0 < length part
    → length part < n
    → contents buf ≡ network_order n ++ part
    → (buf' : MsgBuffer) × ((rounds : ℕ)
        → parse_message (suc rounds) buf c ≡ ok (false, buf', expecting n c))
parse_message_stalls n part buf c v idle small pos short all =
    let (b, e, w, r) = round-header n part buf c v small all in
    (
      b,
      λ rounds.
          step-again rounds buf b c (expecting n c) (arrived_some v)
            (ap (λ s. parse_round s buf c) idle.at_header ∙ e)
          ∙ waits rounds b (expecting n c) refl (omega (arith, ap length r, length-contents b w))
              (omega (arith, ap length r, length-contents b w)),
    )
  where
    arrived_some : IsValid buf → (readable_bytes buf == 0) ≡ false
    arrived_some v = let e = length-contents buf v in let l = ap length all in ground arith
