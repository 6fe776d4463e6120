-- ===== src/TestContext/Frames.antt =====
-- Messages in the form that src/network/TestContext.cpp reads, and what it makes of a stream of
-- them.
use tmms.Common.{
  ℕ, zero, suc, ◌-◌, ◌*◌, ◌^◌, ◌≤◌, ◌<◌, ◌≡◌, refl, sym, ap, ◌∙◌, inl, inr, true, false, List, [],
  ◌∷◌, ◌++◌, append-nil, append_assoc, arith, length, take, drop, length-append, take_all,
  take-append, drop-append_past, leb, ◌==◌, le→leb, leb_refuted, Bool-cases, ok,
}
use tmms.MsgBuffer.{MsgBuffer, readable_bytes}
use tmms.MsgBuffer.Ints.{read_int32_lem, network_order}
use tmms.MsgBuffer.Moves.{retrieve_lem, string-contents}
use tmms.MsgBuffer.Valid.{IsValid, contents, length-contents}
use tmms.TestContext.{
  header, body, TestContext, as_size, again, leave, read_header, read_body, parse_round,
  parse_message, call_back,
}

-- A message with its length in front.
abbrev pub frame : List ℕ → List ℕ
frame m = network_order (length m) ++ m

abbrev pub frames : List (List ℕ) → List ℕ
frames [] = []
frames (m ∷ ms) = frame m ++ frames ms

-- The messages are not empty, and their lengths are positive as an `int32_t`.
abbrev pub Fit : List (List ℕ) → Type 0
Fit [] = Unit {0}
Fit (m ∷ ms) = (0 < length m) × (length m < 2 ^ 31) × Fit ms

-- Between two messages: nothing of a message has been read.
pub record IsIdle (c : TestContext) : Type 0 where
  pub at_header : c.state ≡ header
  pub nothing : c.message_body ≡ []
  pub calls : c.has_callback ≡ true

-- The state behind a header.
abbrev pub expecting : ℕ → TestContext → TestContext
expecting n c = record c { message_length = n; state = body }

-- A round that reads a header.
pub round-header :
    (n : ℕ) (rest : List ℕ) (buf : MsgBuffer) (c : TestContext)
    → IsValid buf
    → n < 2 ^ 31
    → contents buf ≡ network_order n ++ rest
    → (buf' : MsgBuffer) × (parse_round header buf c ≡ ok (again, buf', expecting n c))
      × IsValid buf'
      × (contents buf' ≡ rest)
unfolding parse_round read_header
round-header n rest buf c v small front =
    let (buf', _, e, w, r) = read_int32_lem n rest buf v (omega arith) front in
    (buf', rw (enough, e) (ap (λ k. ok (again, buf', expecting k c)) size), w, r)
  where
    enough : leb 4 (readable_bytes buf) ≡ true
    enough = le→leb 4 (readable_bytes buf) (omega (arith, ap length front, length-contents buf v))

    size : as_size n ≡ n
    size = ground arith

-- The context after a whole message.
abbrev pub finished : List ℕ → TestContext → TestContext
finished m c = record c {
  state = header;
  message_length = 0;
  message_body = [];
  delivered = c.delivered ++ (m ∷ []);
}

finishes :
    (m text : List ℕ) (c : TestContext)
    → IsIdle c
    → text ≡ m
    → record (call_back
        (record c { message_body = c.message_body ++ text; message_length = 0; state = header })) {
          state = header;
        }
      ≡ finished m c
finishes m text c idle e = simp (idle.calls, idle.nothing, e)

-- A round that reads a body.
pub round-body :
    (m rest : List ℕ) (buf : MsgBuffer) (c : TestContext)
    → IsValid buf
    → IsIdle c
    → contents buf ≡ m ++ rest
    → (buf' : MsgBuffer) × (parse_round body buf (expecting (length m) c)
        ≡ ok (again, buf', finished m c))
      × IsValid buf'
      × (contents buf' ≡ rest)
unfolding parse_round read_body
round-body m rest buf c v idle front =
    let (buf', e, (w, r, _)) = retrieve_lem (length m) buf v fits_in in
    (
      buf',
      rw (enough, e)
          (ap (λ x. ok (again, buf', x))
            (finishes m (take (length m) (drop buf.reader_index buf.buffer)) c idle text)),
      w,
      r
          ∙ ap (drop (length m)) front
          ∙ drop-append_past (length m) m rest (omega arith)
          ∙ ap (λ k. drop k rest) {x = length m - length m} {y = 0} (omega arith),
    )
  where
    fits_in : length m ≤ length (contents buf)
    fits_in = omega (arith, ap length front, length-append m rest)

    enough : leb (length m) (readable_bytes buf) ≡ true
    enough = le→leb (length m) (readable_bytes buf) (omega (arith, fits_in, length-contents buf v))

    text : take (length m) (drop buf.reader_index buf.buffer) ≡ m
    text =
        string-contents (length m) buf v fits_in
        ∙ ap (take (length m)) front
        ∙ take-append (length m) m rest (omega arith)
        ∙ take_all (length m) m (omega arith)

-- The loop makes a round whose outcome is known.
pub step-again :
    (rounds : ℕ) (buf b : MsgBuffer) (c d : TestContext)
    → (readable_bytes buf == 0) ≡ false
    → parse_round c.state buf c ≡ ok (again, b, d)
    → parse_message (suc rounds) buf c ≡ parse_message rounds b d
unfolding parse_message
step-again rounds buf b c d some_bytes e = rw (some_bytes, e, parse_message) refl

step-leave :
    (rounds : ℕ) (buf : MsgBuffer) (c : TestContext)
    → (readable_bytes buf == 0) ≡ false
    → parse_round c.state buf c ≡ ok (leave, buf, c)
    → parse_message (suc rounds) buf c ≡ ok (true, buf, c)
unfolding parse_message
step-leave rounds buf c some_bytes e = rw (some_bytes, e, parse_message) refl

step-empty :
    (rounds : ℕ) (buf : MsgBuffer) (c : TestContext)
    → (readable_bytes buf == 0) ≡ true
    → parse_message (suc rounds) buf c ≡ ok (true, buf, c)
unfolding parse_message
step-empty rounds buf c no_bytes = rw (no_bytes, parse_message) refl

-- Fewer than four bytes are left to the next call.
parse-rest :
    (rounds : ℕ) (buf : MsgBuffer) (c : TestContext)
    → c.state ≡ header
    → readable_bytes buf < 4
    → parse_message (suc rounds) buf c ≡ ok (true, buf, c)
unfolding parse_round
parse-rest rounds buf c at few = elim (Bool-cases (readable_bytes buf == 0)) [
  | inl empty ↦ step-empty rounds buf c empty
  | inr some_bytes ↦
      step-leave rounds buf c some_bytes
        (ap (λ s. parse_round s buf c) at ∙ rw (leb_refuted 4 (readable_bytes buf) few) refl)
]

nonzero :
    (buf : MsgBuffer) → IsValid buf → 0 < length (contents buf) → (readable_bytes buf == 0) ≡ false
nonzero buf v h = let e = length-contents buf v in ground arith

finished-IsIdle : (m : List ℕ) (c : TestContext) → IsIdle c → IsIdle (finished m c)
finished-IsIdle m c idle = record { at_header = refl; nothing = refl; calls = idle.calls }

-- Let a valid buffer hold whole messages, each of at least one byte and fewer than 2^31 bytes behind its
-- length, and then fewer than four bytes, let nothing of a message have been read before, and let a
-- callback be set. Then a call returns after at most two rounds for each message and one more. It
-- hands exactly these messages to the callback, in order, leaves the rest in the buffer, and nothing of
-- a further message has been read.
pub parse_message-frames :
    (ms : List (List ℕ)) (rest : List ℕ) (rounds : ℕ) (buf : MsgBuffer) (c : TestContext)
    → IsValid buf
    → IsIdle c
    → Fit ms
    → length rest < 4
    → contents buf ≡ frames ms ++ rest
    → 2 * length ms < rounds
    → (buf' : MsgBuffer) × (c' : TestContext) × (parse_message rounds buf c ≡ ok (true, buf', c'))
      × IsValid buf'
      × (contents buf' ≡ rest)
      × IsIdle c'
      × (c'.delivered ≡ c.delivered ++ ms)
parse_message-frames ms rest zero buf c v idle fit short all enough = absurd (omega arith)
parse_message-frames [] rest (suc rounds) buf c v idle fit short all enough = (
  buf,
  c,
  parse-rest rounds buf c idle.at_header (omega (arith, length-contents buf v, ap length all)),
  v,
  all,
  idle,
  sym (append-nil c.delivered),
)
parse_message-frames (m ∷ ms) rest (suc zero) buf c v idle fit short all enough =
    absurd (omega arith)
parse_message-frames (m ∷ ms) rest (suc (suc rounds)) buf c v idle (pos, small, fit) short all
      enough =
    let (b1, e1, v1, r1) =
      round-header (length m) (m ++ (frames ms ++ rest)) buf c v small
        (all ∙ ap (λ xs. network_order (length m) ++ xs) (append_assoc m (frames ms) rest)) in
    let (b2, e2, v2, r2) = round-body m (frames ms ++ rest) b1 c v1 idle r1 in
    let (b3, c3, e3, v3, r3, idle3, d3) =
      parse_message-frames ms rest rounds b2 (finished m c) v2 (finished-IsIdle m c idle) fit short
        r2 (omega arith) in
    (
      b3,
      c3,
      step-again (suc rounds) buf b1 c (expecting (length m) c)
            (nonzero buf v (omega (arith, ap length all)))
            (ap (λ s. parse_round s buf c) idle.at_header ∙ e1)
          ∙ step-again rounds b1 b2 (expecting (length m) c) (finished m c)
              (nonzero b1 v1 (omega (arith, ap length r1, length-append m (frames ms ++ rest)))) e2
          ∙ e3,
      v3,
      r3,
      idle3,
      d3 ∙ append_assoc c.delivered (m ∷ []) ms,
    )
