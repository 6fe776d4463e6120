-- ===== src/TcpConnection/Stream.antt =====
-- The bytes of a whole connection of src/network/net/TcpConnection.cpp, sent and written in the loop
-- thread.
use tmms.Common.{
  ℕ, zero, suc, ◌+◌, ◌-◌, ◌^◌, ◌≤◌, ◌<◌, ◌≡◌, refl, sym, ap, ap₂, ◌∙◌, Bool, true, false, List, [],
  ◌∷◌, ◌++◌, append-nil, append_assoc, arith, if◌then◌else◌,
}
use tmms.TcpConnection.{
  Iovec, Outcome, wrote, TcpConnection, no_vectors, finished, on_write, send_list_in_loop,
  send_in_loop,
}
use tmms.TcpConnection.Output.{range, waiting, state, accepted, on_write-accepted}
use tmms.TcpConnection.Sending.{no_vectors→nil, send_in_loop_lem, send_list_in_loop_stalls}

-- `Send(buf, size)`, where `write` takes so many bytes if it is called; `Send(list)`; and `OnWrite` with
-- the answers of `writev`.
pub data Call : Type 0 where
  sends : ℕ → ℕ → ℕ → Call
  sends_list : List Iovec → Call
  writes : List Outcome → Call

unfoldable pub call : Call → TcpConnection → TcpConnection
call (sends n buf size) c = send_in_loop (wrote n) buf size c
call (sends_list nodes) c = send_list_in_loop nodes c
call (writes os) c = state (on_write os c)

unfoldable pub calls : List Call → TcpConnection → TcpConnection
unfolding call
calls [] c = c
calls (x ∷ xs) c = calls xs (call x c)

-- `write` takes no more than it is given, and a buffer does not wrap around the end of the memory.
unfoldable pub Fits : List Call → Type 0
Fits [] = Unit {0}
Fits (sends n buf size ∷ xs) = (n ≤ size) × (buf + size < 2 ^ 64) × Fits xs
Fits (sends_list nodes ∷ xs) = Fits xs
Fits (writes os ∷ xs) = Fits xs

-- The bytes that the user hands over.
abbrev pub bytes : Call → List ℕ
bytes (sends n buf size) = range buf size
bytes (sends_list nodes) = waiting nodes
bytes (writes os) = []

-- The bytes that the kernel takes of an open connection.
abbrev pub taken : Call → TcpConnection → List ℕ
taken (sends n buf size) c = if no_vectors c.io_vec_list then range buf n else []
taken (sends_list nodes) c = []
taken (writes os) c = if no_vectors c.io_vec_list then [] else accepted os c

-- All that was handed over while the connection was open, and all that the kernel took, in order.
pub all_bytes : List Call → TcpConnection → List ℕ
unfolding call
all_bytes [] c = []
all_bytes (x ∷ xs) c = (if c.closed then [] else bytes x) ++ all_bytes xs (call x c)

unfoldable pub all_taken : List Call → TcpConnection → List ℕ
unfolding call
all_taken [] c = []
all_taken (x ∷ xs) c = (if c.closed then [] else taken x c) ++ all_taken xs (call x c)

range-split :
    (n base size : ℕ) → n ≤ size → range base n ++ range (base + n) (size - n) ≡ range base size
range-split zero base size h = ap₂ range (omega arith) (omega arith)
range-split (suc n) base zero h = absurd (omega arith)
range-split (suc n) base (suc size) h =
    ap (λ r. base ∷ r)
      (ap₂ (λ x y. range (suc base) n ++ range x y) (omega arith) (omega arith)
        ∙ range-split n (suc base) size (omega arith))

-- A call of a closed connection.
call-closed : (x : Call) (c : TcpConnection) → c.closed ≡ true → call x c ≡ c
unfolding call send_in_loop send_list_in_loop on_write
call-closed (sends n buf size) c shut = ground (arith, shut)
call-closed (sends_list nodes) c shut = ground (arith, shut)
call-closed (writes os) c shut =
    let returns : on_write os c ≡ finished c = ground (arith, shut) in ap state returns

-- What one call of an open connection does to the bytes.
Moved : Call → TcpConnection → Type 0
Moved x c = taken x c ++ waiting (call x c).io_vec_list ≡ waiting c.io_vec_list ++ bytes x

sends-Moved :
    (n buf size : ℕ) (c : TcpConnection)
    → c.closed ≡ false
    → n ≤ size
    → buf + size < 2 ^ 64
    → Moved (sends n buf size) c
unfolding Moved call
sends-Moved n buf size c alive fit room =
    moved (no_vectors c.io_vec_list) refl (send_in_loop_lem n buf size c alive fit room).0
  where
    moved :
        (idle : Bool)
        → no_vectors c.io_vec_list ≡ idle
        → waiting (send_in_loop (wrote n) buf size c).io_vec_list
          ≡ waiting c.io_vec_list
            ++ range (buf + (if idle then n else 0)) (size - (if idle then n else 0))
        → (if idle then range buf n else [])
            ++ waiting (send_in_loop (wrote n) buf size c).io_vec_list
          ≡ waiting c.io_vec_list ++ range buf size
    moved true e h =
        let nothing = ap waiting (no_vectors→nil c.io_vec_list e) in
        ap (λ w. range buf n ++ w) (h ∙ ap (λ w. w ++ range (buf + n) (size - n)) nothing)
        ∙ range-split n buf size fit
        ∙ sym (ap (λ w. w ++ range buf size) nothing)
    moved false e h =
        h ∙ ap₂ (λ x y. waiting c.io_vec_list ++ range x y) (omega arith) (omega arith)

list-Moved :
    (nodes : List Iovec) (c : TcpConnection) → c.closed ≡ false → Moved (sends_list nodes) c
unfolding Moved call send_list_in_loop
list-Moved [] c alive =
    let same : (send_list_in_loop [] c).io_vec_list ≡ c.io_vec_list =
      ground (arith, alive, append-nil c.io_vec_list) in
    ap waiting same ∙ sym (append-nil (waiting c.io_vec_list))
list-Moved (v ∷ vs) c alive = (send_list_in_loop_stalls v vs c alive).0

writes-Moved : (os : List Outcome) (c : TcpConnection) → c.closed ≡ false → Moved (writes os) c
unfolding Moved call
writes-Moved os c alive = moved (no_vectors c.io_vec_list) refl
  where
    idle_write :
        no_vectors c.io_vec_list ≡ true → (state (on_write os c)).io_vec_list ≡ c.io_vec_list
    idle_write e = unfold on_write in ground (arith, alive, e)

    moved :
        (idle : Bool)
        → no_vectors c.io_vec_list ≡ idle
        → (if idle then [] else accepted os c) ++ waiting (state (on_write os c)).io_vec_list
          ≡ waiting c.io_vec_list ++ []
    moved true e = ap waiting (idle_write e) ∙ sym (append-nil (waiting c.io_vec_list))
    moved false e = on_write-accepted os c alive e ∙ sym (append-nil (waiting c.io_vec_list))

Fits-Moved :
    (x : Call) (xs : List Call) (c : TcpConnection) → Fits (x ∷ xs) → c.closed ≡ false → Moved x c
unfolding Fits
Fits-Moved (sends n buf size) xs c f alive = sends-Moved n buf size c alive f.0 f.1
Fits-Moved (sends_list nodes) xs c f alive = list-Moved nodes c alive
Fits-Moved (writes os) xs c f alive = writes-Moved os c alive

Fits-rest : (x : Call) (xs : List Call) → Fits (x ∷ xs) → Fits xs
unfolding Fits
Fits-rest (sends n buf size) xs f = f.2
Fits-rest (sends_list nodes) xs f = f
Fits-rest (writes os) xs f = f

-- One call of a connection, open or closed.
one_call :
    (x : Call) (xs : List Call) (c : TcpConnection)
    → Fits (x ∷ xs)
    → (if c.closed then [] else taken x c) ++ waiting (call x c).io_vec_list
      ≡ waiting c.io_vec_list ++ (if c.closed then [] else bytes x)
unfolding Moved
one_call x xs c f = split c.closed refl
  where
    split :
        (shut : Bool)
        → c.closed ≡ shut
        → (if shut then [] else taken x c) ++ waiting (call x c).io_vec_list
          ≡ waiting c.io_vec_list ++ (if shut then [] else bytes x)
    split true e =
        ap (λ d. waiting d.io_vec_list) (call-closed x c e)
        ∙ sym (append-nil (waiting c.io_vec_list))
    split false e = Fits-Moved x xs c f e

-- For any history of `Send` and `OnWrite`, however the kernel takes the bytes in pieces, and also if an
-- error closes the connection on the way: the bytes that the kernel took, followed by those that still
-- wait, are those that waited at first, followed by all that the user handed over while the connection
-- was open, in the order of the calls. No call of `write` fails; `writev` may.
pub all_taken-all_bytes :
    (xs : List Call) (c : TcpConnection)
    → Fits xs
    → all_taken xs c ++ waiting (calls xs c).io_vec_list ≡ waiting c.io_vec_list ++ all_bytes xs c
unfolding all_taken all_bytes calls
all_taken-all_bytes [] c f = sym (append-nil (waiting c.io_vec_list))
all_taken-all_bytes (x ∷ xs) c f =
    let t = if c.closed then [] else taken x c in
    let g = if c.closed then [] else bytes x in
    append_assoc t (all_taken xs (call x c)) (waiting (calls xs (call x c)).io_vec_list)
    ∙ ap (λ w. t ++ w) (all_taken-all_bytes xs (call x c) (Fits-rest x xs f))
    ∙ sym (append_assoc t (waiting (call x c).io_vec_list) (all_bytes xs (call x c)))
    ∙ ap (λ w. w ++ all_bytes xs (call x c)) (one_call x xs c f)
    ∙ append_assoc (waiting c.io_vec_list) g (all_bytes xs (call x c))
