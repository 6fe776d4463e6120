-- ===== src/TcpConnection/Sending.antt =====
-- `SendInLoop` of src/network/net/TcpConnection.cpp: what it writes and what it leaves to wait.
use tmms.Common.{
  ℕ, zero, suc, ◌+◌, ◌-◌, ◌^◌, ◌≤◌, ◌<◌, ◌≡◌, refl, sym, ap, ap₂, ◌∙◌, subst, inl, inr, true, false,
  List, [], ◌∷◌, ◌++◌, append-nil, append_assoc, arith, sub_size, ◌==◌, if◌then◌else◌, Bool-cases,
}
use tmms.TcpConnection.{
  Iovec, Errno, Outcome, wrote, refused, enable_write, write_complete, TcpConnection, emit,
  no_vectors, send_list_in_loop, queue_rest, send_in_loop,
}
use tmms.TcpConnection.Output.{range, waiting, suc_nonzero}

waiting-append : (vs ws : List Iovec) → waiting (vs ++ ws) ≡ waiting vs ++ waiting ws
waiting-append [] ws = refl
waiting-append (v ∷ vs) ws =
    ap (λ xs. range v.iov_base v.iov_len ++ xs) (waiting-append vs ws)
    ∙ sym (append_assoc (range v.iov_base v.iov_len) (waiting vs) (waiting ws))

some_vectors : (vs : List Iovec) (w : Iovec) (ws : List Iovec) → no_vectors (vs ++ w ∷ ws) ≡ false
some_vectors [] w ws = refl
some_vectors (v ∷ vs) w ws = refl

-- What `queue_rest` leaves, for `left` bytes that follow the `sent` ones.
queue_rest_lem :
    (buf sent left : ℕ) (c : TcpConnection)
    → buf + sent < 2 ^ 64
    → (waiting (queue_rest buf sent left c).io_vec_list
        ≡ waiting c.io_vec_list ++ range (buf + sent) left)
      × ((queue_rest buf sent left c).effects
          ≡ (if left == 0 then c.effects else enable_write true ∷ c.effects))
unfolding queue_rest
queue_rest_lem buf sent zero c room = (sym (append-nil (waiting c.io_vec_list)), refl)
queue_rest_lem buf sent (suc k) c room = (
  ap (λ d. waiting d.io_vec_list) queued
      ∙ waiting-append c.io_vec_list (record { iov_base = buf + sent; iov_len = suc k } ∷ [])
      ∙ ap (λ xs. waiting c.io_vec_list ++ xs) (append-nil (range (buf + sent) (suc k))),
  ap (λ d. d.effects) queued
      ∙ sym (ap (λ b. if b then c.effects else enable_write true ∷ c.effects) (suc_nonzero k)),
)
  where
    queued : queue_rest buf sent (suc k) c ≡ record c {
      io_vec_list = c.io_vec_list ++ (record { iov_base = buf + sent; iov_len = suc k } ∷ []);
      effects = enable_write true ∷ c.effects;
    }
    queued = ground arith

left_over : (n size : ℕ) → n ≤ size → size < 2 ^ 64 → sub_size size n ≡ size - n
left_over n size fit room = ground arith

sent_all :
    (n buf size : ℕ) (c : TcpConnection)
    → c.closed ≡ false
    → c.io_vec_list ≡ []
    → n ≤ size
    → buf + size < 2 ^ 64
    → (size - n == 0) ≡ true
    → send_in_loop (wrote n) buf size c ≡ emit write_complete c
unfolding send_in_loop
sent_all n buf size c alive empty fit room all =
    simp (alive, ap no_vectors empty, left_over n size fit (omega arith), all)

sent_part :
    (n buf size : ℕ) (c : TcpConnection)
    → c.closed ≡ false
    → c.io_vec_list ≡ []
    → n ≤ size
    → buf + size < 2 ^ 64
    → (size - n == 0) ≡ false
    → send_in_loop (wrote n) buf size c ≡ queue_rest buf n (size - n) c
unfolding send_in_loop
sent_part n buf size c alive empty fit room part =
    simp (alive, ap no_vectors empty, left_over n size fit (omega arith), part)

-- With nothing waiting: the rest that the kernel did not take waits.
send_in_loop_now :
    (n buf size : ℕ) (c : TcpConnection)
    → c.closed ≡ false
    → c.io_vec_list ≡ []
    → n ≤ size
    → buf + size < 2 ^ 64
    → let c' = send_in_loop (wrote n) buf size c in
      (waiting c'.io_vec_list ≡ range (buf + n) (size - n))
      × (c'.effects
          ≡ (if size - n == 0 then write_complete ∷ c.effects else enable_write true ∷ c.effects))
send_in_loop_now n buf size c alive empty fit room = elim (Bool-cases (size - n == 0)) [
  | inl all ↦ (
    ap (λ d. waiting d.io_vec_list) (sent_all n buf size c alive empty fit room all)
        ∙ ap waiting empty
        ∙ ap (range (buf + n)) {x = 0} (ground arith),
    ap (λ d. d.effects) (sent_all n buf size c alive empty fit room all)
        ∙ sym
            (ap (λ b. if b then write_complete ∷ c.effects else enable_write true ∷ c.effects) all),
  )
  | inr part ↦ (
    ap (λ d. waiting d.io_vec_list) (sent_part n buf size c alive empty fit room part)
        ∙ (queue_rest_lem buf n (size - n) c (ground arith)).0
        ∙ ap (λ vs. waiting vs ++ range (buf + n) (size - n)) empty,
    ap (λ d. d.effects) (sent_part n buf size c alive empty fit room part)
        ∙ (queue_rest_lem buf n (size - n) c (ground arith)).1
        ∙ ap (λ b. if b then c.effects else enable_write true ∷ c.effects) part
        ∙ sym (
            ap (λ b. if b then write_complete ∷ c.effects else enable_write true ∷ c.effects) part),
  )
]

-- With vectors waiting: the whole buffer waits behind them.
send_in_loop_later :
    (o : Outcome) (buf size : ℕ) (c : TcpConnection)
    → c.closed ≡ false
    → no_vectors c.io_vec_list ≡ false
    → buf + size < 2 ^ 64
    → let c' = send_in_loop o buf size c in
      (waiting c'.io_vec_list ≡ waiting c.io_vec_list ++ range buf size)
      × (c'.effects ≡ (if size == 0 then c.effects else enable_write true ∷ c.effects))
unfolding send_in_loop
send_in_loop_later o buf size c alive some_wait room =
    subst
      (λ d.
        (waiting d.io_vec_list ≡ waiting c.io_vec_list ++ range buf size)
        × (d.effects ≡ (if size == 0 then c.effects else enable_write true ∷ c.effects)))
      (sym queued)
      (subst
        (λ k.
          (waiting (queue_rest buf 0 size c).io_vec_list ≡ waiting c.io_vec_list ++ range k size)
          × ((queue_rest buf 0 size c).effects
              ≡ (if size == 0 then c.effects else enable_write true ∷ c.effects)))
        {x = buf + 0} (omega arith) (queue_rest_lem buf 0 size c (omega arith)))
  where
    queued : send_in_loop o buf size c ≡ queue_rest buf 0 size c
    queued = simp (alive, some_wait)

plus_zero : (m : ℕ) → m ≡ m + 0
plus_zero m = omega arith

minus_zero : (m : ℕ) → m ≡ m - 0
minus_zero m = omega arith

pub no_vectors→nil : (vs : List Iovec) → no_vectors vs ≡ true → vs ≡ []
no_vectors→nil [] h = refl
no_vectors→nil (v ∷ vs) h = cc

-- `Send(buf, size)` in the loop thread of an open connection, where `write` takes `n` bytes. If
-- nothing waits, these are gone and the rest waits; if vectors wait, nothing is written and the
-- whole buffer waits behind them. Write events are turned on if bytes of the buffer wait, and the
-- write-complete callback is called if they were all written at once.
pub send_in_loop_lem :
    (n buf size : ℕ) (c : TcpConnection)
    → c.closed ≡ false
    → n ≤ size
    → buf + size < 2 ^ 64
    → let taken = if no_vectors c.io_vec_list then n else 0 in
      let c' = send_in_loop (wrote n) buf size c in
      (waiting c'.io_vec_list ≡ waiting c.io_vec_list ++ range (buf + taken) (size - taken))
      × (c'.effects ≡ (
          if size - taken == 0
          then (if no_vectors c.io_vec_list then write_complete ∷ c.effects else c.effects)
          else enable_write true ∷ c.effects))
send_in_loop_lem n buf size c alive fit room = elim (Bool-cases (no_vectors c.io_vec_list)) [
  | inl idle ↦
      let (rest, calls) =
        send_in_loop_now n buf size c alive (no_vectors→nil c.io_vec_list idle) fit room in
      rw idle (
        rest
            ∙ sym (
                ap (λ vs. waiting vs ++ range (buf + n) (size - n))
                  (no_vectors→nil c.io_vec_list idle)),
        calls,
      )
  | inr busy ↦
      let (rest, calls) = send_in_loop_later (wrote n) buf size c alive busy room in
      rw busy (
        rest ∙ ap₂ (λ k m. waiting c.io_vec_list ++ range k m) (plus_zero buf) (minus_zero size),
        calls
            ∙ ap (λ m. if m == 0 then c.effects else enable_write true ∷ c.effects)
                (minus_zero size),
      )
]

-- A `write` that fails, also with EAGAIN, leaves a vector that starts one byte before the buffer
-- and is one byte longer: the -1 is kept in a `size_t`. No error is seen and nothing is closed.
pub send_in_loop_refused :
    (e : Errno) (buf size : ℕ) (c : TcpConnection)
    → c.closed ≡ false
    → c.io_vec_list ≡ []
    → 0 < buf
    → buf + size < 2 ^ 64 - 1
    → send_in_loop (refused e) buf size c ≡ record c {
      io_vec_list = record { iov_base = buf - 1; iov_len = size + 1 } ∷ [];
      effects = enable_write true ∷ c.effects;
    }
unfolding send_in_loop queue_rest
send_in_loop_refused e buf size c alive empty start room = ground arith

-- `Send(list)` with something to send queues it and never turns write events on.
pub send_list_in_loop_stalls :
    (v : Iovec) (vs : List Iovec) (c : TcpConnection)
    → c.closed ≡ false
    → (waiting (send_list_in_loop (v ∷ vs) c).io_vec_list
        ≡ waiting c.io_vec_list ++ waiting (v ∷ vs))
      × ((send_list_in_loop (v ∷ vs) c).effects ≡ c.effects)
unfolding send_list_in_loop
send_list_in_loop_stalls v vs c alive = (
  ap (λ d. waiting d.io_vec_list) queued ∙ waiting-append c.io_vec_list (v ∷ vs),
  ap (λ d. d.effects) queued,
)
  where
    queued : send_list_in_loop (v ∷ vs) c ≡ record c { io_vec_list = c.io_vec_list ++ v ∷ vs }
    queued = simp (alive, some_vectors c.io_vec_list v vs)
