-- ===== src/TcpConnection/Output.antt =====
-- The sending side of src/network/net/TcpConnection.cpp: in which order `OnWrite` hands the bytes
-- that wait to the kernel.
use tmms.Common.{
  ℕ, zero, suc, ◌+◌, ◌-◌, ◌≤◌, ◌≡◌, refl, sym, ap, ap₂, ◌∙◌, inl, inr, false, List, [], ◌∷◌, ◌++◌,
  append_assoc, arith, length, take, drop, take-append-drop, drop-append, drop-append_past, ltb,
  ◌==◌, Bool-cases,
}
use tmms.TcpConnection.{
  Iovec, Outcome, wrote, refused, Effect, enable_write, write_complete, TcpConnection, emit,
  is_fatal, on_close, consume, no_vectors, wrote_some, Progress, running, finished, write_loop,
  on_write,
}

-- The addresses from `base` on.
abbrev pub range : ℕ → ℕ → List ℕ
range base zero = []
range base (suc n) = base ∷ range (suc base) n

-- The addresses of the bytes that wait, in the order in which they are to be sent.
abbrev pub waiting : List Iovec → List ℕ
waiting [] = []
waiting (v ∷ vs) = range v.iov_base v.iov_len ++ waiting vs

length-range : (base n : ℕ) → length (range base n) ≡ n
length-range base zero = refl
length-range base (suc n) = omega (arith, length-range (suc base) n)

drop-range : (base n k : ℕ) → k ≤ n → drop k (range base n) ≡ range (base + k) (n - k)
drop-range base n zero h = ap₂ range (omega arith) (omega arith)
drop-range base zero (suc k) h = absurd (omega arith)
drop-range base (suc n) (suc k) h =
    drop-range (suc base) n k (omega arith) ∙ ap₂ range (omega arith) (omega arith)

pub suc_nonzero : (n : ℕ) → (suc n == 0) ≡ false
suc_nonzero n = ground arith

-- The loop over the vectors takes exactly the first `ret` bytes off what waits.
pub waiting-consume : (ret : ℕ) (vs : List Iovec) → waiting (consume ret vs) ≡ drop ret (waiting vs)
unfolding consume
waiting-consume zero [] = refl
waiting-consume (suc n) [] = refl
waiting-consume zero (v ∷ vs) = refl
waiting-consume (suc n) (v ∷ vs) = elim (Bool-cases (ltb (suc n) v.iov_len)) [
  | inl inside ↦
      rw (suc_nonzero n, inside)
        (ap (λ xs. xs ++ waiting vs) (sym (drop-range v.iov_base v.iov_len (suc n) (ground arith)))
          ∙ sym (
              drop-append (suc n) (range v.iov_base v.iov_len) (waiting vs)
                (ground (arith, length-range v.iov_base v.iov_len))))
  | inr past ↦
      rw (suc_nonzero n, past)
        (waiting-consume (suc n - v.iov_len) vs
          ∙ ap (λ k. drop k (waiting vs)) (omega (arith, length-range v.iov_base v.iov_len))
          ∙ sym (
              drop-append_past (suc n) (range v.iov_base v.iov_len) (waiting vs)
                (ground (arith, length-range v.iov_base v.iov_len))))
]

abbrev pub state : Progress → TcpConnection
state (running c) = c
state (finished c) = c

-- The bytes that the kernel took in a run of the loop, in order.
pub accepted : List Outcome → TcpConnection → List ℕ
accepted [] c = []
accepted (wrote ret ∷ os) c = take ret (waiting c.io_vec_list) ++ accepted os (wrote_some ret c)
accepted (refused e ∷ os) c = []

io-wrote_some :
    (ret : ℕ) (c : TcpConnection) → (wrote_some ret c).io_vec_list ≡ consume ret c.io_vec_list
unfolding wrote_some
io-wrote_some ret c = ground arith

io-on_close : (c : TcpConnection) → (on_close c).io_vec_list ≡ c.io_vec_list
unfolding on_close
io-on_close c = ground arith

write_loop-accepted :
    (os : List Outcome) (c : TcpConnection)
    → accepted os c ++ waiting (state (write_loop os c)).io_vec_list ≡ waiting c.io_vec_list
unfolding write_loop accepted
write_loop-accepted [] c = refl
write_loop-accepted (wrote ret ∷ os) c =
    append_assoc (take ret (waiting c.io_vec_list)) (accepted os (wrote_some ret c))
      (waiting (state (write_loop os (wrote_some ret c))).io_vec_list)
    ∙ ap (λ xs. take ret (waiting c.io_vec_list) ++ xs)
        (write_loop-accepted os (wrote_some ret c)
          ∙ ap waiting (io-wrote_some ret c)
          ∙ waiting-consume ret c.io_vec_list)
    ∙ take-append-drop ret (waiting c.io_vec_list)
write_loop-accepted (refused e ∷ os) c = elim (Bool-cases (is_fatal e)) [
  | inl fatal ↦ rw fatal (ap waiting (io-on_close c))
  | inr again ↦ rw again
]

on_write_open :
    (os : List Outcome) (c : TcpConnection)
    → c.closed ≡ false
    → no_vectors c.io_vec_list ≡ false
    → on_write os c ≡ write_loop os c
unfolding on_write
on_write_open os c alive some_wait = simp (alive, some_wait)

-- Whatever the kernel takes in how many pieces, and however the loop ends: while vectors wait on an
-- open connection, the bytes that `OnWrite` handed over, followed by those that still wait, are
-- those that waited before, in the same order.
pub on_write-accepted :
    (os : List Outcome) (c : TcpConnection)
    → c.closed ≡ false
    → no_vectors c.io_vec_list ≡ false
    → accepted os c ++ waiting (state (on_write os c)).io_vec_list ≡ waiting c.io_vec_list
on_write-accepted os c alive some_wait =
    ap (λ p. accepted os c ++ waiting (state p).io_vec_list) (on_write_open os c alive some_wait)
    ∙ write_loop-accepted os c

-- Answers none of which is an error.
abbrev pub AllWrote : List Outcome → Type 0
AllWrote [] = Unit {0}
AllWrote (wrote n ∷ os) = AllWrote os
AllWrote (refused e ∷ os) = ⊥

pub rounds : List Outcome → List Effect → List Effect
rounds [] es = es
rounds (o ∷ os) es = rounds os (write_complete ∷ enable_write false ∷ es)

write_loop_drained :
    (os : List Outcome) (c : TcpConnection)
    → AllWrote os
    → c.io_vec_list ≡ []
    → write_loop os c ≡ running (record c { effects = rounds os c.effects })
unfolding write_loop rounds
write_loop_drained [] c a e = refl
write_loop_drained (refused x ∷ os) c a e = absurd a
write_loop_drained (wrote n ∷ os) c a e =
    ap (write_loop os) round
    ∙ write_loop_drained os (emit write_complete (emit (enable_write false) c)) a e
  where
    round : wrote_some n c ≡ emit write_complete (emit (enable_write false) c)
    round = unfold wrote_some consume in rw e (cc)

-- `OnWrite` has no way out but an error of `writev`: once a write has taken everything that
-- waited, each further answer without an error, such as 0 for no vectors, makes one more round that
-- turns write events off and calls the write-complete callback again, and the loop goes on.
pub on_write_spins :
    (ret : ℕ) (os : List Outcome) (c : TcpConnection)
    → c.closed ≡ false
    → no_vectors c.io_vec_list ≡ false
    → consume ret c.io_vec_list ≡ []
    → AllWrote os
    → on_write (wrote ret ∷ os) c
      ≡ running (record c {
        io_vec_list = [];
        effects = rounds os (write_complete ∷ enable_write false ∷ c.effects);
      })
unfolding write_loop
on_write_spins ret os c alive some_wait drained a =
    on_write_open (wrote ret ∷ os) c alive some_wait
    ∙ (ap (write_loop os) round
        ∙ write_loop_drained os
            (emit write_complete (emit (enable_write false) (record c { io_vec_list = [] }))) a
            refl)
  where
    round :
        wrote_some ret c
        ≡ emit write_complete (emit (enable_write false) (record c { io_vec_list = [] }))
    round = unfold wrote_some in rw drained
