-- ===== src/UdpSocket/Queue.antt =====
-- The queue of datagrams of src/network/net/UdpSocket.cpp.
use tmms.Common.{
  ℕ, zero, suc, ◌<◌, ◌≡◌, refl, ap, ◌∙◌, inl, inr, false, List, [], ◌∷◌, ◌++◌, arith, replicate,
  Bool-cases,
}
use tmms.TcpConnection.{Outcome, wrote, refused, is_fatal}
use tmms.UdpSocket.{
  UdpBufferNode, Effect, write_complete, UdpSocket, emit, on_close, extend_life, Progress, running,
  finished, sending, write_loop, on_write,
}

abbrev pub state : Progress → UdpSocket
state (running u) = u
state (finished u) = u

-- The datagrams that the kernel took, in order.
abbrev pub taken : List Outcome → List UdpBufferNode → List UdpBufferNode
taken os [] = []
taken [] (n ∷ ns) = []
taken (wrote zero ∷ os) (n ∷ ns) = taken os (n ∷ ns)
taken (wrote (suc k) ∷ os) (n ∷ ns) = n ∷ taken os ns
taken (refused e ∷ os) (n ∷ ns) = []

queue-on_close : (u : UdpSocket) → (on_close u).buffer_list ≡ u.buffer_list
unfolding on_close
queue-on_close u = ground arith

queue-extend_life : (u : UdpSocket) → (extend_life u).buffer_list ≡ u.buffer_list
unfolding extend_life
queue-extend_life u = ground arith

taken-write_loop :
    (os : List Outcome) (ns : List UdpBufferNode) (u : UdpSocket)
    → taken os ns ++ (state (write_loop os ns u)).buffer_list ≡ ns
unfolding write_loop
taken-write_loop os [] u = refl
taken-write_loop [] (n ∷ ns) u = refl
taken-write_loop (wrote zero ∷ os) (n ∷ ns) u = taken-write_loop os (n ∷ ns) (emit (sending n) u)
taken-write_loop (wrote (suc k) ∷ os) (n ∷ ns) u =
    ap (λ xs. n ∷ xs) (taken-write_loop os ns (emit (sending n) u))
taken-write_loop (refused e ∷ os) (n ∷ ns) u = elim (Bool-cases (is_fatal e)) [
  | inl fatal ↦ rw fatal (queue-on_close (emit (sending n) (record u { buffer_list = n ∷ ns })))
  | inr later ↦ rw later refl
]

open_loop :
    (os : List Outcome) (u : UdpSocket)
    → u.closed ≡ false
    → on_write os u ≡ write_loop os u.buffer_list (extend_life u)
unfolding on_write
open_loop os u alive = simp alive

-- However `sendto` answers: the datagrams that `OnWrite` of an open socket got rid of, followed by
-- those that still wait, are those that waited before, in the same order.
pub taken-on_write :
    (os : List Outcome) (u : UdpSocket)
    → u.closed ≡ false
    → taken os u.buffer_list ++ (state (on_write os u)).buffer_list ≡ u.buffer_list
taken-on_write os u alive =
    ap (λ p. taken os u.buffer_list ++ (state p).buffer_list) (open_loop os u alive)
    ∙ taken-write_loop os u.buffer_list (extend_life u)

-- The kernel takes every datagram of the queue.
abbrev pub TakesAll : List Outcome → List UdpBufferNode → Type 0
TakesAll os [] = Unit {0}
TakesAll [] (n ∷ ns) = ⊥
TakesAll (wrote k ∷ os) (n ∷ ns) = (0 < k) × TakesAll os ns
TakesAll (refused e ∷ os) (n ∷ ns) = ⊥

-- The effects after the datagrams have been sent in order.
abbrev pub sends : List UdpBufferNode → List Effect → List Effect
sends [] es = es
sends (n ∷ ns) es = sends ns (sending n ∷ es)

drains :
    (os : List Outcome) (ns : List UdpBufferNode) (u : UdpSocket)
    → TakesAll os ns
    → write_loop os ns u
      ≡ finished (record u { buffer_list = []; effects = write_complete ∷ sends ns u.effects })
unfolding write_loop
drains os [] u a = refl
drains [] (n ∷ ns) u a = absurd a
drains (wrote zero ∷ os) (n ∷ ns) u (pos, a) = absurd (omega arith)
drains (wrote (suc k) ∷ os) (n ∷ ns) u (pos, a) = drains os ns (emit (sending n) u) a
drains (refused e ∷ os) (n ∷ ns) u a = absurd a

-- If the kernel takes every datagram, `OnWrite` of an open socket ends after one `sendto` for each,
-- in order, and then calls the write-complete callback once; the queue is empty. Each `sendto` is
-- given the destination's address in place of the data.
pub on_write_drains :
    (os : List Outcome) (u : UdpSocket)
    → u.closed ≡ false
    → TakesAll os u.buffer_list
    → on_write os u
      ≡ finished (record (extend_life u) {
        buffer_list = [];
        effects = write_complete ∷ sends u.buffer_list (extend_life u).effects;
      })
on_write_drains os u alive a = open_loop os u alive ∙ drains os u.buffer_list (extend_life u) a

-- The effects of `k` calls of `sendto` with the same datagram.
abbrev pub tries : ℕ → UdpBufferNode → List Effect → List Effect
tries zero n es = es
tries (suc k) n es = tries k n (sending n ∷ es)

zeros :
    (k : ℕ) (n : UdpBufferNode) (ns : List UdpBufferNode) (u : UdpSocket)
    → write_loop (replicate k (wrote 0)) (n ∷ ns) u
      ≡ running (record u { buffer_list = n ∷ ns; effects = tries k n u.effects })
unfolding write_loop
zeros zero n ns u = refl
zeros (suc k) n ns u = zeros k n ns (emit (sending n) u)

-- A datagram for which `sendto` returns 0, as it does for one without bytes, is never taken off the
-- queue: `OnWrite` sends it again and again and does not end.
pub on_write_repeats :
    (k : ℕ) (n : UdpBufferNode) (ns : List UdpBufferNode) (u : UdpSocket)
    → u.closed ≡ false
    → u.buffer_list ≡ n ∷ ns
    → on_write (replicate k (wrote 0)) u
      ≡ running (record (extend_life u) {
        buffer_list = n ∷ ns;
        effects = tries k n (extend_life u).effects;
      })
on_write_repeats k n ns u alive front =
    open_loop (replicate k (wrote 0)) u alive
    ∙ ap (λ xs. write_loop (replicate k (wrote 0)) xs (extend_life u)) front
    ∙ zeros k n ns (extend_life u)
