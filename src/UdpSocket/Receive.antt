-- ===== src/UdpSocket/Receive.antt =====
-- The reading side of src/network/net/UdpSocket.cpp.
use tmms.Common.{
  ℕ, zero, suc, ◌+◌, ◌-◌, ◌≤◌, ◌≡◌, refl, sym, ap, ap₂, ◌∙◌, subst, inl, inr, Bool, true, false,
  List, [], ◌∷◌, ◌++◌, append-nil, append_assoc, arith, length, take, length-take, add_size, ◌==◌,
  le→leb, Bool-cases, Result, ok, ◌>>=◌,
}
use tmms.MsgBuffer.{MsgBuffer, writable_bytes, has_written}
use tmms.MsgBuffer.Valid.{IsValid, contents}
use tmms.MsgBuffer.Append.{copied, size-copied, contents_written}
use tmms.InetAddress.{InetAddress}
use tmms.SocketOpt.{AddressText, SockAddr, to_inet_address, unset}
use tmms.TcpConnection.{Errno, eintr, eagain, other}
use tmms.UdpSocket.{
  UdpSocket, received, emit, on_close, extend_life, store, Recv, datagram, failed, receive,
  read_loop, on_read,
}

take-split :
    (n : ℕ) (xs ys : List ℕ) → take n (xs ++ ys) ≡ take n xs ++ take (n - length (take n xs)) ys
take-split zero xs ys = refl
take-split (suc n) [] ys = ap (λ k. take k ys) {x = suc n} {y = suc n - 0} (omega arith)
take-split (suc n) (x ∷ xs) ys =
    ap (λ zs. x ∷ zs)
      (take-split n xs ys
        ∙ ap (λ k. take n xs ++ take k ys) {x = n - length (take n xs)} (omega arith))

module _ (bytes : List ℕ) (b : MsgBuffer) (v : IsValid b)
    (room : length bytes ≤ writable_bytes b) where
  store_lem :
      (b' : MsgBuffer) × (store bytes b ≡ ok b')
      × IsValid b'
      × (contents b' ≡ contents b ++ bytes)
      × (writable_bytes b' + length bytes ≡ writable_bytes b)
  unfolding store has_written copied
  store_lem = (
    record (copied bytes b v room) { writer_index = add_size b.writer_index (length bytes) },
    rw
        (le→leb (length bytes) (writable_bytes (copied bytes b v room))
          (omega (arith, size-copied bytes b v room)))
        refl,
    omega (arith, size-copied bytes b v room),
    contents_written bytes b v room,
    omega (arith, size-copied bytes b v room),
  )

-- A callback that takes nothing out of the buffer.
abbrev pub keep : InetAddress → MsgBuffer → MsgBuffer
keep peer b = b

-- The bytes of the datagrams up to the first answer that ends the loop.
abbrev pub payload : List Recv → List ℕ
payload [] = []
payload (datagram from bytes ∷ rs) = bytes ++ payload rs
payload (failed eintr ∷ rs) = payload rs
payload (failed eagain ∷ rs) = []
payload (failed other ∷ rs) = []

receive_lem :
    (t : AddressText) (from : SockAddr) (bytes : List ℕ) (u : UdpSocket)
    → IsValid u.msg_buffer
    → length bytes ≤ writable_bytes u.msg_buffer
    → (u' : UdpSocket) × (receive t keep from bytes u ≡ ok u')
      × IsValid u'.msg_buffer
      × (contents u'.msg_buffer ≡ contents u.msg_buffer ++ bytes)
      × (writable_bytes u'.msg_buffer + length bytes ≡ writable_bytes u.msg_buffer)
unfolding receive
receive_lem t from [] u v room = (u, refl, v, sym (append-nil (contents u.msg_buffer)), omega arith)
receive_lem t from (x ∷ xs) u v room =
    let (b, e, w, c, r) = store_lem (x ∷ xs) u.msg_buffer v room in
    (
      emit (received (to_inet_address t from unset)) (record u { msg_buffer = b }),
      rw (e, ◌>>=◌) refl,
      w,
      c,
      r,
    )

buffer-on_close : (u : UdpSocket) → (on_close u).msg_buffer ≡ u.msg_buffer
unfolding on_close
buffer-on_close u = ground arith

buffer-extend_life : (u : UdpSocket) → (extend_life u).msg_buffer ≡ u.msg_buffer
unfolding extend_life
buffer-extend_life u = ground arith

-- What holds of the loop's outcome.
abbrev pub Keeps : List Recv → MsgBuffer → Result (Bool × UdpSocket) → Type 0
Keeps rs b r =
    (done : Bool) × (u' : UdpSocket) × (r ≡ ok (done, u'))
    × IsValid u'.msg_buffer
    × (contents u'.msg_buffer ≡ contents b ++ take (writable_bytes b) (payload rs))

unchanged :
    (rs : List Recv) (b : MsgBuffer) (done : Bool) (u : UdpSocket)
    → IsValid b
    → u.msg_buffer ≡ b
    → take (writable_bytes b) (payload rs) ≡ []
    → Keeps rs b (ok (done, u))
unchanged rs b done u v e nothing = (
  done,
  u,
  refl,
  subst IsValid (sym e) v,
  ap contents e ∙ sym (append-nil (contents b)) ∙ sym (ap (λ xs. contents b ++ xs) nothing),
)

module _ (t : AddressText) (r : Recv) (rs : List Recv) (u : UdpSocket) where
  -- With no room left the loop ends, whatever waits in the kernel.
  loop-full : (writable_bytes u.msg_buffer == 0) ≡ true → read_loop t keep (r ∷ rs) u ≡ ok (true, u)
  unfolding read_loop
  loop-full e = rw (e, read_loop) refl

loop-datagram :
    (t : AddressText) (from : SockAddr) (bytes : List ℕ) (rs : List Recv) (u u' : UdpSocket)
    → (writable_bytes u.msg_buffer == 0) ≡ false
    → receive t keep from (take (writable_bytes u.msg_buffer) bytes) u ≡ ok u'
    → read_loop t keep (datagram from bytes ∷ rs) u ≡ read_loop t keep rs u'
unfolding read_loop
loop-datagram t from bytes rs u u' e g = rw (e, g, read_loop) refl

loop-failed :
    (t : AddressText) (e : Errno) (rs : List Recv) (u : UdpSocket)
    → (writable_bytes u.msg_buffer == 0) ≡ false
    → read_loop t keep (failed e ∷ rs) u ≡ elim e [
      | eintr ↦ read_loop t keep rs u
      | eagain ↦ ok (true, u)
      | other ↦ ok (true, on_close u)
    ]
unfolding read_loop
loop-failed t eintr rs u e = rw (e, read_loop) refl
loop-failed t eagain rs u e = rw (e, read_loop) refl
loop-failed t other rs u e = rw (e, read_loop) refl

no_room :
    (rs : List Recv) (b : MsgBuffer)
    → (writable_bytes b == 0) ≡ true
    → take (writable_bytes b) (payload rs) ≡ []
no_room rs b e = ap (λ k. take k (payload rs)) {x = writable_bytes b} {y = 0} (ground arith)

take-nil : (n : ℕ) → take {A = ℕ} n [] ≡ []
take-nil zero = refl
take-nil (suc n) = refl

by_room :
    (t : AddressText) (r : Recv) (rs : List Recv) (u : UdpSocket)
    → IsValid u.msg_buffer
    → ((writable_bytes u.msg_buffer == 0) ≡ false
        → Keeps (r ∷ rs) u.msg_buffer (read_loop t keep (r ∷ rs) u))
    → Keeps (r ∷ rs) u.msg_buffer (read_loop t keep (r ∷ rs) u)
by_room t r rs u v go = elim (Bool-cases (writable_bytes u.msg_buffer == 0)) [
  | inl full ↦
      subst (Keeps (r ∷ rs) u.msg_buffer) (sym (loop-full t r rs u full))
        (unchanged (r ∷ rs) u.msg_buffer true u v refl (no_room (r ∷ rs) u.msg_buffer full))
  | inr some_room ↦ go some_room
]

read_loop-Keeps :
    (t : AddressText) (rs : List Recv) (u : UdpSocket)
    → IsValid u.msg_buffer
    → Keeps rs u.msg_buffer (read_loop t keep rs u)
unfolding read_loop
read_loop-Keeps t [] u v =
    unchanged [] u.msg_buffer (writable_bytes u.msg_buffer == 0) u v refl
      (take-nil (writable_bytes u.msg_buffer))
read_loop-Keeps t (datagram from bytes ∷ rs) u v =
    by_room t (datagram from bytes) rs u v λ some_room.
      let w = writable_bytes u.msg_buffer in
      let (u1, e, v1, c, r) =
        receive_lem t from (take w bytes) u v (omega (arith, length-take w bytes)) in
      let (done, u2, e2, v2, c2) = read_loop-Keeps t rs u1 v1 in
      (
        done,
        u2,
        loop-datagram t from bytes rs u u1 some_room e ∙ e2,
        v2,
        c2
            ∙ ap₂ (λ xs k. xs ++ take k (payload rs)) c (omega (arith, r))
            ∙ append_assoc (contents u.msg_buffer) (take w bytes)
                (take (w - length (take w bytes)) (payload rs))
            ∙ ap (λ xs. contents u.msg_buffer ++ xs) (sym (take-split w bytes (payload rs))),
      )
read_loop-Keeps t (failed eintr ∷ rs) u v = by_room t (failed eintr) rs u v λ some_room.
    subst (Keeps rs u.msg_buffer) (sym (loop-failed t eintr rs u some_room))
      (read_loop-Keeps t rs u v)
read_loop-Keeps t (failed eagain ∷ rs) u v = by_room t (failed eagain) rs u v λ some_room.
    subst (Keeps (failed eagain ∷ rs) u.msg_buffer) (sym (loop-failed t eagain rs u some_room)) (
      unchanged (failed eagain ∷ rs) u.msg_buffer true u v refl
        (take-nil (writable_bytes u.msg_buffer)))
read_loop-Keeps t (failed other ∷ rs) u v = by_room t (failed other) rs u v λ some_room.
    subst (Keeps (failed other ∷ rs) u.msg_buffer) (sym (loop-failed t other rs u some_room)) (
      unchanged (failed other ∷ rs) u.msg_buffer true (on_close u) v (buffer-on_close u)
        (take-nil (writable_bytes u.msg_buffer)))

open_read :
    (t : AddressText) (rs : List Recv) (u : UdpSocket)
    → u.closed ≡ false
    → on_read t keep rs u ≡ read_loop t keep rs (extend_life u)
unfolding on_read
open_read t rs u alive = simp alive

-- While the callback leaves the bytes in the buffer, `OnRead` of an open socket with a valid buffer
-- succeeds and keeps it valid. Behind the bytes that were there stand those of the datagrams, in
-- order, up to the answer that ends the loop, but no more than the buffer had room for: what is
-- beyond is lost or not read, and the buffer does not grow.
pub on_read-keep :
    (t : AddressText) (rs : List Recv) (u : UdpSocket)
    → u.closed ≡ false
    → IsValid u.msg_buffer
    → (done : Bool) × (u' : UdpSocket) × (on_read t keep rs u ≡ ok (done, u'))
      × IsValid u'.msg_buffer
      × (contents u'.msg_buffer
          ≡ contents u.msg_buffer ++ take (writable_bytes u.msg_buffer) (payload rs))
on_read-keep t rs u alive v =
    let e = buffer-extend_life u in
    let (done, u', l, v', c) = read_loop-Keeps t rs (extend_life u) (subst IsValid (sym e) v) in
    (
      done,
      u',
      open_read t rs u alive ∙ l,
      v',
      c ∙ ap (λ b. contents b ++ take (writable_bytes b) (payload rs)) e,
    )
