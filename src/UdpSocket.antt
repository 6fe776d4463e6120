-- ===== src/UdpSocket.antt =====
-- src/network/net/UdpSocket.cpp. What the kernel answers is an argument; a loop that has used up
-- the answers given is still running. Callbacks, calls of the event loop and of `sendto` are
-- recorded, newest first. Datagrams wait as addresses of their bytes.
pub mod Queue
pub mod Receive
mod Examples
use tmms.Common.{
  ℕ, zero, suc, ◌+◌, Bool, true, false, List, [], ◌∷◌, ◌++◌, length, take, write_at, ◌==◌,
  if◌then◌else◌, Result, ok, fault, ◌>>=◌, ◌>>◌,
}
use tmms.MsgBuffer.{MsgBuffer, writable_bytes, begin_write, has_written}
use tmms.InetAddress.{InetAddress}
use tmms.SocketOpt.{AddressText, SockAddr, unset, to_inet_address}
use tmms.TcpConnection.{Errno, eintr, eagain, other, Outcome, wrote, refused, is_fatal}

pub record UdpBufferNode : Type 0 where
  pub addr : ℕ
  pub size : ℕ
  pub sock_addr : ℕ
  pub sock_len : ℕ

-- A call of `sendto` with its data, their length and the destination; the callbacks; the calls of
-- the loop.
pub data Effect : Type 0 where
  send_to : ℕ → ℕ → ℕ → Effect
  received : InetAddress → Effect
  write_complete close_callback close_fd : Effect
  enable_write : Bool → Effect
  insert_entry : ℕ → Effect

-- `timer_lives`: somebody still holds the entry that `timeout_entry_` points to.
pub record UdpSocket : Type 0 where
  pub closed : Bool
  pub buffer_list : List UdpBufferNode
  pub msg_buffer : MsgBuffer
  pub timer_lives : Bool
  pub max_idle_time : ℕ
  pub effects : List Effect

abbrev pub emit : Effect → UdpSocket → UdpSocket
emit e u = record u { effects = e ∷ u.effects }

-- The callback is called if there is one.
unfoldable pub on_close : UdpSocket → UdpSocket
on_close u =
    if u.closed then u else emit close_fd (emit close_callback (record u { closed = true }))

-- `OnTimeout` and `OnError` log and close.
pub on_timeout : UdpSocket → UdpSocket
unfolding on_close
on_timeout u = on_close u

pub on_error : UdpSocket → UdpSocket
unfolding on_close
on_error u = on_close u

pub enable_check_idle_timeout : ℕ → UdpSocket → UdpSocket
enable_check_idle_timeout max_time u =
    emit (insert_entry max_time) (record u { max_idle_time = max_time; timer_lives = true })

unfoldable pub extend_life : UdpSocket → UdpSocket
extend_life u = if u.timer_lives then emit (insert_entry u.max_idle_time) u else u

-- Has the loop ended?
pub data Progress : Type 0 where
  running finished : UdpSocket → Progress

-- `sendto` of a queued datagram: the address is passed where the data belong.
abbrev pub sending : UdpBufferNode → Effect
sending n = send_to n.sock_addr n.size n.sock_addr

-- The loop of `OnWrite` over the queue, which is the second argument.
pub write_loop : List Outcome → List UdpBufferNode → UdpSocket → Progress
unfolding on_close
write_loop os [] u = finished (emit write_complete (record u { buffer_list = [] }))
write_loop [] (n ∷ ns) u = running (record u { buffer_list = n ∷ ns })
write_loop (wrote zero ∷ os) (n ∷ ns) u = write_loop os (n ∷ ns) (emit (sending n) u)
write_loop (wrote (suc k) ∷ os) (n ∷ ns) u = write_loop os ns (emit (sending n) u)
write_loop (refused e ∷ os) (n ∷ ns) u =
    let u' = emit (sending n) (record u { buffer_list = n ∷ ns }) in
    finished (if is_fatal e then on_close u' else u')

pub on_write : List Outcome → UdpSocket → Progress
unfolding write_loop extend_life
on_write os u = if u.closed then finished u else write_loop os u.buffer_list (extend_life u)

-- `SendInLoop(list)`.
abbrev pub has_nodes : List UdpBufferNode → Bool
has_nodes [] = false
has_nodes (n ∷ ns) = true

pub send_list_in_loop : List UdpBufferNode → UdpSocket → UdpSocket
send_list_in_loop nodes u =
    let u' = record u { buffer_list = u.buffer_list ++ nodes } in
    if has_nodes u'.buffer_list then emit (enable_write true) u' else u'

abbrev pub is_sent : Outcome → Bool
is_sent (wrote zero) = false
is_sent (wrote (suc k)) = true
is_sent (refused e) = false

abbrev pub enqueue : UdpBufferNode → UdpSocket → UdpSocket
enqueue n u = emit (enable_write true) (record u { buffer_list = u.buffer_list ++ (n ∷ []) })

-- `SendInLoop(buf, size, addr, sock_len)`.
pub send_in_loop : Outcome → UdpBufferNode → UdpSocket → UdpSocket
send_in_loop answer n u =
    let u' = emit (send_to n.addr n.size n.sock_addr) u in
    if has_nodes u.buffer_list then enqueue n u else if is_sent answer then u' else enqueue n u'

-- What `recvfrom` answers: a datagram with its sender, or an errno.
pub data Recv : Type 0 where
  datagram : SockAddr → List ℕ → Recv
  failed : Errno → Recv

-- The bytes at `beginWrite`, and `hasWritten`.
pub store : List ℕ → MsgBuffer → Result MsgBuffer
store bytes b =
    has_written (length bytes) (record b { buffer = write_at b.buffer (begin_write b) bytes })

-- The branch for `ret > 0`, and nothing for an empty datagram.
pub receive :
    AddressText
    → (InetAddress → MsgBuffer → MsgBuffer)
    → SockAddr
    → List ℕ
    → UdpSocket
    → Result UdpSocket
unfolding store
receive t cb from [] u = ok u
receive t cb from (x ∷ xs) u = do
  b ← store (x ∷ xs) u.msg_buffer
  let peer = to_inet_address t from unset
  ok (emit (received peer) (record u { msg_buffer = cb peer b }))

-- The loop of `OnRead`; a datagram that is longer than the room in the buffer is cut, as
-- `recvfrom` does. The callback gets the sender and the buffer.
pub read_loop :
    AddressText
    → (InetAddress → MsgBuffer → MsgBuffer)
    → List Recv
    → UdpSocket
    → Result (Bool × UdpSocket)
unfolding on_close receive
read_loop t cb [] u = ok (writable_bytes u.msg_buffer == 0, u)
read_loop t cb (r ∷ rs) u = elim (writable_bytes u.msg_buffer == 0) [
  | true ↦ ok (true, u)
  | false ↦ elim r [
    | datagram from bytes ↦ elim (receive t cb from (take (writable_bytes u.msg_buffer) bytes) u) [
      | fault f ↦ fault f
      | ok u' ↦ read_loop t cb rs u'
    ]
    | failed eintr ↦ read_loop t cb rs u
    | failed eagain ↦ ok (true, u)
    | failed other ↦ ok (true, on_close u)
  ]
]

pub on_read :
    AddressText
    → (InetAddress → MsgBuffer → MsgBuffer)
    → List Recv
    → UdpSocket
    → Result (Bool × UdpSocket)
unfolding read_loop extend_life
on_read t cb rs u = if u.closed then ok (true, u) else read_loop t cb rs (extend_life u)
