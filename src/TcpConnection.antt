-- ===== src/TcpConnection.antt =====
-- src/network/net/TcpConnection.cpp. What the kernel answers to each `writev`, `write` and `readv`
-- is an argument; a loop that has used up the answers given is still running. A buffer is its
-- address and length; the bytes stay with the caller. Callbacks and calls of the event loop are
-- recorded, newest first.
pub mod Output
pub mod Sending
pub mod Stream
pub mod Posted
pub mod Closed
mod Examples
use tmms.Common.{
  ℕ, ◌+◌, ◌-◌, ◌^◌, Bool, true, false, ◌||◌, List, [], ◌∷◌, ◌++◌, add_size, sub_size, ltb, ◌==◌,
  if◌then◌else◌, Result, ok, ◌>>=◌, ◌>>◌,
}
use tmms.MsgBuffer.{MsgBuffer}
use tmms.MsgBuffer.Socket.{Readv, got, failed, read_fd}

-- `struct iovec`.
pub record Iovec : Type 0 where
  pub iov_base : ℕ
  pub iov_len : ℕ

-- `errno` values that the handlers tell apart.
pub data Errno : Type 0 where
  eintr eagain other : Errno

pub data Outcome : Type 0 where
  wrote : ℕ → Outcome
  refused : Errno → Outcome

pub data Effect : Type 0 where
  enable_write : Bool → Effect
  write_complete closed_cb close_fd : Effect

pub record TcpConnection : Type 0 where
  pub closed : Bool
  pub io_vec_list : List Iovec
  pub effects : List Effect

abbrev pub emit : Effect → TcpConnection → TcpConnection
emit e c = record c { effects = e ∷ c.effects }

-- `err != EINTR && err != EAGAIN && err != EWOULDBLOCK`; the last two are one number.
abbrev pub is_fatal : Errno → Bool
is_fatal eintr = false
is_fatal eagain = false
is_fatal other = true

-- A close callback is always set, as `TcpServer` does.
unfoldable pub on_close : TcpConnection → TcpConnection
on_close c = if c.closed then c else emit close_fd (emit closed_cb (record c { closed = true }))

-- The `while (ret > 0)` loop: takes `ret` bytes off the front of the vectors.
unfoldable pub consume : ℕ → List Iovec → List Iovec
consume ret [] = []
consume ret (v ∷ vs) =
    let rest = consume (ret - v.iov_len) vs in
    if ret == 0
    then v ∷ vs
    else if ltb ret v.iov_len
    then record { iov_base = v.iov_base + ret; iov_len = v.iov_len - ret } ∷ vs
    else rest

abbrev pub no_vectors : List Iovec → Bool
no_vectors [] = true
no_vectors (v ∷ vs) = false

-- One round of the loop in `OnWrite` after `writev` took `ret` bytes.
pub wrote_some : ℕ → TcpConnection → TcpConnection
unfolding consume
wrote_some ret c =
    let c' = record c { io_vec_list = consume ret c.io_vec_list } in
    if no_vectors c'.io_vec_list then emit write_complete (emit (enable_write false) c') else c'

-- Has the loop ended?
pub data Progress : Type 0 where
  running finished : TcpConnection → Progress

pub write_loop : List Outcome → TcpConnection → Progress
write_loop [] c = running c
write_loop (wrote ret ∷ os) c = write_loop os (wrote_some ret c)
write_loop (refused e ∷ os) c = finished (if is_fatal e then on_close c else c)

pub on_write : List Outcome → TcpConnection → Progress
unfolding write_loop
on_write os c =
    if c.closed
    then finished c
    else if no_vectors c.io_vec_list
    then finished (emit write_complete (emit (enable_write false) c))
    else write_loop os c

-- `SendInLoop(list)`.
pub send_list_in_loop : List Iovec → TcpConnection → TcpConnection
send_list_in_loop nodes c =
    let c' = record c { io_vec_list = c.io_vec_list ++ nodes } in
    if c.closed then c else if no_vectors c'.io_vec_list then emit (enable_write true) c' else c'

-- The return value of `write` as the `size_t` that the code keeps it in: -1 is 2^64 - 1.
abbrev pub as_size : Outcome → ℕ
as_size (wrote n) = n
as_size (refused e) = 2 ^ 64 - 1

queue_rest : ℕ → ℕ → ℕ → TcpConnection → TcpConnection
queue_rest buf send_len size c =
    if ltb 0 size
    then emit (enable_write true) (record c {
      io_vec_list =
          c.io_vec_list ++ (record { iov_base = add_size buf send_len; iov_len = size } ∷ []);
    })
    else c

-- `SendInLoop(buf, size)`. The test `send_len < 0` of a `size_t` never holds.
pub send_in_loop : Outcome → ℕ → ℕ → TcpConnection → TcpConnection
unfolding queue_rest
send_in_loop answer buf size c =
    if c.closed
    then c
    else if no_vectors c.io_vec_list
    then (let left = sub_size size (as_size answer) in
        if left == 0 then emit write_complete c else queue_rest buf (as_size answer) left c)
    else queue_rest buf 0 size c

-- The state that the reading side adds: the input buffer, and what the message callback leaves of it.
pub record Reader : Type 0 where
  pub conn : TcpConnection
  pub message_buffer : MsgBuffer

-- `OnRead` with the kernel's answers and the message callback. The result says whether the loop has
-- ended.
pub read_loop : (MsgBuffer → MsgBuffer) → List Readv → Reader → Result (Bool × Reader)
read_loop message_cb [] r = ok (false, r)
read_loop message_cb (got [] ∷ rs) r = ok (true, record r { conn = on_close r.conn })
read_loop message_cb (failed errno ∷ rs) r =
    ok (true, if errno == 4 || errno == 11 then r else record r { conn = on_close r.conn })
read_loop message_cb (got (x ∷ xs) ∷ rs) r = read_fd (got (x ∷ xs)) r.message_buffer >>= λ a.
    read_loop message_cb rs (record r { message_buffer = message_cb a.1 })

pub on_read : (MsgBuffer → MsgBuffer) → List Readv → Reader → Result (Bool × Reader)
unfolding read_loop
on_read message_cb rs r = if r.conn.closed then ok (true, r) else read_loop message_cb rs r
