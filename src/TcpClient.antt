-- ===== src/TcpClient.antt =====
-- src/network/TcpClinet.cpp. The part of the event loop that the client uses is the set of
-- descriptors with an event. What the kernel answers is an argument, and so is the input buffer.
-- `OnClose` is virtual: where the connection's handlers close, the client's `OnClose` is called. All
-- calls are in the loop thread.
pub mod Lifecycle
pub mod Reconnect
mod Examples
use tmms.Common.{
  ℕ, ◌+◌, Bool, true, false, ◌&&◌, ◌||◌, not, Option, none, some, List, ◌==◌, if◌then◌else◌, Result,
  ok, ◌>>=◌, ◌>>◌,
}
use tmms.TcpConnection.{
  Outcome, enable_write, TcpConnection, emit, Progress, running, finished,
  on_write as write_connection, on_close as close_connection, send_in_loop, send_list_in_loop,
  Iovec, Reader, on_read as read_connection,
}
use tmms.MsgBuffer.{MsgBuffer}
use tmms.MsgBuffer.Socket.{Readv}

pub data Status : Type 0 where
  status_init connecting connected disconnected : Status

-- What `connect` answers.
pub data Answer : Type 0 where
  done in_progress failed : Answer

pub record TcpClient : Type 0 where
  pub status : Status
  pub fd : Option ℕ
  pub registered : ℕ → Bool
  pub conn : TcpConnection
  pub connected_calls : ℕ

-- The constructor; `conn` is that of the connection.
abbrev pub new_client : TcpConnection → TcpClient
new_client conn = record {
  status = status_init;
  fd = none;
  registered = λ k. false;
  conn = conn;
  connected_calls = 0;
}

abbrev pub is_active : Status → Bool
is_active status_init = false
is_active connecting = true
is_active connected = true
is_active disconnected = false

abbrev pub is_fd : ℕ → Option ℕ → Bool
is_fd k none = false
is_fd k (some fd) = k == fd

-- The set without or with the descriptor.
abbrev pub without : Option ℕ → (ℕ → Bool) → ℕ → Bool
without fd s k = s k && not (is_fd k fd)

abbrev pub with_fd : ℕ → (ℕ → Bool) → ℕ → Bool
with_fd fd s k = s k || (k == fd)

-- `OnClose` where the connection's part gives `conn`.
abbrev pub detach : TcpConnection → TcpClient → TcpClient
detach conn c = record c {
  status = disconnected;
  registered = if is_active c.status then without c.fd c.registered else c.registered;
  fd = if c.conn.closed then c.fd else none;
  conn = conn;
}

pub on_close : TcpClient → TcpClient
on_close c = detach (close_connection c.conn) c

pub update_connection_status : TcpClient → TcpClient
update_connection_status c = record c {
  status = connected;
  connected_calls = c.connected_calls + 1;
}

-- `socket` and `connect` answer the first two arguments.
pub connect_in_loop : Option ℕ → Answer → TcpClient → TcpClient
unfolding on_close update_connection_status
connect_in_loop none answer c = on_close (record c { fd = none })
connect_in_loop (some fd) answer c =
    let c' = record c {
      fd = some fd;
      status = connecting;
      registered = with_fd fd c.registered;
      conn = emit (enable_write true) c.conn;
    } in
    elim answer [ done ↦ update_connection_status c' | in_progress ↦ c' | failed ↦ on_close c' ]

-- The client after a handler of the connection has made `conn` of its part.
abbrev pub settle : TcpClient → TcpConnection → TcpClient
settle c conn = if conn.closed && not c.conn.closed then detach conn c else record c { conn = conn }

abbrev pub state : Progress → TcpConnection
state (running c) = c
state (finished c) = c

-- The branches of `OnWrite` by `status_`; `error` tells whether `SO_ERROR` is set.
write_as : Status → Bool → List Outcome → TcpClient → TcpClient
unfolding on_close update_connection_status
write_as connecting error os c = if error then on_close c else update_connection_status c
write_as connected error os c = settle c (state (write_connection os c.conn))
write_as _ error os c = c

pub on_write : Bool → List Outcome → TcpClient → TcpClient
unfolding write_as
on_write error os c = write_as c.status error os c

-- The branches of `OnRead` by `status_`, with the input buffer of the connection.
read_as :
    Status
    → Bool
    → (MsgBuffer → MsgBuffer)
    → List Readv
    → MsgBuffer
    → TcpClient
    → Result (TcpClient × MsgBuffer)
unfolding on_close update_connection_status
read_as connecting error message_cb rs b c =
    ok (if error then on_close c else update_connection_status c, b)
read_as connected error message_cb rs b c = do
  (_, r) ← read_connection message_cb rs (record { conn = c.conn; message_buffer = b })
  ok (settle c r.conn, r.message_buffer)
read_as _ error message_cb rs b c = ok (c, b)

pub on_read :
    Bool
    → (MsgBuffer → MsgBuffer)
    → List Readv
    → MsgBuffer
    → TcpClient
    → Result (TcpClient × MsgBuffer)
unfolding read_as
on_read error message_cb rs b c = read_as c.status error message_cb rs b c

-- `f` of the connection, in the state `connected` only.
abbrev if_connected : Status → (TcpConnection → TcpConnection) → TcpClient → TcpClient
if_connected connected f c = record c { conn = f c.conn }
if_connected _ f c = c

pub send : Outcome → ℕ → ℕ → TcpClient → TcpClient
send answer buf size c = if_connected c.status (send_in_loop answer buf size) c

pub send_list : List Iovec → TcpClient → TcpClient
send_list nodes c = if_connected c.status (send_list_in_loop nodes) c
