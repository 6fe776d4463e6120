-- ===== src/TcpClient/Lifecycle.antt =====
-- The descriptor that a client of src/network/TcpClinet.cpp has in the event loop.
use tmms.Common.{
  ℕ, ◌≡◌, refl, sym, ap, ◌∙◌, subst, Bool, true, false, ◌&&◌, not, Option, none, some, List, arith,
  if◌then◌else◌, Result, ok, fault, ◌>>=◌,
}
use tmms.MsgBuffer.{MsgBuffer}
use tmms.MsgBuffer.Socket.{Readv}
use tmms.TcpConnection.{
  Reader, on_read as read_connection, Outcome, TcpConnection, Iovec, on_close as close_connection,
  on_write as write_connection, send_in_loop, send_list_in_loop,
}
use tmms.TcpClient.{
  read_as, on_read, Status, status_init, connecting, connected, disconnected, Answer, done,
  in_progress, failed, TcpClient, is_active, is_fd, without, detach, on_close,
  update_connection_status, connect_in_loop, settle, write_as, if_connected, on_write, send,
  send_list, state, new_client,
}

-- The calls that the loop and the user make. A client connects when it is not active.
pub data Step (c : TcpClient) : TcpClient → Type 0 where
  connects :
      (s : Option ℕ) (a : Answer) → is_active c.status ≡ false → Step c (connect_in_loop s a c)
  writes : (error : Bool) (os : List Outcome) → Step c (on_write error os c)
  reads :
      (error : Bool) (message_cb : MsgBuffer → MsgBuffer) (rs : List Readv) (b b' : MsgBuffer)
      (d : TcpClient)
      → on_read error message_cb rs b c ≡ ok (d, b')
      → Step c d
  sends : (o : Outcome) (buf size : ℕ) → Step c (send o buf size c)
  sends_list : (nodes : List Iovec) → Step c (send_list nodes c)
  closes : Step c (on_close c)

pub data Steps (c : TcpClient) : TcpClient → Type 0 where
  stop : Steps c c
  step : (d e : TcpClient) → Steps c d → Step d e → Steps c e

-- The loop has the client's descriptor while the client is active, and no other.
pub Owns : TcpClient → Type 0
Owns c = (k : ℕ) → c.registered k ≡ is_active c.status && is_fd k c.fd

unregistered : (active held mine : Bool) → held ≡ active && mine → (active ≡ false) → held ≡ false
unregistered active held mine own idle = ground arith

detach-Owns : (conn : TcpConnection) (c : TcpClient) → Owns c → Owns (detach conn c)
unfolding Owns
detach-Owns conn c own k = without_own (is_active c.status) (own k)
  where
    without_own :
        (active : Bool)
        → c.registered k ≡ active && is_fd k c.fd
        → (if active then without c.fd c.registered else c.registered) k ≡ false
    without_own true h = ground (arith, h)
    without_own false h = h

update-Owns : (c : TcpClient) → c.status ≡ connecting → Owns c → Owns (update_connection_status c)
unfolding Owns update_connection_status
update-Owns c e own k = own k ∙ ap (λ s. is_active s && is_fd k c.fd) e

connect_in_loop-Owns :
    (s : Option ℕ) (a : Answer) (c : TcpClient)
    → is_active c.status ≡ false
    → Owns c
    → Owns (connect_in_loop s a c)
unfolding Owns connect_in_loop on_close update_connection_status
connect_in_loop-Owns none a c idle own k =
    detach-Owns (close_connection c.conn) (record c { fd = none }) nothing k
  where
    nothing : Owns (record c { fd = none })
    nothing j =
        unregistered (is_active c.status) (c.registered j) (is_fd j c.fd) (own j) idle
        ∙ sym (ap (λ b. b && false) idle)
connect_in_loop-Owns (some fd) done c idle own k =
    ground (arith, unregistered (is_active c.status) (c.registered k) (is_fd k c.fd) (own k) idle)
connect_in_loop-Owns (some fd) in_progress c idle own k =
    ground (arith, unregistered (is_active c.status) (c.registered k) (is_fd k c.fd) (own k) idle)
connect_in_loop-Owns (some fd) failed c idle own k =
    ground (arith, unregistered (is_active c.status) (c.registered k) (is_fd k c.fd) (own k) idle)

settle-Owns : (conn : TcpConnection) (c : TcpClient) → Owns c → Owns (settle c conn)
unfolding Owns
settle-Owns conn c own =
    elim (conn.closed && not c.conn.closed)
      as (λ b. Owns (if b then detach conn c else record c { conn = conn })) [
        | true ↦ detach-Owns conn c own
        | false ↦ own
      ]

write_as-Owns :
    (s : Status) (error : Bool) (os : List Outcome) (c : TcpClient)
    → c.status ≡ s
    → Owns c
    → Owns (write_as s error os c)
unfolding write_as on_close Owns
write_as-Owns status_init error os c e own = own
write_as-Owns connecting true os c e own = detach-Owns (close_connection c.conn) c own
write_as-Owns connecting false os c e own = update-Owns c e own
write_as-Owns connected error os c e own = settle-Owns (state (write_connection os c.conn)) c own
write_as-Owns disconnected error os c e own = own

-- What a result is, if it is one.
abbrev pub from_ok : TcpClient → Result (TcpClient × MsgBuffer) → TcpClient
from_ok c (fault f) = c
from_ok c (ok (d, b)) = d

read_as-Owns :
    (s : Status) (error : Bool) (message_cb : MsgBuffer → MsgBuffer) (rs : List Readv)
    (b : MsgBuffer) (c : TcpClient)
    → c.status ≡ s
    → Owns c
    → Owns (from_ok c (read_as s error message_cb rs b c))
unfolding read_as on_close Owns
read_as-Owns status_init error message_cb rs b c e own = own
read_as-Owns connecting true message_cb rs b c e own = detach-Owns (close_connection c.conn) c own
read_as-Owns connecting false message_cb rs b c e own = update-Owns c e own
read_as-Owns connected error message_cb rs b c e own =
    settled (read_connection message_cb rs (record { conn = c.conn; message_buffer = b }))
  where
    settled :
        (o : Result (Bool × Reader))
        → Owns (from_ok c (o >>= λ p. ok (settle c p.1.conn, p.1.message_buffer)))
    settled (fault f) = own
    settled (ok (_, r)) = settle-Owns r.conn c own
read_as-Owns disconnected error message_cb rs b c e own = own

if_connected-Owns :
    (s : Status) (f : TcpConnection → TcpConnection) (c : TcpClient)
    → Owns c
    → Owns (if_connected s f c)
unfolding Owns
if_connected-Owns status_init f c own = own
if_connected-Owns connecting f c own = own
if_connected-Owns connected f c own = own
if_connected-Owns disconnected f c own = own

Step-Owns : (c d : TcpClient) → Step c d → Owns c → Owns d
unfolding on_write on_read on_close send send_list
Step-Owns c d (connects s a idle) own = connect_in_loop-Owns s a c idle own
Step-Owns c d (writes error os) own = write_as-Owns c.status error os c refl own
Step-Owns c _ (reads error message_cb rs b b' d h) own =
    subst Owns (ap (from_ok c) h) (read_as-Owns c.status error message_cb rs b c refl own)
Step-Owns c d (sends o buf size) own = if_connected-Owns c.status (send_in_loop o buf size) c own
Step-Owns c d (sends_list nodes) own = if_connected-Owns c.status (send_list_in_loop nodes) c own
Step-Owns c d closes own = detach-Owns (close_connection c.conn) c own

Steps-Owns : (c d : TcpClient) → Steps c d → Owns c → Owns d
Steps-Owns c d stop own = own
Steps-Owns c d (step b e run last) own = Step-Owns b e last (Steps-Owns c b run own)

-- After any calls of a new client, `Connect` being called only while it is not active, the loop has
-- the client's descriptor if the client is connecting or connected, and no descriptor otherwise.
pub new_client-Owns : (conn : TcpConnection) (d : TcpClient) → Steps (new_client conn) d → Owns d
unfolding Owns
new_client-Owns conn d run = Steps-Owns (new_client conn) d run (λ k. refl)
