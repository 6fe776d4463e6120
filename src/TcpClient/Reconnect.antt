-- ===== src/TcpClient/Reconnect.antt =====
-- A client of src/network/TcpClinet.cpp that has been closed once.
use tmms.Common.{
  ℕ, ◌≡◌, refl, sym, ap, subst, Bool, true, false, ◌&&◌, not, Option, none, some, List,
  if◌then◌else◌, ok, ◌>>=◌,
}
use tmms.MsgBuffer.{MsgBuffer}
use tmms.MsgBuffer.Socket.{Readv}
use tmms.TcpConnection.{
  Reader, Outcome, TcpConnection, Iovec, emit, enable_write, on_close as close_connection,
  on_write as write_connection, send_in_loop, send_list_in_loop,
}
use tmms.TcpConnection.Closed.{
  on_read_closed, on_write_closed, send_in_loop_closed, send_list_closed, on_close_closed,
}
use tmms.TcpClient.{
  read_as, on_read, Status, status_init, connecting, connected, disconnected, Answer, done,
  in_progress, failed, TcpClient, detach, on_close, update_connection_status, connect_in_loop,
  settle, write_as, if_connected, on_write, send, send_list, state,
}
use tmms.TcpClient.Lifecycle.{
  from_ok, reads, Step, connects, writes, sends, sends_list, closes, Steps, stop, step,
}

-- The connection is closed and these vectors wait.
Stuck : List Iovec → TcpConnection → Type 0
Stuck vs conn = (conn.closed ≡ true) × (conn.io_vec_list ≡ vs)

module _ (vs : List Iovec) where
  close-Stuck : (conn : TcpConnection) → Stuck vs conn → Stuck vs (close_connection conn)
  unfolding Stuck
  close-Stuck conn (shut, wait) = subst (Stuck vs) (sym (on_close_closed conn shut)) (shut, wait)

  write-Stuck :
      (os : List Outcome) (conn : TcpConnection)
      → Stuck vs conn
      → Stuck vs (state (write_connection os conn))
  unfolding Stuck
  write-Stuck os conn (shut, wait) =
      subst (λ p. Stuck vs (state p)) (sym (on_write_closed conn shut os)) (shut, wait)

  send-Stuck :
      (o : Outcome) (buf size : ℕ) (conn : TcpConnection)
      → Stuck vs conn
      → Stuck vs (send_in_loop o buf size conn)
  unfolding Stuck
  send-Stuck o buf size conn (shut, wait) =
      subst (Stuck vs) (sym (send_in_loop_closed conn shut o buf size)) (shut, wait)

  send_list-Stuck :
      (nodes : List Iovec) (conn : TcpConnection)
      → Stuck vs conn
      → Stuck vs (send_list_in_loop nodes conn)
  unfolding Stuck
  send_list-Stuck nodes conn (shut, wait) =
      subst (Stuck vs) (sym (send_list_closed conn shut nodes)) (shut, wait)

  connect-Stuck :
      (s : Option ℕ) (a : Answer) (c : TcpClient)
      → Stuck vs c.conn
      → Stuck vs (connect_in_loop s a c).conn
  unfolding Stuck connect_in_loop on_close update_connection_status
  connect-Stuck none a c h = close-Stuck c.conn h
  connect-Stuck (some fd) done c h = h
  connect-Stuck (some fd) in_progress c h = h
  connect-Stuck (some fd) failed c h = close-Stuck (emit (enable_write true) c.conn) h

  write_as-Stuck :
      (s : Status) (error : Bool) (os : List Outcome) (c : TcpClient)
      → Stuck vs c.conn
      → Stuck vs (write_as s error os c).conn
  unfolding write_as on_close update_connection_status
  write_as-Stuck status_init error os c h = h
  write_as-Stuck connecting true os c h = close-Stuck c.conn h
  write_as-Stuck connecting false os c h = h
  write_as-Stuck connected error os c h =
      settled (state (write_connection os c.conn)) (write-Stuck os c.conn h)
    where
      settled : (conn : TcpConnection) → Stuck vs conn → Stuck vs (settle c conn).conn
      settled conn k =
          elim (conn.closed && not c.conn.closed)
            as (λ b. Stuck vs (if b then detach conn c else record c { conn = conn }).conn) [
              | true ↦ k
              | false ↦ k
            ]
  write_as-Stuck disconnected error os c h = h

  read_as-Stuck :
      (s : Status) (error : Bool) (message_cb : MsgBuffer → MsgBuffer) (rs : List Readv)
      (b : MsgBuffer) (c : TcpClient)
      → Stuck vs c.conn
      → Stuck vs (from_ok c (read_as s error message_cb rs b c)).conn
  unfolding read_as on_close update_connection_status Stuck
  read_as-Stuck status_init error message_cb rs b c h = h
  read_as-Stuck connecting true message_cb rs b c h = close-Stuck c.conn h
  read_as-Stuck connecting false message_cb rs b c h = h
  read_as-Stuck connected error message_cb rs b c h =
      let r : Reader = record { conn = c.conn; message_buffer = b } in
      subst (λ o. Stuck vs (from_ok c (o >>= λ p. ok (settle c p.1.conn, p.1.message_buffer))).conn)
        (sym (on_read_closed message_cb rs r h.0)) (settled c.conn h)
    where
      settled : (conn : TcpConnection) → Stuck vs conn → Stuck vs (settle c conn).conn
      settled conn k =
          elim (conn.closed && not c.conn.closed)
            as (λ b. Stuck vs (if b then detach conn c else record c { conn = conn }).conn) [
              | true ↦ k
              | false ↦ k
            ]
  read_as-Stuck disconnected error message_cb rs b c h = h

  if_connected-Stuck :
      (s : Status) (f : TcpConnection → TcpConnection) (c : TcpClient)
      → Stuck vs c.conn
      → Stuck vs (f c.conn)
      → Stuck vs (if_connected s f c).conn
  if_connected-Stuck status_init f c h k = h
  if_connected-Stuck connecting f c h k = h
  if_connected-Stuck connected f c h k = k
  if_connected-Stuck disconnected f c h k = h

  Step-Stuck : (c d : TcpClient) → Step c d → Stuck vs c.conn → Stuck vs d.conn
  unfolding on_write on_read on_close send send_list
  Step-Stuck c d (connects s a idle) h = connect-Stuck s a c h
  Step-Stuck c d (writes error os) h = write_as-Stuck c.status error os c h
  Step-Stuck c _ (reads error message_cb rs b b' d e) h =
      subst (λ x. Stuck vs x.conn) (ap (from_ok c) e)
        (read_as-Stuck c.status error message_cb rs b c h)
  Step-Stuck c d (sends o buf size) h =
      if_connected-Stuck c.status (send_in_loop o buf size) c h (send-Stuck o buf size c.conn h)
  Step-Stuck c d (sends_list nodes) h =
      if_connected-Stuck c.status (send_list_in_loop nodes) c h (send_list-Stuck nodes c.conn h)
  Step-Stuck c d closes h = close-Stuck c.conn h

  Steps-Stuck : (c d : TcpClient) → Steps c d → Stuck vs c.conn → Stuck vs d.conn
  Steps-Stuck c d stop h = h
  Steps-Stuck c d (step b e run last) h = Step-Stuck b e last (Steps-Stuck c b run h)

-- A client whose connection has been closed stays closed whatever is called afterwards, `Connect`
-- included, and nothing is added to or taken from what waits to be sent.
pub closed_stays :
    (c d : TcpClient)
    → Steps c d
    → c.conn.closed ≡ true
    → (d.conn.closed ≡ true) × (d.conn.io_vec_list ≡ c.conn.io_vec_list)
unfolding Stuck
closed_stays c d run shut = Steps-Stuck c.conn.io_vec_list c d run (shut, refl)
