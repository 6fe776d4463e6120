-- ===== src/TcpConnection/Closed.antt =====
-- A closed connection of src/network/net/TcpConnection.cpp.
use tmms.Common.{ℕ, ◌≡◌, ap, true, List, arith, if◌then◌else◌, ok}
use tmms.MsgBuffer.{MsgBuffer}
use tmms.MsgBuffer.Socket.{Readv}
use tmms.TcpConnection.{
  Reader, on_read, read_loop, Iovec, Outcome, TcpConnection, on_close, finished, on_write,
  send_list_in_loop, send_in_loop,
}

-- A connection closes once: a second `OnClose` changes nothing.
pub on_close_once : (c : TcpConnection) → on_close (on_close c) ≡ on_close c
unfolding on_close
on_close_once c = ground arith

-- A connection that is closed.
module _ (c : TcpConnection) (shut : c.closed ≡ true) where
  pub on_write_closed : (os : List Outcome) → on_write os c ≡ finished c
  unfolding on_write
  on_write_closed os = simp shut

  pub send_in_loop_closed : (o : Outcome) (buf size : ℕ) → send_in_loop o buf size c ≡ c
  unfolding send_in_loop
  send_in_loop_closed o buf size = simp shut

  pub send_list_closed : (nodes : List Iovec) → send_list_in_loop nodes c ≡ c
  unfolding send_list_in_loop
  send_list_closed nodes = simp shut

  pub on_close_closed : on_close c ≡ c
  unfolding on_close
  on_close_closed = simp shut

-- Reading from a closed connection does nothing.
pub on_read_closed :
    (message_cb : MsgBuffer → MsgBuffer) (rs : List Readv) (r : Reader)
    → r.conn.closed ≡ true
    → on_read message_cb rs r ≡ ok (true, r)
unfolding on_read
on_read_closed message_cb rs r shut =
    ap (λ b. if b then ok (true, r) else read_loop message_cb rs r) shut
