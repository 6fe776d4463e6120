-- ===== src/UdpClient.antt =====
-- src/network/UdpClient.cpp over the event loop of EventLoop. The client is the event at an address of
-- the loop; -1 is its 32 bits. What `socket` answers is an argument, and all calls are in the loop's
-- thread. The handlers of UdpSocket close through `OnClose`, which the client overrides; reading and
-- writing are in UdpSocket and touch nothing else of what is here.
pub mod Lifecycle
mod Examples
use tmms.Common.{ℕ, ◌+◌, Bool, true, false, Option, none, some, if◌then◌else◌}
use tmms.EventLoop.{EventLoop, add_event, del_event}
use tmms.UdpServer.{no_fd, set_fd}

-- `closed` and `close_calls` belong to the part of UdpSocket.
pub record UdpClient : Type 0 where
  pub loop : EventLoop
  pub connected : Bool
  pub closed : Bool
  pub has_close_cb : Bool
  pub close_calls : ℕ
  pub has_connected_cb : Bool
  pub connected_calls : ℕ

pub on_close : ℕ → UdpClient → UdpClient
unfolding set_fd
on_close a c =
    if c.connected
    then record c { loop = set_fd a no_fd (del_event a c.loop); connected = false }
    else c

-- `ConnectInLoop`. `connect` is asked and its answer not used.
pub connect_in_loop : ℕ → Option ℕ → UdpClient → UdpClient
unfolding on_close set_fd
connect_in_loop a none c = on_close a (record c { loop = set_fd a no_fd c.loop })
connect_in_loop a (some fd) c = record c {
  connected = true;
  loop = add_event a (set_fd a fd c.loop);
  connected_calls = if c.has_connected_cb then c.connected_calls + 1 else c.connected_calls;
}

-- The destructor: that of UdpSocket calls its own `OnClose`. A close callback is given a pointer from
-- `shared_from_this`, which is thrown for an object that nobody owns any more, and a destructor that
-- throws ends the program: `none`.
pub destroy : ℕ → UdpClient → Option UdpClient
unfolding set_fd
destroy a c =
    if c.closed
    then some c
    else if c.has_close_cb
    then none
    else some (record c { closed = true; loop = set_fd a no_fd c.loop })
