-- ===== src/UdpServer.antt =====
-- src/network/UdpServer.cpp and the closing of UdpSocket.cpp and Event.cpp, over the event loop of
-- EventLoop. The server is the event at an address of the loop; -1 is its 32 bits. What `socket`
-- answers is an argument, and all calls are in the loop's thread. The result of `bind` is not used.
pub mod Stale
mod Examples
use tmms.Common.{ℕ, Option, none, some, if◌then◌else◌}
use tmms.EventLoop.{EventLoop, update, add_event, del_event}
use tmms.UdpSocket.{UdpSocket}
use tmms.UdpSocket

pub record UdpServer : Type 0 where
  pub loop : EventLoop
  pub socket : UdpSocket

-- A descriptor of -1.
abbrev pub no_fd : ℕ
no_fd = 4294967295

-- `fd_ = fd` for the event at an address.
unfoldable pub set_fd : ℕ → ℕ → EventLoop → EventLoop
set_fd a fd l = record l { objects = update l.objects a (record (l.objects a) { fd = fd }) }

-- `UdpSocket::OnClose` with the part of `Event::Close`, also called by `OnError` and `OnTimeout`.
pub on_close : ℕ → UdpServer → UdpServer
unfolding set_fd
on_close a s =
    if s.socket.closed
    then s
    else record { loop = set_fd a no_fd s.loop; socket = UdpSocket.on_close s.socket }

-- `Open`.
pub open_socket : ℕ → Option ℕ → UdpServer → UdpServer
unfolding on_close set_fd
open_socket a none s = on_close a (record s { loop = set_fd a no_fd s.loop })
open_socket a (some fd) s = record s { loop = add_event a (set_fd a fd s.loop) }

-- The function that `Stop` hands to the loop.
pub stop : ℕ → UdpServer → UdpServer
unfolding on_close
stop a s = on_close a (record s { loop = del_event a s.loop })
