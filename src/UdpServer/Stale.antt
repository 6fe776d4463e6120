-- ===== src/UdpServer/Stale.antt =====
-- What a closed server of src/network/UdpServer.cpp leaves in the event loop.
use tmms.Common.{ℕ, ◌≡◌, ◌∙◌, true, false, none, some, List, [], ◌∷◌, arith}
use tmms.EventLoop.{EventLoop, add_event}
use tmms.EventLoop.Table.{events-add_event, events-del_event, fd-add_event}
use tmms.UdpSocket
use tmms.UdpSocket.{UdpSocket}
use tmms.UdpServer.{UdpServer, no_fd, set_fd, on_close, open_socket, stop}

-- `Stop`, and `OnClose` as a handler calls it.
pub data Call : Type 0 where
  stops closes : Call

abbrev pub call : ℕ → Call → UdpServer → UdpServer
unfolding stop on_close
call a stops s = stop a s
call a closes s = on_close a s

pub run : ℕ → List Call → UdpServer → UdpServer
unfolding call
run a [] s = s
run a (c ∷ cs) s = run a cs (call a c s)

abbrev after : ℕ → UdpServer → UdpServer
after a s = record { loop = set_fd a no_fd s.loop; socket = UdpSocket.on_close s.socket }

-- A server that is opened with a descriptor that is new to the loop and then stopped leaves the table of
-- events as it was.
pub open_socket-stop :
    (a fd : ℕ) (s : UdpServer)
    → s.socket.closed ≡ false
    → s.loop.events fd ≡ none
    → let t = stop a (open_socket a (some fd) s) in
      ((j : ℕ) → t.loop.events j ≡ s.loop.events j) × (t.socket.closed ≡ true)
unfolding stop open_socket set_fd on_close UdpSocket.on_close
open_socket-stop a fd s opened unused =
    let l = set_fd a fd s.loop in
    let own : (l.objects a).fd ≡ fd = ground arith in
    let own' = fd-add_event a a l ∙ own in
    (
      λ j. ground (
        arith,
        opened,
        events-add_event a fd l own unused j,
        events-del_event a fd (add_event a l) own' j,
      ),
      ground (arith, opened),
    )
