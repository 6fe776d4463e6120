-- ===== src/Acceptor.antt =====
-- src/network/net/Acceptor.cpp. Of the event loop it uses the set of descriptors with an event. What
-- the kernel answers is an argument; `exit` is `none`. All calls are in the loop thread. The
-- connections that are handed to the accept callback are recorded, oldest first.
pub mod Listens
mod Examples
use tmms.Common.{ℕ, ◌+◌, Bool, Option, none, some, List, [], ◌∷◌, ◌++◌}
use tmms.InetAddress.{InetAddress}
use tmms.SocketOpt.{AddressText, SockAddr, unset, accept}
use tmms.TcpConnection.{Errno, eintr, eagain, other}
use tmms.TcpClient.{is_fd, with_fd, without}

pub record Acceptor : Type 0 where
  pub fd : Option ℕ
  pub socket_opt : Option ℕ
  pub registered : ℕ → Bool
  pub accepted : List (ℕ × InetAddress)

-- `Open`; `socket` answers the argument. A socket that is open is closed, and 0 never is one.
pub open_socket : Option ℕ → Acceptor → Option Acceptor
open_socket none a = none
open_socket (some sock) a =
    some
      (record a { fd = some sock; socket_opt = some sock; registered = with_fd sock a.registered })

pub stop : Acceptor → Acceptor
stop a = record a { registered = without a.fd a.registered }

pub start : Option ℕ → Acceptor → Option Acceptor
unfolding open_socket
start sock a = open_socket sock a

pub on_close : Option ℕ → Acceptor → Option Acceptor
unfolding stop start
on_close sock a = start sock (stop a)

pub on_error : Option ℕ → Acceptor → Option Acceptor
unfolding on_close
on_error sock a = on_close sock a

-- What `accept4` answers: a descriptor with the peer's address, or an errno. EWOULDBLOCK is EAGAIN.
pub data Accepted : Type 0 where
  connection : ℕ → SockAddr → Accepted
  failed : Errno → Accepted

pub data Outcome : Type 0 where
  running finished : Option Acceptor → Outcome

module _ (t : AddressText) where
  -- The call of the accept callback.
  abbrev pub hand_over : ℕ → SockAddr → Acceptor → Acceptor
  hand_over sock from a = record a {
    accepted = a.accepted ++ ((sock, (accept t (some sock) from unset).1) ∷ []);
  }

  -- The loop of `OnRead`; `sock` is what `socket` answers if the acceptor opens again.
  pub accept_loop : Option ℕ → List Accepted → Acceptor → Outcome
  unfolding on_close
  accept_loop sock [] a = running (some a)
  accept_loop sock (connection c from ∷ rs) a = accept_loop sock rs (hand_over c from a)
  accept_loop sock (failed eintr ∷ rs) a = finished (some a)
  accept_loop sock (failed eagain ∷ rs) a = finished (some a)
  accept_loop sock (failed other ∷ rs) a = finished (on_close sock a)

  pub on_read : Option ℕ → List Accepted → Acceptor → Outcome
  unfolding accept_loop
  on_read sock rs a = elim a.socket_opt [
    | none ↦ finished (some a)
    | some o ↦ accept_loop sock rs a
  ]
