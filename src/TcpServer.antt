-- ===== src/TcpServer.antt =====
-- src/network/TcpServer.cpp over the event loop of EventLoop. A connection is its address, at which
-- the loop's event object with its descriptor lies. The descriptor of a closed connection, which the
-- code sets to -1, is not read again, and stays as it was here. All calls are in the loop thread.
pub mod Connections
pub mod Serving
mod Examples
use tmms.Common.{ℕ, Bool, true, false, ◌&&◌, List, ◌∷◌, if◌then◌else◌}
use tmms.Sets.{has, erase}
use tmms.EventLoop.{Event, EventLoop, Mask, update, add_event, del_event}

-- What a connection is given by `OnAccept`.
pub record Callbacks : Type 0 where
  pub message : Bool
  pub write_complete : Bool
  pub active : Bool

-- The calls of the user's callbacks, and of `EnableCheckTimeout`, newest first.
pub data Effect : Type 0 where
  new_connection destroy_connection : ℕ → Effect
  check_timeout : ℕ → ℕ → Effect

-- `made` are the connections that `OnAccept` has made, and `closed` is their `closed_`.
pub record TcpServer : Type 0 where
  pub loop : EventLoop
  pub connections : List ℕ
  pub made : List ℕ
  pub closed : ℕ → Bool
  pub given : ℕ → Callbacks
  pub callbacks : Callbacks
  pub effects : List Effect

abbrev no_events : Mask
no_events = record { epoll_in = false; epoll_pri = false; epoll_out = false; epoll_et = false }

-- `std::make_shared<TcpConnection>` at the address `a`, with the callbacks that are set: the active
-- callback depends on the message callback.
new_connection_at : ℕ → ℕ → TcpServer → TcpServer
new_connection_at a fd s = record s {
  loop = record s.loop {
    objects = update s.loop.objects a (record { fd = fd; event = no_events });
  };
  made = a ∷ s.made;
  closed = update s.closed a false;
  given = update s.given a (record {
    message = s.callbacks.message;
    write_complete = s.callbacks.write_complete;
    active = s.callbacks.message && s.callbacks.active;
  });
}

pub on_accept : ℕ → ℕ → TcpServer → TcpServer
unfolding new_connection_at
on_accept a fd s =
    let s' = new_connection_at a fd s in
    record s' {
      connections = a ∷ s'.connections;
      loop = add_event a s'.loop;
      effects = new_connection a ∷ check_timeout a 30 ∷ s'.effects;
    }

pub on_connection_close : ℕ → TcpServer → TcpServer
on_connection_close a s = record s {
  connections = erase a s.connections;
  loop = del_event a s.loop;
  effects = destroy_connection a ∷ s.effects;
}

-- `TcpConnection::OnClose` with the close callback that `OnAccept` sets.
pub on_close : ℕ → TcpServer → TcpServer
unfolding on_connection_close
on_close a s =
    if s.closed a then s else on_connection_close a (record s { closed = update s.closed a true })
