-- ===== src/UdpClient/Examples.antt =====
-- A run of a client and an example of its theorem.
use tmms.Common.{ℕ, ◌≡◌, ◌↔◌, refl, true, false, none, some, []}
use tmms.EventLoop.{EventLoop, event_read, set_mask, ctl, add_event, del_event}
use tmms.UdpServer.{set_fd}
use tmms.UdpClient.{UdpClient, on_close, connect_in_loop, destroy}
use tmms.UdpClient.Lifecycle.{Steps, stop, step, connects, closes, expected, lifetime}

abbrev empty_loop : EventLoop
empty_loop = record {
  events = λ k. none;
  objects = λ a. record { fd = 0; event = event_read };
  calls = [];
  functions = [];
  executed = [];
  wakeups = 0;
  looping = true;
}

-- A client with a close callback.
abbrev start : UdpClient
start = record {
  loop = empty_loop;
  connected = false;
  closed = false;
  has_close_cb = true;
  close_calls = 0;
  has_connected_cb = true;
  connected_calls = 0;
}

abbrev connected_once : UdpClient
connected_once = connect_in_loop 100 (some 5) start

abbrev closed_once : UdpClient
closed_once = on_close 100 connected_once

is_idle : closed_once.connected ≡ false
unfolding on_close connect_in_loop
is_idle = refl

unused : closed_once.loop.events 6 ≡ none
unfolding on_close connect_in_loop set_fd add_event del_event set_mask ctl
unused = refl

-- Connected, closed, and connected again.
calls : Steps 100 start (connect_in_loop 100 (some 6) closed_once)
calls =
    step closed_once (connect_in_loop 100 (some 6) closed_once)
      (step connected_once closed_once (step start connected_once stop (connects 5 refl refl))
        closes)
      (connects 6 is_idle unused)

lifetime_example :
    let c = connect_in_loop 100 (some 6) closed_once in
    ((j : ℕ) → c.loop.events j ≡ expected 100 start c j)
    × (c.close_calls ≡ 0)
    × (destroy 100 c ≡ none ↔ true ≡ true)
lifetime_example = lifetime 100 start (connect_in_loop 100 (some 6) closed_once) refl refl calls
