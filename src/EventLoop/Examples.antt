-- ===== src/EventLoop/Examples.antt =====
-- Tests of src/network/net/EventLoop.cpp, and theorems applied to a loop with two events.
use tmms.Common.{◌+◌, ◌≡◌, refl, true, false, none, some, []}
use tmms.EventLoop.{EventLoop, Mask, event_read, Ready, dispatch, on_read, choose, update}
use tmms.EventLoop.Registered.{Agrees, change-Agrees, change, adds, interest}

abbrev idle_mask : Mask
idle_mask = record { epoll_in = false; epoll_pri = false; epoll_out = false; epoll_et = false }

-- Event object number `a` has the descriptor `a + 5`.
abbrev fresh_loop : EventLoop
fresh_loop = record {
  events = λ fd. none;
  objects = λ a. record { fd = a + 5; event = idle_mask };
  calls = [];
  functions = [];
  executed = [];
  wakeups = 0;
  looping = true;
}

fresh_loop-Agrees : Agrees fresh_loop
unfolding interest
fresh_loop-Agrees = record { own_fd = λ fd a e. cc; same_mask = λ fd. refl }

-- The event of object 1 is registered for reading.
abbrev watched : EventLoop
watched = record fresh_loop {
  events = update (λ fd. none) 6 (some 1);
  objects = λ a. record { fd = a + 5; event = event_read };
}

both_ready : Ready
both_ready = record {
  epoll_err = false;
  epoll_hup = false;
  epoll_in = true;
  epoll_pri = false;
  epoll_out = true;
}

dispatch_runs : dispatch 6 both_ready watched ≡ some (1, on_read)
unfolding dispatch choose both_ready
dispatch_runs = refl

change-Agrees_example : Agrees (change (adds 1) fresh_loop)
change-Agrees_example = change-Agrees (adds 1) fresh_loop fresh_loop-Agrees (λ b e. cc)
