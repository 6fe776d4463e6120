-- ===== src/PipeEvent/Examples.antt =====
-- Runs of the wake-up and examples of its theorems.
use tmms.Common.{ℕ, ◌≡◌, refl, ap, Bool, true, false, none, some, [], ◌∷◌, ◌++◌}
use mathlib.Core.List.{reverse}
use tmms.EventLoop.{EventLoop, run_in_loop, add_event}
use tmms.PipeEvent.{PipeEvent, new_pipe_event, on_read, Waker, post, run}
use tmms.PipeEvent.Pipes.{small, small-IsPipe}
use tmms.PipeEvent.Drain.{Drained, on_read_returns}
use tmms.PipeEvent.Awake.{
  idle, waiting, Reached, starts, posts, has_functions, Reports, no_lost_wake_up,
}

abbrev empty_loop : EventLoop
empty_loop = record {
  events = λ k. none;
  objects = λ k. record {
    fd = 0;
    event = record { epoll_in = false; epoll_pri = false; epoll_out = false; epoll_et = false };
  };
  calls = [];
  functions = [];
  executed = [];
  wakeups = 0;
  looping = true;
}

on_read_returns_example :
    (r : PipeEvent × (ℕ × Bool)) × (on_read small 3 new_pipe_event (2, true) ≡ some r)
    × Drained small small-IsPipe new_pipe_event r
on_read_returns_example = on_read_returns small small-IsPipe new_pipe_event (2, true) refl

-- Two functions from other threads.
abbrev posted : Waker small
posted = post small 9 5 8 (post small 9 5 7 (idle empty_loop (0, true)))

posted-Reached : Reached small 9 5 waiting posted
posted-Reached =
    posts waiting 8 (post small 9 5 7 (idle empty_loop (0, true)))
      (posts waiting 7 (idle empty_loop (0, true)) (starts empty_loop (0, true) refl))

posted_run : posted.loop.functions ≡ 7 ∷ 8 ∷ []
unfolding post run_in_loop add_event
posted_run = refl

no_lost_wake_up_example :
    Reports small small-IsPipe 9 5 posted
    × ((run small 9 5 posted).loop.executed ≡ reverse posted.loop.functions ++ posted.loop.executed)
    × ((run small 9 5 posted).loop.functions ≡ [])
no_lost_wake_up_example =
    no_lost_wake_up small small-IsPipe 9 5 posted posted-Reached (ap has_functions posted_run)
