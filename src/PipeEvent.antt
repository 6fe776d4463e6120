-- ===== src/PipeEvent.antt =====
-- src/network/net/PipeEvent.cpp, and the wake-up of src/network/net/EventLoop.cpp that writes to it.
-- The pipe of the kernel is a parameter. `address` is that of the event that `WakeUp` makes, and `fd`
-- its end of the pipe for reading. A lock makes each call of `RunInLoop` one step.
pub mod Pipes
pub mod Drain
pub mod Awake
mod Examples
use tmms.Common.{ℕ, zero, suc, ◌+◌, Bool, true, false, Option, none, some, if◌then◌else◌}
use tmms.EventLoop.{EventLoop, Mask, update, add_event, run_in_loop, run_functions}

-- What `read` of 8 bytes answers: bytes, the end of the file, EAGAIN, another error.
pub data ReadAnswer : Type 0 where
  got : ℕ → ReadAnswer
  end_of_file again failed : ReadAnswer

pub data WriteAnswer : Type 0 where
  taken full broken : WriteAnswer

-- The calls on a pipe that does not block, and three observations: whether epoll would report it,
-- whether its end for writing is open, and how many bytes it holds.
pub record Pipe : Type 1 where
  pub State : Type 0
  pub pipe2 : State
  pub read : State → ReadAnswer × State
  pub write : State → WriteAnswer × State
  pub close_write : State → State
  pub is_readable : State → Bool
  pub has_writer : State → Bool
  pub held : State → ℕ

-- `write_open`: `write_fd_` is above 0. `errors` counts the calls of `OnError`, which only logs.
pub record PipeEvent : Type 0 where
  pub write_open : Bool
  pub errors : ℕ

abbrev pub new_pipe_event : PipeEvent
new_pipe_event = record { write_open = true; errors = 0 }

unfoldable pub on_error : PipeEvent → PipeEvent
on_error e = record e { errors = e.errors + 1 }

module _ (P : Pipe) where
  open P use {State, pipe2, read, write, close_write}

  pub on_close : PipeEvent → State → PipeEvent × State
  on_close e s = if e.write_open then (record e { write_open = false }, close_write s) else (e, s)

  -- A round of `OnRead` after `read` has answered, where `rest` is what the next rounds give.
  abbrev pub read_turn :
      Option (PipeEvent × State) → ReadAnswer → PipeEvent → State → Option (PipeEvent × State)
  unfolding on_close on_error
  read_turn rest (got n) e s = rest
  read_turn rest end_of_file e s = some (on_close e s)
  read_turn rest again e s = some (e, s)
  read_turn rest failed e s = some (on_error e, s)

  -- `OnRead` for so many rounds; `none` if it has not returned by then.
  pub on_read : ℕ → PipeEvent → State → Option (PipeEvent × State)
  unfolding read_turn
  on_read zero e s = none
  on_read (suc rounds) e s =
      let rest = on_read rounds e (read s).1 in read_turn rest (read s).0 e (read s).1

  -- After `write` has answered.
  abbrev pub written : PipeEvent → WriteAnswer × State → PipeEvent × State
  unfolding on_error
  written e (taken, s) = (e, s)
  written e (full, s) = (e, s)
  written e (broken, s) = (on_error e, s)

  -- `Write`; on descriptor -1 it fails.
  pub write_event : PipeEvent → State → PipeEvent × State
  unfolding written on_error
  write_event e s = if e.write_open then written e (write s) else (on_error e, s)

  -- The loop with its `pipe_event_`, and the pipe.
  pub record Waker : Type 0 where
    pub loop : EventLoop
    pub pipe_event : Option PipeEvent
    pub pipe : State

  abbrev pub no_mask : Mask
  no_mask = record { epoll_in = false; epoll_pri = false; epoll_out = false; epoll_et = false }

  module _ (address fd : ℕ) where
    -- `std::make_shared<PipeEvent>` and `AddEvent`.
    pub create : EventLoop → EventLoop
    create l =
        add_event address
          (record l { objects = update l.objects address (record { fd = fd; event = no_mask }) })

    pub written_to : PipeEvent → Waker → Waker
    unfolding write_event
    written_to e w =
        let (e', s') = write_event e w.pipe in record w { pipe_event = some e'; pipe = s' }

    -- `WakeUp`, for what `pipe_event_` is.
    pub wake_up_as : Option PipeEvent → Waker → Waker
    unfolding create written_to
    wake_up_as none w = written_to new_pipe_event (record w { loop = create w.loop; pipe = pipe2 })
    wake_up_as (some e) w = written_to e w

    pub wake_up : Waker → Waker
    unfolding wake_up_as
    wake_up w = wake_up_as w.pipe_event w

    -- `RunInLoop` from another thread, and in the loop's.
    pub post : ℕ → Waker → Waker
    unfolding wake_up
    post f w = wake_up (record w { loop = run_in_loop false f w.loop })

    pub call : ℕ → Waker → Waker
    call f w = record w { loop = run_in_loop true f w.loop }

    -- `OnRead` of the pipe event, called by the loop, for what `pipe_event_` is.
    abbrev pub after_read : Waker → Option (PipeEvent × State) → Option Waker
    after_read w none = none
    after_read w (some (e, s)) = some (record w { pipe_event = some e; pipe = s })

    pub read_event_as : ℕ → Option PipeEvent → Waker → Option Waker
    unfolding on_read
    read_event_as rounds none w = some w
    read_event_as rounds (some e) w = after_read w (on_read rounds e w.pipe)

    pub read_event : ℕ → Waker → Option Waker
    unfolding read_event_as
    read_event rounds w = read_event_as rounds w.pipe_event w

    pub run : Waker → Waker
    run w = record w { loop = run_functions w.loop }
