-- ===== src/LoopTimers.antt =====
-- `InsertEntry`, `RunAfter` and `RunEvery` of src/network/net/EventLoop.cpp, which hand an entry to
-- the wheel in the loop's thread, and to the queue of functions in another. A queued function is what
-- it will do. A delay is the `uint32_t` that the wheel makes of it.
pub mod Posted
mod Examples
use tmms.Common.{ℕ, ◌+◌, Bool, false, Option, List, [], ◌∷◌, ◌++◌, if◌then◌else◌}
use tmms.TimingWheel.{Payload}
use tmms.TimingWheel
use tmms.TimingWheel.{TimingWheel}

-- The functions that these calls queue, and any other.
pub data Command : Type 0 where
  insert_entry : ℕ → Option Payload → Command
  run_after run_every : ℕ → ℕ → Command
  user : ℕ → Command

-- What a thread asks the loop for: a command, which tests the thread, or `RunAfter` of a function that
-- is moved, by its delay and function, which does not.
pub data Request : Type 0 where
  posts : Command → Request
  moved : ℕ → ℕ → Request

-- `called` are the other functions that have run, newest first.
pub record TimerLoop : Type 0 where
  pub wheel : TimingWheel
  pub functions : List Command
  pub called : List ℕ
  pub wakeups : ℕ

-- What a command does in the loop's thread.
pub perform : Command → TimerLoop → TimerLoop
perform (insert_entry delay p) l = record l { wheel = TimingWheel.insert_entry delay p l.wheel }
perform (run_after delay cb) l = record l { wheel = TimingWheel.run_after delay cb l.wheel }
perform (run_every interval cb) l = record l { wheel = TimingWheel.run_every interval cb l.wheel }
perform (user f) l = record l { called = f ∷ l.called }

-- `RunInLoop`.
pub run_in_loop : Bool → Command → TimerLoop → TimerLoop
unfolding perform
run_in_loop in_loop_thread f l =
    if in_loop_thread
    then perform f l
    else record l { functions = l.functions ++ (f ∷ []); wakeups = l.wakeups + 1 }

-- The three calls with a test of the thread.
pub insert : Bool → ℕ → Option Payload → TimerLoop → TimerLoop
unfolding run_in_loop
insert in_loop_thread delay p l =
    if in_loop_thread
    then record l { wheel = TimingWheel.insert_entry delay p l.wheel }
    else run_in_loop false (insert_entry delay p) l

pub after : Bool → ℕ → ℕ → TimerLoop → TimerLoop
unfolding run_in_loop
after in_loop_thread delay cb l =
    if in_loop_thread
    then record l { wheel = TimingWheel.run_after delay cb l.wheel }
    else run_in_loop false (run_after delay cb) l

pub every : Bool → ℕ → ℕ → TimerLoop → TimerLoop
unfolding run_in_loop
every in_loop_thread interval cb l =
    if in_loop_thread
    then record l { wheel = TimingWheel.run_every interval cb l.wheel }
    else run_in_loop false (run_every interval cb) l

-- `RunAfter` of a function that is moved does not test the thread.
pub after_moved : ℕ → ℕ → TimerLoop → TimerLoop
after_moved delay cb l = record l { wheel = TimingWheel.run_after delay cb l.wheel }

-- `RunFuctions`.
pub run_queue : List Command → TimerLoop → TimerLoop
unfolding perform
run_queue [] l = l
run_queue (f ∷ fs) l = run_queue fs (record (perform f l) { functions = fs })

pub run_functions : TimerLoop → TimerLoop
unfolding run_queue
run_functions l = run_queue l.functions l
