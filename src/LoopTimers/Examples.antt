-- ===== src/LoopTimers/Examples.antt =====
-- Examples of the theorems on timers that other threads ask for.
use tmms.Common.{◌≡◌, refl, true, false, some, List, [], ◌∷◌}
use tmms.TimingWheel
use tmms.TimingWheel.{shared}
use tmms.LoopTimers.{
  Command, Request, posts, moved, insert_entry, run_after, run_every, user, TimerLoop, after_moved,
  run_functions,
}
use tmms.LoopTimers.Posted.{ask_all, request_all, run_functions-ask_all}

-- A function of another thread waits.
abbrev waiting : TimerLoop
waiting = record { wheel = TimingWheel.init; functions = user 5 ∷ []; called = []; wakeups = 1 }

abbrev calls : List Request
calls =
    posts (run_after 3 1)
    ∷ moved 5 2
    ∷ posts (insert_entry 4 (some (shared 9)))
    ∷ posts (run_every 2 7)
    ∷ posts (user 6)
    ∷ []

-- The same calls in the order in which the loop's thread would make them.
abbrev in_order : List Command
in_order =
    run_after 5 2
    ∷ user 5
    ∷ run_after 3 1
    ∷ insert_entry 4 (some (shared 9))
    ∷ run_every 2 7
    ∷ user 6
    ∷ []

-- A moved function changes the wheel at once, and an entry from another thread does not.
moved_at_once : (after_moved 3 1 waiting).wheel ≡ TimingWheel.run_after 3 1 TimingWheel.init
unfolding after_moved
moved_at_once = refl

run_functions-ask_all_example :
    let posted = request_all false calls waiting in
    let done = run_functions posted in
    let direct = ask_all true in_order waiting in
    (posted.wheel ≡ (ask_all true (run_after 5 2 ∷ []) waiting).wheel)
    × (posted.wakeups ≡ 5)
    × (done.wheel ≡ direct.wheel)
    × (done.called ≡ direct.called)
run_functions-ask_all_example = run_functions-ask_all calls waiting
