-- ===== src/EventLoopThread/Examples.antt =====
-- Runs of a loop thread and examples of its theorems.
use tmms.Common.{◌≡◌, refl, true, false, some}
use tmms.EventLoopThread.{
  waiting, starting, published, promising, looping, getting, returned, joining, ThreadState,
  new_thread, looper_step, owner_step, runs, calls, Steps, stop, step,
}
use tmms.EventLoopThread.Handshake.{has_left, loop_after_run, looper_runs, run_returns}
use tmms.EventLoopThread.Shutdown.{quit_lost}

-- The thread waits before the owner calls `Run`.
abbrev asked : ThreadState
asked = record {
  looper = waiting;
  owner = getting;
  running = true;
  notified = true;
  has_loop = false;
  has_value = false;
  is_looping = false;
}

asked_steps : Steps new_thread asked
unfolding looper_step owner_step
asked_steps =
    step (record new_thread { looper = waiting }) asked
      (step new_thread (record new_thread { looper = waiting }) stop (runs _ refl)) (calls _ refl)

abbrev promised : ThreadState
promised = record asked { looper = promising; has_loop = true; has_value = true }

promised_steps : Steps new_thread promised
unfolding looper_step owner_step
promised_steps =
    step (record asked { looper = published; has_loop = true }) promised
      (step (record asked { looper = starting })
        (record asked { looper = published; has_loop = true })
        (step asked (record asked { looper = starting }) asked_steps (runs _ refl)) (runs _ refl))
      (runs _ refl)

-- `Run` has returned, and `Loop` has not begun.
abbrev early : ThreadState
early = record promised { owner = returned }

early_steps : Steps new_thread early
unfolding owner_step
early_steps = step promised early promised_steps (calls _ refl)

loop_after_run_example : (early.has_loop ≡ true) × (has_left early.looper ≡ false)
loop_after_run_example = loop_after_run early early_steps refl

run_returns_example :
    (t : ThreadState) × (looper_runs 3 asked ≡ some t) × (t.owner ≡ getting) × (t.has_value ≡ true)
run_returns_example = run_returns asked asked_steps refl

-- The destructor runs at once, and then the loop begins.
abbrev quitting : ThreadState
quitting = record early { owner = joining }

quits : owner_step early.owner early ≡ some quitting
unfolding owner_step
quits = refl

begins : Steps quitting (record quitting { looper = looping; is_looping = true })
unfolding looper_step
begins = step quitting (record quitting { looper = looping; is_looping = true }) stop (runs _ refl)

quit_lost_example : (record quitting { looper = looping; is_looping = true }).owner ≡ joining
quit_lost_example =
    quit_lost early quitting (record quitting { looper = looping; is_looping = true }) refl refl
      quits begins
