-- ===== src/TimingWheel/Examples.antt =====
-- Tests of src/network/net/TimingWheel.cpp, and theorems applied to small wheels.
use tmms.Common.{◌+◌, ◌≡◌, refl, some, [], ◌∷◌, arith}
use tmms.TimingWheel.{
  insert_delay, once, TimingWheel, init, run_after, run_every, insert_entry, ticks, on_tick,
  on_timer, ran_once, ran_every, destroyed, shared, pop_up, pop_if, pop_slots, release, release_all,
  insert_second_entry, emplace_at,
}
use tmms.TimingWheel.Shape.{same-IsValid, IsValid}
use tmms.TimingWheel.Kept.{init-IsValid, insert_entry-IsValid, on_timer-IsValid}
use tmms.TimingWheel.Count.{pending, runs}
use tmms.TimingWheel.RunAfter.{run_after_schedule, runs-on_tick}
use tmms.TimingWheel.Drift.{run_after_early}

-- A callback every two seconds, a timeout that is put off once, and a call after three seconds.
abbrev script : TimingWheel
script =
    run_every 2 7
      (insert_entry 4 (some (shared 9)) (insert_entry 2 (some (shared 9)) (run_after 3 1 init)))

script_runs : (ticks 4 script).ran ≡ ran_every 7 ∷ ran_once 1 ∷ destroyed 9 ∷ ran_every 7 ∷ []
unfolding ticks on_tick run_every run_after insert_entry insert_second_entry emplace_at pop_up
    pop_if pop_slots release_all release init
script_runs = refl

on_timer-IsValid_example : IsValid (on_timer 1005 (on_timer 1000 init))
on_timer-IsValid_example =
    on_timer-IsValid 1005 (on_timer 1000 init) (on_timer-IsValid 1000 init init-IsValid)

run_after_schedule_example :
    runs 1 (ticks 3 (run_after 3 1 init)).ran ≡ runs 1 (ticks 3 init).ran + 1
unfolding init
run_after_schedule_example = run_after_schedule 3 1 3 init init-IsValid (omega arith) (omega arith)

-- 65 seconds asked for at tick 59 are over after six ticks.
abbrev late_in_minute : TimingWheel
late_in_minute = record init { tick = 59 }

run_after_early_example :
    runs 1 (ticks 6 (run_after 65 1 late_in_minute)).ran ≡ runs 1 (ticks 6 late_in_minute).ran + 1
unfolding init
run_after_early_example =
    run_after_early 65 1 6 late_in_minute (same-IsValid init 0 59 [] init-IsValid) (omega arith)
      (omega arith) (ground arith)

runs-on_tick_example :
    runs 1 (on_tick (run_after 1 1 init)).ran
    ≡ runs 1 (run_after 1 1 init).ran
      + pending (run_after 1 1 init) ((run_after 1 1 init).tick + 1) 1
runs-on_tick_example =
    runs-on_tick 1 (run_after 1 1 init)
      (unfold run_after in insert_entry-IsValid 1 (some (once 1)) init init-IsValid)
      (unfold init run_after insert_entry insert_second_entry insert_delay in omega arith)
