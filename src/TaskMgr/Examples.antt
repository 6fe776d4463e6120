-- ===== src/TaskMgr/Examples.antt =====
-- Runs of the task manager and examples of its theorems.
use tmms.Common.{
  ℕ, ◌+◌, ◌*◌, ◌≡◌, refl, ap, false, ◌&&◌, List, [], ◌∷◌, arith, ltb, ◌==◌, if◌then◌else◌,
}
use tmms.Sets.{has, NoDup}
use tmms.TaskMgr.{Task, new_task, restart, on_work}
use tmms.TaskMgr.Work.{filter, Own, on_work_lem}

-- Task 2 restarts itself when it is called, at the time 1000.
abbrev repeat_two : ℕ → (ℕ → Task) → ℕ → Task
repeat_two t s u =
    if (t == 2) && (u == t)
    then record { interval = (s u).interval; when = (s u).interval + 1000 }
    else s u

abbrev objects : ℕ → Task
objects t = record { interval = 500; when = 400 * t }

abbrev members : List ℕ
members = 1 ∷ 2 ∷ 3 ∷ []

work_run : (on_work repeat_two (λ t. 1000) members objects).1 ≡ 2 ∷ 3 ∷ []
unfolding on_work
work_run = refl

restarted : (restart 1000 2 objects 2).when ≡ 1500
unfolding restart
restarted = refl

created : (new_task 500 1000).when ≡ 1500
unfolding new_task
created = refl

repeat_two-Own : Own repeat_two
repeat_two-Own t s u ne =
    ap
      (λ b.
        (if b
          then record { interval = (s u).interval; when = (s u).interval + 1000 }
          else s u).when)
      {x = (t == 2) && (u == t)} {y = false} (ground arith)

members-NoDup : NoDup members
unfolding has
members-NoDup = (refl, (refl, (refl, _)))

on_work_lem_example :
    ((on_work repeat_two (λ t. 1000) members objects).2 ≡ 1 ∷ 2 ∷ [])
    × ((on_work repeat_two (λ t. 1000) members objects).1
        ≡ filter
            (λ u. ltb 1000 ((on_work repeat_two (λ t. 1000) members objects).0 u).when)
            members)
on_work_lem_example =
    on_work_lem repeat_two (λ t. 1000) members objects repeat_two-Own members-NoDup
