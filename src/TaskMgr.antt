-- ===== src/TaskMgr.antt =====
-- src/base/Task.cpp and src/base/TaskMgr.cpp. A task is known by its address, and the objects are a
-- function of it; times are milliseconds from 0 on. Callbacks are an argument: what `cb` makes of the
-- objects when it is called with a task. The lock is held while they run, so that they leave the set
-- alone. `clock t` is the time that `OnWork` reads when it comes to `t`. The order of the list is the
-- order in which the set is walked.
pub mod Work
pub mod Members
mod Examples
use tmms.Sets.{has, erase}
use tmms.Common.{ℕ, ◌+◌, Bool, true, false, ◌&&◌, List, [], ◌∷◌, ◌++◌, leb, ◌==◌, if◌then◌else◌}

pub record Task : Type 0 where
  pub interval : ℕ
  pub when : ℕ

-- A new task at the time `now`.
pub new_task : ℕ → ℕ → Task
new_task interval now = record { interval = interval; when = now + interval }

pub restart : ℕ → ℕ → (ℕ → Task) → ℕ → Task
restart now t s u =
    if u == t then record { interval = (s t).interval; when = (s t).interval + now } else s u

pub add : ℕ → List ℕ → List ℕ × Bool
add t tasks = if has t tasks then (tasks, false) else (tasks ++ (t ∷ []), true)

pub del : ℕ → List ℕ → List ℕ × Bool
del t tasks = (erase t tasks, true)

-- The loop of `OnWork`: the objects after it, the tasks that stay in the set, and those that were
-- run, in order.
pub on_work :
    (ℕ → (ℕ → Task) → ℕ → Task) → (ℕ → ℕ) → List ℕ → (ℕ → Task) → (ℕ → Task) × List ℕ × List ℕ
on_work cb clock [] s = (s, [], [])
on_work cb clock (t ∷ ts) s =
    let due = leb (s t).when (clock t) in
    let s' = (if due then cb t s else s) in
    let rest = on_work cb clock ts s' in
    (
      rest.0,
      if due && leb (s' t).when (clock t) then rest.1 else t ∷ rest.1,
      if due then t ∷ rest.2 else rest.2,
    )
