-- ===== src/TaskMgr/Members.antt =====
-- The set of tasks of src/base/TaskMgr.cpp.
use tmms.Common.{ℕ, ◌≡◌, refl, inl, inr, true, ◌&&◌, ◌||◌, not, List, ◌==◌, Bool-cases}
use tmms.Sets.{has, NoDup, has-append, append-NoDup, has-erase, erase-NoDup, already}
use tmms.TaskMgr.{add, del}

-- `Add` and `Del` keep the tasks without repetition; `Add` puts the task in and says whether it
-- was new; `Del` takes out exactly this task and always answers true.
pub add-del :
    (t u : ℕ) (ts : List ℕ)
    → NoDup ts
    → NoDup (add t ts).0
      × NoDup (del t ts).0
      × (has u (add t ts).0 ≡ has u ts || (u == t))
      × ((add t ts).1 ≡ not (has t ts))
      × (has u (del t ts).0 ≡ has u ts && not (u == t))
      × ((del t ts).1 ≡ true)
unfolding add del
add-del t u ts d = elim (Bool-cases (has t ts)) [
  | inl held ↦ rw held (d, erase-NoDup t ts d, already t u ts held, refl, has-erase t u ts d, refl)
  | inr fresh ↦ rw fresh (
    append-NoDup t ts fresh d,
    erase-NoDup t ts d,
    has-append u t ts,
    refl,
    has-erase t u ts d,
    refl,
  )
]
