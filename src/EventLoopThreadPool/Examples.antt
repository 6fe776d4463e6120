-- ===== src/EventLoopThreadPool/Examples.antt =====
-- Runs of the pool and an example of its theorem.
use tmms.Common.{ℕ, ◌+◌, ◌^◌, ◌<◌, ◌≡◌, some}
use tmms.EventLoopThreadPool.{new_pool, get_next_loop}
use tmms.EventLoopThreadPool.Turns.{after_calls, next_loop_turns}

-- The fifth call on a pool of three threads.
next_loop_turns_example :
    let next_loop = (get_next_loop (after_calls 4 (new_pool (λ i. i + 10) 3 0 4))).0 in
    ((i : ℕ) × (i < 3) × (next_loop ≡ some (i + 10))) × (4 < 2 ^ 31 → next_loop ≡ some 11)
next_loop_turns_example = next_loop_turns (λ i. i + 10) 3 0 4 4
