-- ===== src/EventLoopThreadPool.antt =====
-- src/network/net/EventLoopThreadPool.cpp. A thread is the number of its loop and the processor that
-- it is bound to. Negative numbers of threads and processors are 0 here, which the code treats
-- alike; `start` is not negative.
pub mod Turns
mod Examples
use tmms.Common.{
  ℕ, zero, suc, ◌+◌, ◌-◌, ◌%◌, ◌^◌, Option, none, some, List, [], ◌∷◌, length, get_elem?, ltb, ◌==◌,
  if◌then◌else◌,
}

pub record EventLoopThread : Type 0 where
  pub loop : ℕ
  pub cpu : Option ℕ

-- `loop_index` holds the 32 bits of `loop_index_`.
pub record EventLoopThreadPool : Type 0 where
  pub threads : List EventLoopThread
  pub loop_index : ℕ

-- The thread that a round of the constructor's loop makes, whose loop is that of the argument.
abbrev pub new_thread : ℕ → ℕ → ℕ → ℕ → EventLoopThread
new_thread loop start cpus i = record {
  loop = loop;
  cpu = if ltb 0 cpus then some ((start + i) % cpus) else none;
}

-- The loop of the constructor; the argument gives the loops of the threads.
pub new_threads : (ℕ → ℕ) → ℕ → ℕ → ℕ → ℕ → List EventLoopThread
new_threads loop_of start cpus i zero = []
new_threads loop_of start cpus i (suc n) =
    new_thread (loop_of i) start cpus i ∷ new_threads loop_of start cpus (i + 1) n

pub new_pool : (ℕ → ℕ) → ℕ → ℕ → ℕ → EventLoopThreadPool
unfolding new_threads
new_pool loop_of thread_num start cpus = record {
  threads = new_threads loop_of start cpus 0 (if thread_num == 0 then 1 else thread_num);
  loop_index = 0;
}

pub get_loops : List EventLoopThread → List ℕ
get_loops [] = []
get_loops (t ∷ ts) = t.loop ∷ get_loops ts

pub size : EventLoopThreadPool → ℕ
size p = length p.threads

-- An `int` as the `size_t` that `%` converts it to.
abbrev pub as_size : ℕ → ℕ
as_size n = if ltb n (2 ^ 31) then n else 2 ^ 64 - 2 ^ 32 + n

-- `none` stands for an access behind the end.
pub get_next_loop : EventLoopThreadPool → Option ℕ × EventLoopThreadPool
unfolding size get_loops
get_next_loop p = (
  get_elem? (get_loops p.threads) (as_size p.loop_index % size p),
  record p { loop_index = (p.loop_index + 1) % 2 ^ 32 },
)
