-- ===== src/EventLoopThreadPool/Turns.antt =====
-- The round robin of src/network/net/EventLoopThreadPool.cpp.
use tmms.Common.{
  ℕ, zero, suc, ◌+◌, ◌%◌, ◌^◌, ◌<◌, ◌≡◌, refl, ap, ap₂, ◌∙◌, some, List, [], ◌∷◌, arith, length,
  get_elem?, ◌==◌, if◌then◌else◌,
}
use tmms.EventLoopThreadPool.{
  new_pool, size, as_size, EventLoopThread, EventLoopThreadPool, new_threads, get_loops,
  get_next_loop,
}

-- The pool after so many calls of `GetNextLoop`.
pub after_calls : ℕ → EventLoopThreadPool → EventLoopThreadPool
unfolding get_next_loop
after_calls zero p = p
after_calls (suc m) p = after_calls m (get_next_loop p).1

after_calls_lem :
    (m : ℕ) (p : EventLoopThreadPool)
    → p.loop_index < 2 ^ 32
    → ((after_calls m p).threads ≡ p.threads)
      × ((after_calls m p).loop_index ≡ (p.loop_index + m) % 2 ^ 32)
unfolding after_calls get_next_loop
after_calls_lem zero p h = (refl, ground arith)
after_calls_lem (suc m) p h =
    let (t, i) = after_calls_lem m (get_next_loop p).1 (ground arith) in (t, i ∙ ground arith)

length-get_loops : (ts : List EventLoopThread) → length (get_loops ts) ≡ length ts
unfolding get_loops
length-get_loops [] = refl
length-get_loops (t ∷ ts) = ap suc (length-get_loops ts)

get_elem?-in_range : (xs : List ℕ) (i : ℕ) → i < length xs → (x : ℕ) × (get_elem? xs i ≡ some x)
get_elem?-in_range [] i h = absurd (omega arith)
get_elem?-in_range (x ∷ xs) zero h = (x, refl)
get_elem?-in_range (x ∷ xs) (suc i) h = get_elem?-in_range xs i (omega arith)

new_threads_lem :
    (loop_of : ℕ → ℕ) (start cpus i n : ℕ) → length (new_threads loop_of start cpus i n) ≡ n
unfolding new_threads
new_threads_lem loop_of start cpus i zero = refl
new_threads_lem loop_of start cpus i (suc n) = ap suc (new_threads_lem loop_of start cpus (i + 1) n)

loops-new_threads :
    (loop_of : ℕ → ℕ) (start cpus i n k : ℕ)
    → k < n
    → get_elem? (get_loops (new_threads loop_of start cpus i n)) k ≡ some (loop_of (i + k))
unfolding new_threads get_loops
loops-new_threads loop_of start cpus i zero k h = absurd (omega arith)
loops-new_threads loop_of start cpus i (suc n) zero h =
    ap (λ j. some (loop_of j)) {x = i} (omega arith)
loops-new_threads loop_of start cpus i (suc n) (suc k) h =
    loops-new_threads loop_of start cpus (i + 1) n k (omega arith)
    ∙ ap (λ j. some (loop_of j)) {x = i + 1 + k} (omega arith)

abbrev threads_of : ℕ → ℕ
threads_of n = if n == 0 then 1 else n

module _ (loop_of : ℕ → ℕ) (n start cpus m : ℕ) where
  abbrev turn : EventLoopThreadPool
  turn = after_calls m (new_pool loop_of n start cpus)

  threads-turn : turn.threads ≡ new_threads loop_of start cpus 0 (threads_of n)
  unfolding new_pool
  threads-turn = (after_calls_lem m (new_pool loop_of n start cpus) (omega arith)).0

  index-turn : turn.loop_index ≡ m % 2 ^ 32
  unfolding new_pool
  index-turn = (after_calls_lem m (new_pool loop_of n start cpus) (omega arith)).1 ∙ ground arith

  next-turn : (get_next_loop turn).0 ≡ some (loop_of (as_size (m % 2 ^ 32) % threads_of n))
  unfolding get_next_loop size
  next-turn =
      ap₂ (λ ts i. get_elem? (get_loops ts) (as_size i % length ts)) threads-turn index-turn
      ∙ ap
          (λ k.
            get_elem? (get_loops (new_threads loop_of start cpus 0 (threads_of n)))
              (as_size (m % 2 ^ 32) % k))
          (new_threads_lem loop_of start cpus 0 (threads_of n))
      ∙ loops-new_threads loop_of start cpus 0 (threads_of n) (as_size (m % 2 ^ 32) % threads_of n)
          (ground arith)
      ∙ ap (λ k. some (loop_of k)) {x = 0 + as_size (m % 2 ^ 32) % threads_of n} (omega arith)

-- However often `GetNextLoop` has been called on a new pool, also when its counter has wrapped, it
-- returns the loop of one of the pool's threads; the calls before the counter reaches 2^31 take the
-- threads in turn.
pub next_loop_turns :
    (loop_of : ℕ → ℕ) (n start cpus m : ℕ)
    → let count = if n == 0 then 1 else n in
      let next_loop = (get_next_loop (after_calls m (new_pool loop_of n start cpus))).0 in
      ((i : ℕ) × (i < count) × (next_loop ≡ some (loop_of i)))
      × (m < 2 ^ 31 → next_loop ≡ some (loop_of (m % count)))
next_loop_turns loop_of n start cpus m = (
  (as_size (m % 2 ^ 32) % threads_of n, ground arith, next-turn loop_of n start cpus m),
  λ h.
      next-turn loop_of n start cpus m
      ∙ ap (λ k. some (loop_of (k % threads_of n))) {x = as_size (m % 2 ^ 32)} (ground arith),
)
