-- ===== src/EventLoop/Functions.antt =====
-- The queue of functions that other threads hand to the loop of src/network/net/EventLoop.cpp.
use tmms.Common.{
  ℕ, ◌+◌, ◌≡◌, refl, sym, ap, ap₂, ◌∙◌, Bool, true, false, List, [], ◌∷◌, ◌++◌, append-nil,
  append_assoc, arith, length,
}
use mathlib.Core.List.{reverse, reverse-cons}
use tmms.EventLoop.{EventLoop, run_in_loop, run_functions, run_queue, wake_up}

-- Calls of `RunInLoop` from other threads, one after another.
pub post_all : List ℕ → EventLoop → EventLoop
post_all [] l = l
post_all (f ∷ fs) l = post_all fs (run_in_loop false f l)

post_all_lem :
    (fs : List ℕ) (l : EventLoop)
    → ((post_all fs l).functions ≡ l.functions ++ fs)
      × ((post_all fs l).executed ≡ l.executed)
      × ((post_all fs l).wakeups ≡ l.wakeups + length fs)
unfolding post_all run_in_loop wake_up
post_all_lem [] l = (sym (append-nil l.functions), refl, omega arith)
post_all_lem (f ∷ fs) l =
    let (q, e, n) = post_all_lem fs (run_in_loop false f l) in
    (q ∙ append_assoc l.functions (f ∷ []) fs, e, omega (arith, n))

run_queue_lem :
    (fs : List ℕ) (l : EventLoop)
    → l.functions ≡ fs
    → ((run_queue fs l).executed ≡ reverse fs ++ l.executed) × ((run_queue fs l).functions ≡ [])
unfolding run_queue
run_queue_lem [] l e = (refl, e)
run_queue_lem (f ∷ fs) l e =
    let (x, q) = run_queue_lem fs (record l { executed = f ∷ l.executed; functions = fs }) refl in
    (
      x
          ∙ sym (
              ap (λ ys. ys ++ l.executed) (reverse-cons f fs)
              ∙ append_assoc (reverse fs) (f ∷ []) l.executed),
      q,
    )

-- Functions that other threads post one after another wake the loop once each, none runs before
-- `RunFuctions`, and that runs each of them exactly once, in the order of posting, behind those
-- already queued, and leaves the queue empty. (`executed` is newest first.)
pub run_functions-post_all :
    (fs : List ℕ) (l : EventLoop)
    → ((post_all fs l).executed ≡ l.executed)
      × ((post_all fs l).wakeups ≡ l.wakeups + length fs)
      × ((run_functions (post_all fs l)).executed ≡ reverse (l.functions ++ fs) ++ l.executed)
      × ((run_functions (post_all fs l)).functions ≡ [])
unfolding run_functions
run_functions-post_all fs l =
    let (q, e, n) = post_all_lem fs l in
    let (x, r) = run_queue_lem (post_all fs l).functions (post_all fs l) refl in
    (e, n, x ∙ ap₂ (λ a b. reverse a ++ b) q e, r)

-- Neither running functions nor `RunInLoop` changes the table of events.
events-run_queue : (fs : List ℕ) (l : EventLoop) → (run_queue fs l).events ≡ l.events
unfolding run_queue
events-run_queue [] l = refl
events-run_queue (f ∷ fs) l =
    events-run_queue fs (record l { executed = f ∷ l.executed; functions = fs })

pub events-run_functions : (l : EventLoop) → (run_functions l).events ≡ l.events
unfolding run_functions
events-run_functions l = events-run_queue l.functions l

pub functions-run_functions : (l : EventLoop) → (run_functions l).functions ≡ []
unfolding run_functions
functions-run_functions l = (run_queue_lem l.functions l refl).1

pub events-run_in_loop : (b : Bool) (f : ℕ) (l : EventLoop) → (run_in_loop b f l).events ≡ l.events
unfolding run_in_loop wake_up
events-run_in_loop true f l = refl
events-run_in_loop false f l = refl

pub executed-run_functions :
    (l : EventLoop) → (run_functions l).executed ≡ reverse l.functions ++ l.executed
unfolding run_functions
executed-run_functions l = (run_queue_lem l.functions l refl).0
