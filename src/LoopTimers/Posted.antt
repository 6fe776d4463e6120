-- ===== src/LoopTimers/Posted.antt =====
-- Timers of src/network/net/EventLoop.cpp that other threads ask for.
use tmms.Common.{
  ◌+◌, ◌≡◌, refl, sym, ap, ap₂, ◌∙◌, Bool, true, false, List, [], ◌∷◌, ◌++◌, append-nil,
  append_assoc, arith, length,
}
use tmms.TimingWheel
use tmms.LoopTimers.{
  Command, insert_entry, run_after, run_every, user, TimerLoop, perform, run_in_loop, insert, after,
  every, after_moved, run_queue, run_functions, Request, posts, moved,
}

-- A command that the loop is asked for, by whether its own thread asks.
pub ask : Bool → Command → TimerLoop → TimerLoop
unfolding insert after every run_in_loop
ask here (insert_entry delay p) l = insert here delay p l
ask here (run_after delay cb) l = after here delay cb l
ask here (run_every interval cb) l = every here interval cb l
ask here (user f) l = run_in_loop here (user f) l

pub ask_all : Bool → List Command → TimerLoop → TimerLoop
unfolding ask
ask_all here [] l = l
ask_all here (c ∷ cs) l = ask_all here cs (ask here c l)

pub request : Bool → Request → TimerLoop → TimerLoop
unfolding ask after_moved
request here (posts c) l = ask here c l
request here (moved delay cb) l = after_moved delay cb l

pub request_all : Bool → List Request → TimerLoop → TimerLoop
unfolding request
request_all here [] l = l
request_all here (r ∷ rs) l = request_all here rs (request here r l)

-- The commands that are posted, and the timers of moved functions.
abbrev pub posts_of : List Request → List Command
posts_of [] = []
posts_of (posts c ∷ rs) = c ∷ posts_of rs
posts_of (moved delay cb ∷ rs) = posts_of rs

abbrev pub moved_of : List Request → List Command
moved_of [] = []
moved_of (posts c ∷ rs) = moved_of rs
moved_of (moved delay cb ∷ rs) = run_after delay cb ∷ moved_of rs

ask_there :
    (c : Command) (l : TimerLoop)
    → ask false c l ≡ record l { functions = l.functions ++ (c ∷ []); wakeups = l.wakeups + 1 }
unfolding ask
ask_there (insert_entry delay p) l = refl
ask_there (run_after delay cb) l = refl
ask_there (run_every interval cb) l = refl
ask_there (user f) l = refl

ask_here : (c : Command) (l : TimerLoop) → ask true c l ≡ perform c l
unfolding ask
ask_here (insert_entry delay p) l = refl
ask_here (run_after delay cb) l = refl
ask_here (run_every interval cb) l = refl
ask_here (user f) l = refl

-- What the queue holds does not matter to what a command does to the wheel.
abbrev Same : TimerLoop → TimerLoop → Type 0
Same l m = (l.wheel ≡ m.wheel) × (l.called ≡ m.called)

perform-Same : (c : Command) (l m : TimerLoop) → Same l m → Same (perform c l) (perform c m)
unfolding perform
perform-Same (insert_entry delay p) l m (w, f) = (ap (TimingWheel.insert_entry delay p) w, f)
perform-Same (run_after delay cb) l m (w, f) = (ap (TimingWheel.run_after delay cb) w, f)
perform-Same (run_every interval cb) l m (w, f) = (ap (TimingWheel.run_every interval cb) w, f)
perform-Same (user g) l m (w, f) = (w, ap (◌∷◌ g) f)

run_queue-Same :
    (cs : List Command) (l m : TimerLoop) → Same l m → Same (run_queue cs l) (ask_all true cs m)
unfolding run_queue ask_all
run_queue-Same [] l m same = same
run_queue-Same (c ∷ cs) l m same =
    let (w, f) = perform-Same c l m same in
    run_queue-Same cs (record (perform c l) { functions = cs }) (ask true c m)
      (w ∙ ap (λ x. x.wheel) (sym (ask_here c m)), f ∙ ap (λ x. x.called) (sym (ask_here c m)))

ask_all-Same :
    (cs : List Command) (l m : TimerLoop) → Same l m → Same (ask_all true cs l) (ask_all true cs m)
unfolding ask_all
ask_all-Same [] l m same = same
ask_all-Same (c ∷ cs) l m same =
    let (w, f) = perform-Same c l m same in
    ask_all-Same cs (ask true c l) (ask true c m) (
      ap (λ x. x.wheel) (ask_here c l) ∙ w ∙ ap (λ x. x.wheel) (sym (ask_here c m)),
      ap (λ x. x.called) (ask_here c l) ∙ f ∙ ap (λ x. x.called) (sym (ask_here c m)),
    )

ask_all-append :
    (cs ds : List Command) (l : TimerLoop)
    → ask_all true (cs ++ ds) l ≡ ask_all true ds (ask_all true cs l)
unfolding ask_all
ask_all-append [] ds l = refl
ask_all-append (c ∷ cs) ds l = ask_all-append cs ds (ask true c l)

-- Timers run none of the functions.
called-moved_of :
    (rs : List Request) (l : TimerLoop) → (ask_all true (moved_of rs) l).called ≡ l.called
unfolding ask_all ask after
called-moved_of [] l = refl
called-moved_of (posts c ∷ rs) l = called-moved_of rs l
called-moved_of (moved delay cb ∷ rs) l = called-moved_of rs (after true delay cb l)

-- Posting only queues, and a moved function enters the wheel at once.
request_all_there :
    (rs : List Request) (l : TimerLoop)
    → request_all false rs l ≡ record l {
      wheel = (ask_all true (moved_of rs) l).wheel;
      functions = l.functions ++ posts_of rs;
      wakeups = l.wakeups + length (posts_of rs);
    }
unfolding request_all ask_all
request_all_there [] l = ground (arith, append-nil l.functions)
request_all_there (posts c ∷ rs) l =
    let m : TimerLoop = record l { functions = l.functions ++ (c ∷ []); wakeups = l.wakeups + 1 } in
    ap (request_all false rs) (ask_there c l)
    ∙ request_all_there rs m
    ∙ ap₂
        (λ w fs. record l {
          wheel = w;
          functions = fs;
          wakeups = l.wakeups + 1 + length (posts_of rs);
        })
        (ask_all-Same (moved_of rs) m l (refl, refl)).0
        (append_assoc l.functions (c ∷ []) (posts_of rs))
    ∙ ap
        (λ n. record l {
          wheel = (ask_all true (moved_of rs) l).wheel;
          functions = l.functions ++ (c ∷ posts_of rs);
          wakeups = n;
        })
        (omega arith)
request_all_there (moved delay cb ∷ rs) l = request_all_there rs (after_moved delay cb l)

-- Of requests that other threads make one after another, each posted command wakes the loop once and
-- changes nothing in the wheel, while a timer of a moved function enters the wheel at once, like one
-- from the loop's thread. `RunFuctions` afterwards leaves the wheel, and the functions of the user that
-- have run, as they are if the loop's thread asks for these timers first, then for what was queued
-- before, and then for the posted commands in their order. That a request for a moved function meets
-- the loop's own use of the wheel is left out.
pub run_functions-ask_all :
    (rs : List Request) (l : TimerLoop)
    → let posted = request_all false rs l in
      let done = run_functions posted in
      let direct = ask_all true (moved_of rs ++ (l.functions ++ posts_of rs)) l in
      (posted.wheel ≡ (ask_all true (moved_of rs) l).wheel)
      × (posted.wakeups ≡ l.wakeups + length (posts_of rs))
      × (done.wheel ≡ direct.wheel)
      × (done.called ≡ direct.called)
unfolding run_functions
run_functions-ask_all rs l =
    let posted = request_all_there rs l in
    let start : TimerLoop = ask_all true (moved_of rs) l in
    let queue : List Command = l.functions ++ posts_of rs in
    let same =
      run_queue-Same queue
        (record l {
          wheel = start.wheel;
          functions = queue;
          wakeups = l.wakeups + length (posts_of rs);
        })
        start (refl, sym (called-moved_of rs l)) in
    let joined = ask_all-append (moved_of rs) queue l in
    (
      ap (λ x. x.wheel) posted,
      ap (λ x. x.wakeups) posted,
      ap (λ x. (run_queue x.functions x).wheel) posted ∙ same.0 ∙ ap (λ x. x.wheel) (sym joined),
      ap (λ x. (run_queue x.functions x).called) posted ∙ same.1 ∙ ap (λ x. x.called) (sym joined),
    )
