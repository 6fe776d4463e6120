-- ===== src/PipeEvent/Awake.antt =====
-- The wake-up of src/network/net/EventLoop.cpp under all interleavings of its callers.
use tmms.Common.{
  ℕ, ◌≡◌, refl, sym, ap, ◌∙◌, subst, Bool, true, false, Option, none, some, List, [], ◌∷◌, ◌++◌,
  arith, if◌then◌else◌,
}
use mathlib.Core.List.{reverse}
use tmms.EventLoop.{EventLoop, run_in_loop, run_functions, update, is_some}
use tmms.EventLoop.Table.{some-add_event}
use tmms.EventLoop.Functions.{
  events-run_functions, executed-run_functions, functions-run_functions, events-run_in_loop,
}
use tmms.PipeEvent.{
  Pipe, PipeEvent, WriteAnswer, new_pipe_event, on_read, written, write_event, Waker, create,
  written_to, wake_up_as, wake_up, post, call, read_event, read_event_as, after_read, no_mask, run,
  taken, full, broken, on_error,
}
use tmms.PipeEvent.Pipes.{IsPipe}
use tmms.PipeEvent.Drain.{on_read-Open}

-- Where the loop's thread is: in `epoll_wait`, or between its return and the end of `RunFuctions`.
pub data Phase : Type 0 where
  waiting handling : Phase

abbrev pub idle : {P : Pipe} → EventLoop → P.State → Waker P
idle l s = record { loop = l; pipe_event = none; pipe = s }

module _ (P : Pipe) (address fd : ℕ) where
  -- The loop's rounds, and calls of `RunInLoop` by other threads at any time.
  pub data Reached : Phase → Waker P → Type 0 where
    starts : (l : EventLoop) (s : P.State) → l.functions ≡ [] → Reached waiting (idle l s)
    posts : (at : Phase) (f : ℕ) (w : Waker P) → Reached at w → Reached at (post P address fd f w)
    returns : (w : Waker P) → Reached waiting w → Reached handling w
    reads :
        (rounds : ℕ) (w w' : Waker P)
        → Reached handling w
        → read_event P address fd rounds w ≡ some w'
        → Reached handling w'
    calls : (f : ℕ) (w : Waker P) → Reached handling w → Reached handling (call P address fd f w)
    runs : (w : Waker P) → Reached handling w → Reached waiting (run P address fd w)

-- Does a function wait?
abbrev pub has_functions : List ℕ → Bool
has_functions [] = false
has_functions (f ∷ fs) = true

module _ (P : Pipe) (pipe : IsPipe P) (address fd : ℕ) where
  -- An event that exists can be written to and has an entry in the loop's table.
  abbrev IsOpen : Waker P → Option PipeEvent → Type 0
  IsOpen w none = Unit {0}
  IsOpen w (some e) =
      (e.write_open ≡ true) × (P.has_writer w.pipe ≡ true) × (is_some (w.loop.events fd) ≡ true)

  -- The event exists and epoll reports it.
  abbrev pub Reports : Waker P → Type 0
  Reports w =
      (e : PipeEvent) × (w.pipe_event ≡ some e)
      × (P.is_readable w.pipe ≡ true)
      × (is_some (w.loop.events fd) ≡ true)

  record Awake (at : Phase) (w : Waker P) : Type 0 where
    is_open : IsOpen w w.pipe_event
    reported : at ≡ waiting → has_functions w.loop.functions ≡ true → Reports w

  some-create : (l : EventLoop) → is_some ((create P address fd l).events fd) ≡ true
  unfolding create
  some-create l =
      some-add_event address fd
        (record l { objects = update l.objects address (record { fd = fd; event = no_mask P }) })
        (ground arith)

  write_event-Open :
      (e : PipeEvent) (s : P.State)
      → e.write_open ≡ true
      → P.has_writer s ≡ true
      → let r = write_event P e s in
        (r.0.write_open ≡ true) × (P.has_writer r.1 ≡ true) × (P.is_readable r.1 ≡ true)
  unfolding write_event written on_error
  write_event-Open e s h k =
      subst
        (λ b.
          let r = if b then written P e (P.write s) else (on_error e, s) in
          (r.0.write_open ≡ true) × (P.has_writer r.1 ≡ true) × (P.is_readable r.1 ≡ true))
        (sym h) (answered (P.write s) h (pipe.writer-write s ∙ k) (pipe.readable-write s k))
    where
      answered :
          (a : WriteAnswer × P.State)
          → e.write_open ≡ true
          → P.has_writer a.1 ≡ true
          → P.is_readable a.1 ≡ true
          → ((written P e a).0.write_open ≡ true)
            × (P.has_writer (written P e a).1 ≡ true)
            × (P.is_readable (written P e a).1 ≡ true)
      answered (taken, s') h k f = (h, k, f)
      answered (full, s') h k f = (h, k, f)
      answered (broken, s') h k f = (h, k, f)

  written-Open :
      (e : PipeEvent) (w : Waker P)
      → e.write_open ≡ true
      → P.has_writer w.pipe ≡ true
      → is_some (w.loop.events fd) ≡ true
      → let w' = written_to P address fd e w in IsOpen w' w'.pipe_event × Reports w'
  unfolding written_to
  written-Open e w h k r =
      let (o, still, bytes) = write_event-Open e w.pipe h k in
      ((o, still, r), ((write_event P e w.pipe).0, refl, bytes, r))

  wake_up_as-Open :
      (o : Option PipeEvent) (w : Waker P)
      → IsOpen w o
      → let w' = wake_up_as P address fd o w in IsOpen w' w'.pipe_event × Reports w'
  unfolding wake_up_as
  wake_up_as-Open none w h =
      written-Open new_pipe_event (record w { loop = create P address fd w.loop; pipe = P.pipe2 })
        refl pipe.writer-pipe2 (some-create w.loop)
  wake_up_as-Open (some e) w (h, k, r) = written-Open e w h k r

  -- Only the table of the loop matters.
  IsOpen-loop :
      (o : Option PipeEvent) (w : Waker P) (l : EventLoop)
      → l.events ≡ w.loop.events
      → IsOpen w o
      → IsOpen (record w { loop = l }) o
  IsOpen-loop none w l same h = _
  IsOpen-loop (some e) w l same (h, k, r) = (h, k, ap (λ t. is_some (t fd)) same ∙ r)

  post-Open :
      (f : ℕ) (w : Waker P)
      → IsOpen w w.pipe_event
      → let w' = post P address fd f w in IsOpen w' w'.pipe_event × Reports w'
  unfolding post wake_up
  post-Open f w h =
      wake_up_as-Open w.pipe_event (record w { loop = run_in_loop false f w.loop })
        (IsOpen-loop w.pipe_event w (run_in_loop false f w.loop) (events-run_in_loop false f w.loop)
          h)

  after_read-Open :
      (e : PipeEvent) (w w' : Waker P) (r : Option (PipeEvent × P.State))
      → ((q : PipeEvent × P.State)
          → r ≡ some q
          → (q.0.write_open ≡ e.write_open) × (P.has_writer q.1 ≡ true))
      → after_read P address fd w r ≡ some w'
      → IsOpen w (some e)
      → IsOpen w' w'.pipe_event
  after_read-Open e w w' none keeps h o = absurd (ground (arith, h))
  after_read-Open e w w' (some (e', s)) keeps h (a, b, t) =
      let (same, writer) = keeps (e', s) refl in
      subst (λ v. IsOpen v v.pipe_event) (ap (λ o. elim o [ none ↦ w | some v ↦ v ]) h)
        (same ∙ a, writer, t)

  read_event_as-Open :
      (rounds : ℕ) (o : Option PipeEvent) (w w' : Waker P)
      → w.pipe_event ≡ o
      → read_event_as P address fd rounds o w ≡ some w'
      → IsOpen w o
      → IsOpen w' w'.pipe_event
  unfolding read_event_as
  read_event_as-Open rounds none w w' e h open_event =
      subst (λ v. IsOpen v v.pipe_event) (ap (λ o. elim o [ none ↦ w | some v ↦ v ]) h)
        (subst (IsOpen w) (sym e) open_event)
  read_event_as-Open rounds (some e) w w' _ h (a, b, t) =
      after_read-Open e w w' (on_read P rounds e w.pipe)
        (λ q g. on_read-Open P pipe rounds e w.pipe q b g) h (a, b, t)

  Reached-Awake : (at : Phase) (w : Waker P) → Reached P address fd at w → Awake at w
  unfolding call run read_event
  Reached-Awake _ _ (starts l s e) = record {
    is_open = _;
    reported = λ _ h. absurd (ground (arith, ap has_functions e, h));
  }
  Reached-Awake at _ (posts _ f v r) =
      let (o, reports) = post-Open f v (Reached-Awake at v r).is_open in
      record { is_open = o; reported = λ _ _. reports }
  Reached-Awake _ w (returns _ r) = record {
    is_open = (Reached-Awake waiting w r).is_open;
    reported = λ h _. absurd (ground (arith, h));
  }
  Reached-Awake _ w (reads rounds v _ r h) = record {
    is_open =
        read_event_as-Open rounds v.pipe_event v w refl h (Reached-Awake handling v r).is_open;
    reported = λ h _. absurd (ground (arith, h));
  }
  Reached-Awake _ _ (calls f v r) = record {
    is_open =
        IsOpen-loop v.pipe_event v (run_in_loop true f v.loop) (events-run_in_loop true f v.loop)
          (Reached-Awake handling v r).is_open;
    reported = λ h _. absurd (ground (arith, h));
  }
  Reached-Awake _ _ (runs v r) = record {
    is_open =
        IsOpen-loop v.pipe_event v (run_functions v.loop) (events-run_functions v.loop)
          (Reached-Awake handling v r).is_open;
    reported = λ _ h. absurd (ground (arith, ap has_functions (functions-run_functions v.loop), h));
  }

-- However calls of `RunInLoop` by other threads fall between the steps of the loop: whenever the loop
-- is in `epoll_wait` and a function waits, the pipe of the pipe event is readable and the loop's
-- table has an entry for its descriptor; and `RunFuctions` runs all that wait, in order. (`executed`
-- is newest first.)
pub no_lost_wake_up :
    (P : Pipe) (pipe : IsPipe P) (address fd : ℕ) (w : Waker P)
    → Reached P address fd waiting w
    → has_functions w.loop.functions ≡ true
    → Reports P pipe address fd w
      × ((run P address fd w).loop.executed ≡ reverse w.loop.functions ++ w.loop.executed)
      × ((run P address fd w).loop.functions ≡ [])
unfolding run
no_lost_wake_up P pipe address fd w r h = (
  (Reached-Awake P pipe address fd waiting w r).reported refl h,
  executed-run_functions w.loop,
  functions-run_functions w.loop,
)
