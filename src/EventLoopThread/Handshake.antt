-- ===== src/EventLoopThread/Handshake.antt =====
-- `Run` of src/network/net/EventLoopThread.cpp and the thread it waits for.
use tmms.Common.{ℕ, zero, suc, ◌≡◌, refl, Bool, true, false, not, Option, none, some, arith}
use tmms.EventLoopThread.{
  Looper, locking, waiting, starting, published, promising, looping, leaving, ended, Owner, ready,
  getting, returned, joining, joined, ThreadState, new_thread, has_lock, looper_step, is_waiting,
  owner_step, runs, calls, Steps, stop, step,
}

-- Is `loop_` set there, and the value of the promise?
abbrev loop_is_set : Looper → Bool
loop_is_set locking = false
loop_is_set waiting = false
loop_is_set starting = false
loop_is_set published = true
loop_is_set promising = true
loop_is_set looping = true
loop_is_set leaving = true
loop_is_set ended = false

abbrev value_is_set : Looper → Bool
value_is_set locking = false
value_is_set waiting = false
value_is_set starting = false
value_is_set published = false
value_is_set promising = true
value_is_set looping = true
value_is_set leaving = true
value_is_set ended = true

abbrev pub has_left : Looper → Bool
has_left leaving = true
has_left ended = true
has_left _ = false

abbrev is_in_loop : Looper → Bool
is_in_loop looping = true
is_in_loop _ = false

abbrev is_ready : Owner → Bool
is_ready ready = true
is_ready _ = false

-- `Quit` has not been called.
abbrev pub before_quit : Owner → Bool
before_quit ready = true
before_quit getting = true
before_quit returned = true
before_quit joining = false
before_quit joined = false

abbrev waits_or_calls : Owner → Bool
waits_or_calls ready = true
waits_or_calls getting = true
waits_or_calls _ = false

-- What holds in every reachable state.
pub record Inv (s : ThreadState) : Type 0 where
  pub asked : s.running ≡ not (is_ready s.owner)
  pub locked : has_lock s.looper ≡ true → s.running ≡ true
  pub loop_set : s.has_loop ≡ loop_is_set s.looper
  pub value_set : s.has_value ≡ value_is_set s.looper
  pub woken : is_waiting s.looper ≡ true → s.running ≡ true → s.notified ≡ true
  pub told : waits_or_calls s.owner ≡ false → s.has_value ≡ true
  pub stays : before_quit s.owner ≡ true → has_left s.looper ≡ false
  pub on : before_quit s.owner ≡ true → is_in_loop s.looper ≡ true → s.is_looping ≡ true

looper_step-Inv :
    (l : Looper) (s t : ThreadState) → s.looper ≡ l → looper_step l s ≡ some t → Inv s → Inv t
unfolding looper_step
looper_step-Inv locking s t e h v = ground (arith, h)
looper_step-Inv waiting s t e h v = ground (arith, h)
looper_step-Inv starting s t e h v = ground (arith, h)
looper_step-Inv published s t e h v = ground (arith, h)
looper_step-Inv promising s t e h v = ground (arith, h)
looper_step-Inv looping s t e h v = ground (arith, h)
looper_step-Inv leaving s t e h v = ground (arith, h)
looper_step-Inv ended s t e h v = ground (arith, h)

owner_step-Inv :
    (o : Owner) (s t : ThreadState) → s.owner ≡ o → owner_step o s ≡ some t → Inv s → Inv t
unfolding owner_step
owner_step-Inv ready s t e h v = ground (arith, h)
owner_step-Inv getting s t e h v = ground (arith, h)
owner_step-Inv returned s t e h v = ground (arith, h)
owner_step-Inv joining s t e h v = ground (arith, h)
owner_step-Inv joined s t e h v = ground (arith, h)

new_thread-Inv : Inv new_thread
new_thread-Inv = ground arith

pub Steps-Inv : (s t : ThreadState) → Steps s t → Inv s → Inv t
Steps-Inv s t stop v = v
Steps-Inv s t (step u _ before (runs _ h)) v =
    looper_step-Inv u.looper u t refl h (Steps-Inv s u before v)
Steps-Inv s t (step u _ before (calls _ h)) v =
    owner_step-Inv u.owner u t refl h (Steps-Inv s u before v)

-- In whatever order the thread and its owner step: when `Run` has returned and the destructor has not
-- called `Quit`, `Loop()` is the loop, and the thread is not behind it.
pub loop_after_run :
    (s : ThreadState)
    → Steps new_thread s
    → s.owner ≡ returned
    → (s.has_loop ≡ true) × (has_left s.looper ≡ false)
loop_after_run s reached back =
    let v = Steps-Inv new_thread s reached new_thread-Inv in present s.looper refl v
  where
    present :
        (l : Looper) → s.looper ≡ l → Inv s → (s.has_loop ≡ true) × (has_left s.looper ≡ false)
    present locking e v = ground arith
    present waiting e v = ground arith
    present starting e v = ground arith
    present published e v = ground arith
    present promising e v = ground arith
    present looping e v = ground arith
    present leaving e v = ground arith
    present ended e v = ground arith

-- The thread alone, for so many steps.
unfoldable pub looper_runs : ℕ → ThreadState → Option ThreadState
unfolding looper_step
looper_runs zero s = some s
looper_runs (suc n) s = elim (looper_step s.looper s) [ none ↦ none | some t ↦ looper_runs n t ]

-- `Run` does not wait for ever: in every reachable state in which it waits for the promise, three
-- steps of the thread are possible, and after them the promise has its value.
pub run_returns :
    (s : ThreadState)
    → Steps new_thread s
    → s.owner ≡ getting
    → (t : ThreadState) × (looper_runs 3 s ≡ some t) × (t.owner ≡ getting) × (t.has_value ≡ true)
unfolding looper_runs
run_returns s reached waits = present s.looper refl (Steps-Inv new_thread s reached new_thread-Inv)
  where
    Promised : Type 0
    Promised =
        (t : ThreadState) × (looper_runs 3 s ≡ some t) × (t.owner ≡ getting) × (t.has_value ≡ true)

    present : (l : Looper) → s.looper ≡ l → Inv s → Promised
    present locking e v = (
      record s { looper = promising; has_loop = true; has_value = true },
      ground arith,
      waits,
      refl,
    )
    present waiting e v = (
      record s { looper = promising; has_loop = true; has_value = true },
      ground arith,
      waits,
      refl,
    )
    present starting e v = (
      record s { looper = looping; has_loop = true; has_value = true; is_looping = true },
      ground arith,
      waits,
      refl,
    )
    present published e v = (
      record s { looper = looping; has_value = true; is_looping = true },
      ground arith,
      waits,
      refl,
    )
    present promising e v =
        (record s { looper = looping; is_looping = true }, ground arith, waits, ground arith)
    present looping e v = (s, ground arith, waits, ground arith)
    present leaving e v = absurd (ground arith)
    present ended e v = absurd (ground arith)
