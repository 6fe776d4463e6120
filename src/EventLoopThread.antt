-- ===== src/EventLoopThread.antt =====
-- src/network/net/EventLoopThread.cpp: the thread of a loop, and the owner that calls `Run` and then
-- destroys the object. A step of either is one access to what they share; what is done under
-- `lock_` is one step. The rounds of the loop are steps that change nothing.
pub mod Handshake
pub mod Shutdown
mod Examples
use tmms.Common.{◌≡◌, Bool, true, false, ◌||◌, Option, none, some, if◌then◌else◌}

-- Where the thread is in `StartEventLoop`: before it has the lock, in `condition_.wait`, behind it,
-- behind the assignment of `loop_`, behind `set_value`, in the loop of `Loop`, behind `Loop`, at its
-- end. From `starting` to `leaving` it has the lock.
pub data Looper : Type 0 where
  locking waiting starting published promising looping leaving ended : Looper

-- Where the owner is: before `Run`, in `get`, behind `Run`, in `join`, behind the destructor.
pub data Owner : Type 0 where
  ready getting returned joining joined : Owner

-- `has_loop`: `loop_` is not null. `is_looping` is `looping_` of the loop.
pub record ThreadState : Type 0 where
  pub looper : Looper
  pub owner : Owner
  pub running : Bool
  pub notified : Bool
  pub has_loop : Bool
  pub has_value : Bool
  pub is_looping : Bool

-- Behind the constructor.
abbrev pub new_thread : ThreadState
new_thread = record {
  looper = locking;
  owner = ready;
  running = false;
  notified = false;
  has_loop = false;
  has_value = false;
  is_looping = false;
}

abbrev pub has_lock : Looper → Bool
has_lock locking = false
has_lock waiting = false
has_lock starting = true
has_lock published = true
has_lock promising = true
has_lock looping = true
has_lock leaving = true
has_lock ended = false

-- The predicate of the wait, under the lock.
abbrev pub check_running : ThreadState → ThreadState
check_running s =
    if s.running
    then record s { looper = starting }
    else record s { looper = waiting; notified = false }

-- The next step of the thread; `none` if it waits or has ended.
unfoldable pub looper_step : Looper → ThreadState → Option ThreadState
looper_step locking s = some (check_running s)
looper_step waiting s = if s.notified then some (check_running s) else none
looper_step starting s = some (record s { looper = published; has_loop = true })
looper_step published s = some (record s { looper = promising; has_value = true })
looper_step promising s = some (record s { looper = looping; is_looping = true })
looper_step looping s = some (if s.is_looping then s else record s { looper = leaving })
looper_step leaving s = some (record s { looper = ended; has_loop = false })
looper_step ended s = none

abbrev pub is_waiting : Looper → Bool
is_waiting waiting = true
is_waiting _ = false

abbrev pub is_ended : Looper → Bool
is_ended ended = true
is_ended _ = false

-- The next step of the owner: `Run`, and the destructor with its `Quit`.
unfoldable pub owner_step : Owner → ThreadState → Option ThreadState
owner_step ready s =
    if has_lock s.looper
    then none
    else some
        (record s { owner = getting; running = true; notified = s.notified || is_waiting s.looper })
owner_step getting s = if s.has_value then some (record s { owner = returned }) else none
owner_step returned s =
    some (record s { owner = joining; is_looping = if s.has_loop then false else s.is_looping })
owner_step joining s = if is_ended s.looper then some (record s { owner = joined }) else none
owner_step joined s = none

pub data Step (s : ThreadState) : ThreadState → Type 0 where
  runs : (t : ThreadState) → looper_step s.looper s ≡ some t → Step s t
  calls : (t : ThreadState) → owner_step s.owner s ≡ some t → Step s t

-- Any interleaving.
pub data Steps (s : ThreadState) : ThreadState → Type 0 where
  stop : Steps s s
  step : (t u : ThreadState) → Steps s t → Step t u → Steps s u
