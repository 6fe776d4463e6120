-- ===== src/EventLoop.antt =====
-- src/network/net/EventLoop.cpp and Event.h. The map of events and the event objects are functions;
-- an event object is its address. Calls of `epoll_ctl` are recorded, newest first; what the kernel
-- makes of them is stated in Registered. A queued function is a number, and running it adds it to
-- `executed`, newest first.
pub mod Registered
pub mod Dispatch
pub mod Functions
pub mod Table
mod Examples
use tmms.Common.{
  ℕ, ◌+◌, ◌*◌, Bool, true, false, ◌&&◌, ◌||◌, not, Option, none, some, List, [], ◌∷◌, ◌++◌, ◌==◌,
  if◌then◌else◌,
}

-- The bits of an epoll event mask that the program uses.
pub record Mask : Type 0 where
  pub epoll_in : Bool
  pub epoll_pri : Bool
  pub epoll_out : Bool
  pub epoll_et : Bool

abbrev pub event_read : Mask
event_read = record { epoll_in = true; epoll_pri = true; epoll_out = false; epoll_et = true }

abbrev pub event_write : Mask
event_write = record { epoll_in = false; epoll_pri = false; epoll_out = true; epoll_et = true }

-- `a |= b`.
abbrev pub mask_or : Mask → Mask → Mask
mask_or a b = record {
  epoll_in = a.epoll_in || b.epoll_in;
  epoll_pri = a.epoll_pri || b.epoll_pri;
  epoll_out = a.epoll_out || b.epoll_out;
  epoll_et = a.epoll_et || b.epoll_et;
}

-- `a &= ~b`.
abbrev pub mask_clear : Mask → Mask → Mask
mask_clear a b = record {
  epoll_in = a.epoll_in && not b.epoll_in;
  epoll_pri = a.epoll_pri && not b.epoll_pri;
  epoll_out = a.epoll_out && not b.epoll_out;
  epoll_et = a.epoll_et && not b.epoll_et;
}

pub record Event : Type 0 where
  pub fd : ℕ
  pub event : Mask

pub data Ctl : Type 0 where
  ctl_add ctl_mod : ℕ → Mask → Ctl
  ctl_del : ℕ → Ctl

pub record EventLoop : Type 0 where
  pub events : ℕ → Option ℕ
  pub objects : ℕ → Event
  pub calls : List Ctl
  pub functions : List ℕ
  pub executed : List ℕ
  pub wakeups : ℕ
  pub looping : Bool

abbrev pub update {ℓ} : {A : Type ℓ} → (ℕ → A) → ℕ → A → ℕ → A
update f k v j = if k == j then v else f j

abbrev pub is_some {ℓ} : {A : Type ℓ} → Option A → Bool
is_some none = false
is_some (some a) = true

unfoldable pub set_mask : ℕ → Mask → EventLoop → EventLoop
set_mask a m l = record l {
  objects = update l.objects a (record { fd = (l.objects a).fd; event = m });
}

unfoldable pub ctl : Ctl → EventLoop → EventLoop
ctl c l = record l { calls = c ∷ l.calls }

unfoldable pub add_event : ℕ → EventLoop → EventLoop
unfolding set_mask ctl
add_event a l =
    let fd = (l.objects a).fd in
    if is_some (l.events fd)
    then l
    else ctl (ctl_add fd event_read)
        (record (set_mask a event_read l) { events = update l.events fd (some a) })

unfoldable pub del_event : ℕ → EventLoop → EventLoop
unfolding ctl
del_event a l =
    let fd = (l.objects a).fd in
    if is_some (l.events fd)
    then ctl (ctl_del fd) (record l { events = update l.events fd none })
    else l

-- The common end of `EnableRead` and `EnableWrite`.
enable : Mask → ℕ → EventLoop → EventLoop × Bool
unfolding set_mask ctl
enable m a l =
    let fd = (l.objects a).fd in
    if is_some (l.events fd) then (ctl (ctl_mod fd m) (set_mask a m l), true) else (l, false)

pub enable_read : ℕ → Bool → EventLoop → EventLoop × Bool
unfolding enable
enable_read a on l =
    let m = (l.objects a).event in
    enable (if on then mask_or m event_read else mask_clear m event_read) a l

pub enable_write : ℕ → Bool → EventLoop → EventLoop × Bool
unfolding enable
enable_write a on l =
    let m = (l.objects a).event in
    enable (if on then mask_or m event_write else mask_clear m event_write) a l

-- The condition bits that `epoll_wait` returns.
pub record Ready : Type 0 where
  pub epoll_err : Bool
  pub epoll_hup : Bool
  pub epoll_in : Bool
  pub epoll_pri : Bool
  pub epoll_out : Bool

pub data Handler : Type 0 where
  on_error on_close on_read on_write : Handler

-- The chain of tests in `Loop`.
unfoldable pub choose : Ready → Option Handler
choose ev =
    if ev.epoll_err
    then some on_error
    else if ev.epoll_hup && not ev.epoll_in
    then some on_close
    else if ev.epoll_in || ev.epoll_pri
    then some on_read
    else if ev.epoll_out
    then some on_write
    else none

-- One round of the `for` loop in `Loop`: which handler of which event is called.
unfoldable pub dispatch : ℕ → Ready → EventLoop → Option (ℕ × Handler)
unfolding choose
dispatch fd ev l = if fd == 0 then none else elim (l.events fd) [
  | none ↦ none
  | some a ↦ elim (choose ev) [ none ↦ none | some h ↦ some (a, h) ]
]

-- The length of `epoll_events_` after a round that returned `ret` events.
pub next_capacity : ℕ → ℕ → ℕ
next_capacity ret size = if ret == size then size * 2 else size

unfoldable pub wake_up : EventLoop → EventLoop
wake_up l = record l { wakeups = l.wakeups + 1 }

unfoldable pub run_in_loop : Bool → ℕ → EventLoop → EventLoop
unfolding wake_up
run_in_loop in_loop_thread f l =
    if in_loop_thread
    then record l { executed = f ∷ l.executed }
    else wake_up (record l { functions = l.functions ++ (f ∷ []) })

-- `RunFuctions`: front, call, pop, until the queue is empty.
run_queue : List ℕ → EventLoop → EventLoop
run_queue [] l = l
run_queue (f ∷ fs) l = run_queue fs (record l { executed = f ∷ l.executed; functions = fs })

pub run_functions : EventLoop → EventLoop
unfolding run_queue
run_functions l = run_queue l.functions l

pub quit : EventLoop → EventLoop
quit l = record l { looping = false }
