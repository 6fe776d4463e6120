-- ===== src/TimingWheel.antt =====
-- src/network/net/TimingWheel.h and TimingWheel.cpp. Every strong reference to an entry is in the
-- wheel, as in all calls of the program: an entry is destroyed when the last slot that refers to it
-- is popped. Callbacks are numbers; running one adds it to `ran`, with the function that it was
-- handed to. A delay is the `uint32_t` that the code converts it to.
pub mod Shape
pub mod Kept
pub mod Count
pub mod Insert
pub mod Schedule
pub mod Ticks
pub mod RunAfter
pub mod Shared
pub mod Expiry
pub mod Drift
mod Examples
use tmms.Common.{
  ℕ, zero, suc, ◌+◌, ◌-◌, ◌*◌, ◌/◌, ◌%◌, ◌^◌, Bool, true, false, ◌&&◌, ◌||◌, Option, none, some,
  List, [], ◌∷◌, ◌++◌, replicate, ltb, leb, ◌==◌, if◌then◌else◌,
}

abbrev pub timing_minute : ℕ
timing_minute = 60

abbrev pub timing_hour : ℕ
timing_hour = 3600

abbrev pub timing_day : ℕ
timing_day = 86400

-- What a caller hands over: an object of its own by its address, or the `CallbackEntry` of
-- `RunAfter` or `RunEvery`.
pub data Payload : Type 0 where
  shared : ℕ → Payload
  once : ℕ → Payload
  every : ℕ → ℕ → Payload

-- What a slot holds: a payload, or the `CallbackEntry` that inserts one into a finer wheel when it
-- is destroyed.
pub data Entry : Type 0 where
  plain : Payload → Entry
  to_second to_minute to_hour : ℕ → Payload → Entry

abbrev pub Slot : Type 0
Slot = List Entry

pub data Effect : Type 0 where
  ran_once ran_every : ℕ → Effect
  destroyed : ℕ → Effect

pub record TimingWheel : Type 0 where
  pub seconds : List Slot
  pub minutes : List Slot
  pub hours : List Slot
  pub days : List Slot
  pub last_ts : ℕ
  pub tick : ℕ
  pub ran : List Effect

unfoldable pub init : TimingWheel
init = record {
  seconds = replicate 60 [];
  minutes = replicate 60 [];
  hours = replicate 24 [];
  days = replicate 30 [];
  last_ts = 0;
  tick = 0;
  ran = [];
}

abbrev pub payload : Entry → Payload
payload (plain p) = p
payload (to_second d p) = p
payload (to_minute d p) = p
payload (to_hour d p) = p

abbrev pub is_shared : ℕ → Payload → Bool
is_shared k (shared j) = j == k
is_shared k _ = false

-- Does a slot refer to the object?
unfoldable pub refers : ℕ → Slot → Bool
refers k [] = false
refers k (e ∷ es) = is_shared k (payload e) || refers k es

unfoldable pub refers_any : ℕ → List Slot → Bool
unfolding refers
refers_any k [] = false
refers_any k (s ∷ ss) = refers k s || refers_any k ss

unfoldable pub referred : ℕ → TimingWheel → Bool
unfolding refers_any
referred k w =
    refers_any k w.seconds
    || (refers_any k w.minutes || (refers_any k w.hours || refers_any k w.days))

-- Does a slot hold the object's pointer itself?
pub holds : ℕ → Slot → Bool
holds k [] = false
holds k (plain p ∷ es) = is_shared k p || holds k es
holds k (e ∷ es) = holds k es

-- `unordered_set::emplace`: a pointer that the set holds is not added again.
pub emplace : Entry → Slot → Slot
unfolding holds
emplace (plain (shared k)) s = if holds k s then s else s ++ (plain (shared k) ∷ [])
emplace e s = s ++ (e ∷ [])

-- An index out of range changes nothing; the theorems on `IsValid` rule it out.
unfoldable pub emplace_at : ℕ → Entry → List Slot → List Slot
unfolding emplace
emplace_at i e [] = []
emplace_at zero e (s ∷ ss) = emplace e s ∷ ss
emplace_at (suc i) e (s ∷ ss) = s ∷ emplace_at i e ss

-- `if (n == 0) n = 1`.
abbrev pub at_least_one : ℕ → ℕ
at_least_one n = if n == 0 then 1 else n

pub insert_second_entry : ℕ → Option Payload → TimingWheel → TimingWheel
insert_second_entry delay none w = w
insert_second_entry delay (some p) w = record w {
  seconds = emplace_at (at_least_one delay - 1) (plain p) w.seconds;
}

pub insert_minute_entry : ℕ → Option Payload → TimingWheel → TimingWheel
insert_minute_entry delay none w = w
insert_minute_entry delay (some p) w =
    let minute = at_least_one (delay / timing_minute) in
    let second = at_least_one (delay % timing_minute) in
    record w { minutes = emplace_at (minute - 1) (to_second second p) w.minutes }

pub insert_hour_entry : ℕ → Option Payload → TimingWheel → TimingWheel
insert_hour_entry delay none w = w
insert_hour_entry delay (some p) w =
    let hour = at_least_one (delay / timing_hour) in
    let minute = at_least_one (delay % timing_hour) in
    record w { hours = emplace_at (hour - 1) (to_minute minute p) w.hours }

pub insert_day_entry : ℕ → Option Payload → TimingWheel → TimingWheel
insert_day_entry delay none w = w
insert_day_entry delay (some p) w =
    let day = at_least_one (delay / timing_day) in
    let hour = at_least_one (delay % timing_day) in
    record w { days = emplace_at (day - 1) (to_hour hour p) w.days }

pub insert_delay : ℕ → Option Payload → TimingWheel → TimingWheel
insert_delay delay p w =
    if ltb delay timing_minute
    then insert_second_entry delay p w
    else if ltb delay timing_hour
    then insert_minute_entry delay p w
    else if ltb delay timing_day
    then insert_hour_entry delay p w
    else if ltb 30 (delay / timing_day)
    then w
    else insert_day_entry delay p w

pub insert_entry : ℕ → Option Payload → TimingWheel → TimingWheel
unfolding insert_delay
insert_entry delay none w = w
insert_entry delay (some p) w = insert_delay (at_least_one delay) (some p) w

pub run_after : ℕ → ℕ → TimingWheel → TimingWheel
run_after delay cb w = insert_entry delay (some (once cb)) w

pub run_every : ℕ → ℕ → TimingWheel → TimingWheel
run_every interval cb w = insert_entry interval (some (every cb interval)) w

abbrev pub emit : Effect → TimingWheel → TimingWheel
emit x w = record w { ran = w.ran ++ (x ∷ []) }

-- The destructor of an entry, where `rest` is what the popped slot still refers to.
pub release : Entry → Slot → TimingWheel → TimingWheel
unfolding referred
release (plain (shared k)) rest w =
    if refers k rest || referred k w then w else emit (destroyed k) w
release (plain (once cb)) rest w = emit (ran_once cb) w
release (plain (every cb interval)) rest w = run_every interval cb (emit (ran_every cb) w)
release (to_second d p) rest w = insert_second_entry d (some p) w
release (to_minute d p) rest w = insert_minute_entry d (some p) w
release (to_hour d p) rest w = insert_hour_entry d (some p) w

-- The destructor of the popped set.
pub release_all : Slot → TimingWheel → TimingWheel
release_all [] w = w
release_all (e ∷ es) w = release_all es (release e es w)

pub data TimingType : Type 0 where
  second minute hour day : TimingType

abbrev pub wheel : TimingType → TimingWheel → List Slot
wheel second w = w.seconds
wheel minute w = w.minutes
wheel hour w = w.hours
wheel day w = w.days

abbrev pub with_wheel : TimingType → List Slot → TimingWheel → TimingWheel
with_wheel second ss w = record w { seconds = ss }
with_wheel minute ss w = record w { minutes = ss }
with_wheel hour ss w = record w { hours = ss }
with_wheel day ss w = record w { days = ss }

-- Rotates the wheel and then destroys what its front slot held.
pub pop_slots : TimingType → List Slot → TimingWheel → TimingWheel
pop_slots type [] w = w
pop_slots type (tmp ∷ rest) w = release_all tmp (with_wheel type (rest ++ ([] ∷ [])) w)

pub pop_up : TimingType → TimingWheel → TimingWheel
pop_up type w = pop_slots type (wheel type w) w

pub pop_if : Bool → TimingType → TimingWheel → TimingWheel
pop_if true type w = pop_up type w
pop_if false type w = w

-- The body of the loop in `OnTimer`.
pub on_tick : TimingWheel → TimingWheel
on_tick w =
    let tick' = (w.tick + 1) % 2 ^ 64 in
    pop_if (tick' % timing_day == 0) day (
      pop_if (tick' % timing_hour == 0) hour
        (pop_if (tick' % timing_minute == 0) minute (pop_up second (record w { tick = tick' }))))

pub ticks : ℕ → TimingWheel → TimingWheel
ticks zero w = w
ticks (suc n) w = ticks n (on_tick w)

pub on_timer : ℕ → TimingWheel → TimingWheel
on_timer now w =
    if w.last_ts == 0
    then record w { last_ts = now }
    else if leb now w.last_ts
    then w
    else ticks (now - w.last_ts) (record w { last_ts = now })
