-- ===== src/TimingWheel/Kept.antt =====
-- Every operation of src/network/net/TimingWheel.cpp keeps the shape of the wheels.
use tmms.Common.{
  ℕ, zero, suc, ◌+◌, ◌-◌, ◌/◌, ◌%◌, ◌^◌, ◌∙◌, inl, inr, Bool, true, false, ◌||◌, Option, none, some,
  List, [], ◌∷◌, ◌++◌, arith, ltb, leb, ◌==◌, if◌then◌else◌, Bool-cases,
}
use tmms.TimingWheel.{
  init, TimingWheel, Entry, Slot, Payload, plain, to_second, to_minute, to_hour, shared, once,
  every, emplace_at, insert_second_entry, insert_minute_entry, insert_hour_entry, insert_day_entry,
  insert_entry, insert_delay, at_least_one, run_every, emit, release, release_all, TimingType,
  second, minute, hour, day, wheel, with_wheel, pop_slots, pop_up, pop_if, on_tick, ticks, on_timer,
  referred, refers, destroyed, ran_once, ran_every,
}
use tmms.TimingWheel.Shape.{
  IsSecond, IsMinute, IsHour, IsDay, IsValid, Fits, with_wheel-IsValid, wheel-Fits, same-IsValid,
  length-emplace_at, AllSlots-emplace_at, AllSlots-rotate, length-rotate,
}

module _ (w : TimingWheel) (v : IsValid w) (p : Payload) (delay : ℕ) where
  pub insert_second-IsValid : IsValid (insert_second_entry delay (some p) w)
  unfolding insert_second_entry
  insert_second-IsValid =
      let i = at_least_one delay - 1 in
      with_wheel-IsValid second (emplace_at i (plain p) w.seconds) w
        (
          length-emplace_at i (plain p) w.seconds ∙ v.second_slots,
          AllSlots-emplace_at IsSecond i (plain p) w.seconds tt v.second_entries,
        )
        v

  pub insert_minute-IsValid : IsValid (insert_minute_entry delay (some p) w)
  unfolding insert_minute_entry
  insert_minute-IsValid =
      let i = at_least_one (delay / 60) - 1 in
      let e = to_second (at_least_one (delay % 60)) p in
      with_wheel-IsValid minute (emplace_at i e w.minutes) w
        (
          length-emplace_at i e w.minutes ∙ v.minute_slots,
          AllSlots-emplace_at IsMinute i e w.minutes (ground arith, ground arith) v.minute_entries,
        )
        v

  pub insert_hour-IsValid : IsValid (insert_hour_entry delay (some p) w)
  unfolding insert_hour_entry
  insert_hour-IsValid =
      let i = at_least_one (delay / 3600) - 1 in
      let e = to_minute (at_least_one (delay % 3600)) p in
      with_wheel-IsValid hour (emplace_at i e w.hours) w
        (
          length-emplace_at i e w.hours ∙ v.hour_slots,
          AllSlots-emplace_at IsHour i e w.hours (ground arith, ground arith) v.hour_entries,
        )
        v

  pub insert_day-IsValid : IsValid (insert_day_entry delay (some p) w)
  unfolding insert_day_entry
  insert_day-IsValid =
      let i = at_least_one (delay / 86400) - 1 in
      let e = to_hour (at_least_one (delay % 86400)) p in
      with_wheel-IsValid day (emplace_at i e w.days) w
        (
          length-emplace_at i e w.days ∙ v.day_slots,
          AllSlots-emplace_at IsDay i e w.days (ground arith, ground arith) v.day_entries,
        )
        v

pub insert_delay-IsValid :
    (delay : ℕ) (p : Payload) (w : TimingWheel)
    → IsValid w
    → IsValid (insert_delay delay (some p) w)
unfolding insert_delay
insert_delay-IsValid delay p w v = if_rule (ltb delay 60) (insert_second-IsValid w v p delay) (
    if_rule (ltb delay 3600) (insert_minute-IsValid w v p delay) (
      if_rule (ltb delay 86400) (insert_hour-IsValid w v p delay)
        (if_rule (ltb 30 (delay / 86400)) v (insert_day-IsValid w v p delay))))
  where
    if_rule : (b : Bool) {x y : TimingWheel} → IsValid x → IsValid y → IsValid (if b then x else y)
    if_rule true vx vy = vx
    if_rule false vx vy = vy

-- `InsertEntry` keeps the shape, whatever the delay and also for a null pointer.
pub insert_entry-IsValid :
    (delay : ℕ) (p : Option Payload) (w : TimingWheel)
    → IsValid w
    → IsValid (insert_entry delay p w)
unfolding insert_entry
insert_entry-IsValid delay none w v = v
insert_entry-IsValid delay (some p) w v = insert_delay-IsValid (at_least_one delay) p w v

pub release-IsValid :
    (e : Entry) (rest : Slot) (w : TimingWheel) → IsValid w → IsValid (release e rest w)
unfolding release run_every
release-IsValid (plain (shared k)) rest w v = elim (Bool-cases (refers k rest || referred k w)) [
  | inl still ↦ rw still v
  | inr gone ↦ rw gone (same-IsValid w w.last_ts w.tick (w.ran ++ (destroyed k ∷ [])) v)
]
release-IsValid (plain (once c)) rest w v =
    same-IsValid w w.last_ts w.tick (w.ran ++ (ran_once c ∷ [])) v
release-IsValid (plain (every c i)) rest w v =
    insert_entry-IsValid i (some (every c i)) (emit (ran_every c) w)
      (same-IsValid w w.last_ts w.tick (w.ran ++ (ran_every c ∷ [])) v)
release-IsValid (to_second d p) rest w v = insert_second-IsValid w v p d
release-IsValid (to_minute d p) rest w v = insert_minute-IsValid w v p d
release-IsValid (to_hour d p) rest w v = insert_hour-IsValid w v p d

pub release_all-IsValid : (s : Slot) (w : TimingWheel) → IsValid w → IsValid (release_all s w)
unfolding release_all
release_all-IsValid [] w v = v
release_all-IsValid (e ∷ es) w v =
    release_all-IsValid es (release e es w) (release-IsValid e es w v)

pub rotate-Fits :
    (type : TimingType) (s : Slot) (ss : List Slot)
    → Fits type (s ∷ ss)
    → Fits type (ss ++ ([] ∷ []))
rotate-Fits second s ss f = (length-rotate s ss ∙ f.0, AllSlots-rotate IsSecond s ss f.1)
rotate-Fits minute s ss f = (length-rotate s ss ∙ f.0, AllSlots-rotate IsMinute s ss f.1)
rotate-Fits hour s ss f = (length-rotate s ss ∙ f.0, AllSlots-rotate IsHour s ss f.1)
rotate-Fits day s ss f = (length-rotate s ss ∙ f.0, AllSlots-rotate IsDay s ss f.1)

pop_slots-IsValid :
    (type : TimingType) (ss : List Slot) (w : TimingWheel)
    → Fits type ss
    → IsValid w
    → IsValid (pop_slots type ss w)
unfolding pop_slots
pop_slots-IsValid type [] w f v = v
pop_slots-IsValid type (tmp ∷ rest) w f v =
    release_all-IsValid tmp (with_wheel type (rest ++ ([] ∷ [])) w)
      (with_wheel-IsValid type (rest ++ ([] ∷ [])) w (rotate-Fits type tmp rest f) v)

pub pop_up-IsValid : (type : TimingType) (w : TimingWheel) → IsValid w → IsValid (pop_up type w)
unfolding pop_up
pop_up-IsValid type w v = pop_slots-IsValid type (wheel type w) w (wheel-Fits type w v) v

pub pop_if-IsValid :
    (b : Bool) (type : TimingType) (w : TimingWheel) → IsValid w → IsValid (pop_if b type w)
unfolding pop_if
pop_if-IsValid true type w v = pop_up-IsValid type w v
pop_if-IsValid false type w v = v

-- One round of `OnTimer` keeps the shape.
pub on_tick-IsValid : (w : TimingWheel) → IsValid w → IsValid (on_tick w)
unfolding on_tick
on_tick-IsValid w v = pop_if-IsValid _ day _ (
    pop_if-IsValid _ hour _ (
      pop_if-IsValid _ minute _
        (pop_up-IsValid second _ (same-IsValid w w.last_ts ((w.tick + 1) % 2 ^ 64) w.ran v))))

pub ticks-IsValid : (n : ℕ) (w : TimingWheel) → IsValid w → IsValid (ticks n w)
unfolding ticks
ticks-IsValid zero w v = v
ticks-IsValid (suc n) w v = ticks-IsValid n (on_tick w) (on_tick-IsValid w v)

-- `OnTimer` keeps the shape, whatever the clock says.
pub on_timer-IsValid : (now : ℕ) (w : TimingWheel) → IsValid w → IsValid (on_timer now w)
unfolding on_timer
on_timer-IsValid now w v = elim (Bool-cases (w.last_ts == 0)) [
  | inl first ↦ rw first (same-IsValid w now w.tick w.ran v)
  | inr later ↦ rw later (advance (leb now w.last_ts))
]
  where
    advance :
        (b : Bool) → IsValid (if b then w else ticks (now - w.last_ts) (record w { last_ts = now }))
    advance true = v
    advance false =
        ticks-IsValid (now - w.last_ts) (record w { last_ts = now })
          (same-IsValid w now w.tick w.ran v)

-- The wheel as it is made.
pub init-IsValid : IsValid init
unfolding init
init-IsValid = ground arith
