-- ===== src/TimingWheel/Ticks.antt =====
-- The exact schedule of src/network/net/TimingWheel.cpp: a call inserted by `RunAfter` runs at its
-- deadline, once, and neither earlier nor later, whatever else is in the wheels.
use tmms.Common.{
  ℕ, ◌+◌, ◌*◌, ◌/◌, ◌%◌, ◌^◌, ◌<◌, ◌≡◌, refl, ap, ◌∙◌, Bool, true, false, List, [], ◌∷◌, ◌++◌,
  arith, ◌==◌,
}
use tmms.TimingWheel.{
  release, release_all, run_every, insert_second_entry, insert_minute_entry, insert_hour_entry,
  emit, ran_every, pop_slots, wheel, with_wheel, TimingWheel, Entry, Slot, plain, to_second,
  to_minute, to_hour, once, shared, every, TimingType, second, minute, hour, day, pop_up, pop_if,
  on_tick, insert_entry, at_least_one,
}
use tmms.TimingWheel.Shape.{IsValid, same-IsValid}
use tmms.TimingWheel.Kept.{pop_up-IsValid, pop_if-IsValid}
use tmms.TimingWheel.Count.{pending_from}
use tmms.TimingWheel.Insert.{insert_delay-Untouched}
use tmms.TimingWheel.Schedule.{When, tally, pop-second, pop-minute, pop-hour, pop-day}

module _ (c tick : ℕ) (due : Bool) (t : ℕ) (q : When due (tick + 1) t) (w : TimingWheel)
    (v : IsValid w) where
  abbrev now : ℕ
  now = tick + 1

  turn-minute :
      (b : Bool) (h d : ℕ)
      → (now % 60 == 0) ≡ b
      → tally due (now + 1) (60 * (now / 60 + 1)) h d (pop_if b minute w) t c
        ≡ tally due (now + 1) (60 * (tick / 60 + 1)) h d w t c
  unfolding pop_if
  turn-minute true h d e =
      ap (λ m. tally due (now + 1) m h d (pop_up minute w) t c) {x = 60 * (now / 60 + 1)}
        {y = now + 60} (ground arith)
      ∙ pop-minute c now due t q w v h d
      ∙ ap (λ m. tally due (now + 1) m h d w t c) {x = now} {y = 60 * (tick / 60 + 1)}
          (ground arith)
  turn-minute false h d e =
      ap (λ m. tally due (now + 1) m h d w t c) {x = 60 * (now / 60 + 1)} {y = 60 * (tick / 60 + 1)}
        (ground arith)

  turn-hour :
      (b : Bool) (d : ℕ)
      → (now % 3600 == 0) ≡ b
      → tally due (now + 1) (60 * (now / 60 + 1)) (3600 * (now / 3600 + 1)) d (pop_if b hour w) t c
        ≡ tally due (now + 1) (60 * (now / 60 + 1)) (3600 * (tick / 3600 + 1)) d w t c
  unfolding pop_if
  turn-hour true d e =
      ap (λ h. tally due (now + 1) (60 * (now / 60 + 1)) h d (pop_up hour w) t c)
        {x = 3600 * (now / 3600 + 1)} {y = now + 3600} (ground arith)
      ∙ pop-hour c now due t q w v (now + 1) d
      ∙ ap (λ h. tally due (now + 1) (60 * (now / 60 + 1)) h d w t c) {x = now}
          {y = 3600 * (tick / 3600 + 1)} (ground arith)
  turn-hour false d e =
      ap (λ h. tally due (now + 1) (60 * (now / 60 + 1)) h d w t c) {x = 3600 * (now / 3600 + 1)}
        {y = 3600 * (tick / 3600 + 1)} (ground arith)

  turn-day :
      (b : Bool)
      → (now % 86400 == 0) ≡ b
      → tally due
          (now + 1)
          (60 * (now / 60 + 1))
          (3600 * (now / 3600 + 1))
          (86400 * (now / 86400 + 1))
          (pop_if b day w)
          t
          c
        ≡ tally due
            (now + 1)
            (60 * (now / 60 + 1))
            (3600 * (now / 3600 + 1))
            (86400 * (tick / 86400 + 1))
            w
            t
            c
  unfolding pop_if
  turn-day true e =
      ap
        (λ d.
          tally due (now + 1) (60 * (now / 60 + 1)) (3600 * (now / 3600 + 1)) d (pop_up day w) t c)
        {x = 86400 * (now / 86400 + 1)} {y = now + 86400} (ground arith)
      ∙ pop-day c now due t q w v (now + 1) (60 * (now / 60 + 1))
      ∙ ap (λ d. tally due (now + 1) (60 * (now / 60 + 1)) (3600 * (now / 3600 + 1)) d w t c)
          {x = now} {y = 86400 * (tick / 86400 + 1)} (ground arith)
  turn-day false e =
      ap (λ d. tally due (now + 1) (60 * (now / 60 + 1)) (3600 * (now / 3600 + 1)) d w t c)
        {x = 86400 * (now / 86400 + 1)} {y = 86400 * (tick / 86400 + 1)} (ground arith)

-- Within a tick nothing changes the tick.
tick-release : (e : Entry) (rest : Slot) (w : TimingWheel) → (release e rest w).tick ≡ w.tick
unfolding release run_every insert_entry insert_second_entry insert_minute_entry insert_hour_entry
tick-release (plain (shared k)) rest w = ground arith
tick-release (plain (once k)) rest w = refl
tick-release (plain (every k i)) rest w =
    (insert_delay-Untouched (at_least_one i) (every k i) (emit (ran_every k) w)).1
tick-release (to_second d p) rest w = refl
tick-release (to_minute d p) rest w = refl
tick-release (to_hour d p) rest w = refl

tick-release_all : (s : Slot) (w : TimingWheel) → (release_all s w).tick ≡ w.tick
unfolding release_all
tick-release_all [] w = refl
tick-release_all (e ∷ es) w = tick-release_all es (release e es w) ∙ tick-release e es w

tick-pop_up : (type : TimingType) (w : TimingWheel) → (pop_up type w).tick ≡ w.tick
unfolding pop_up pop_slots
tick-pop_up type w = go type (wheel type w)
  where
    go : (type : TimingType) (ss : List Slot) → (pop_slots type ss w).tick ≡ w.tick
    go second [] = refl
    go minute [] = refl
    go hour [] = refl
    go day [] = refl
    go second (tmp ∷ rest) = tick-release_all tmp (with_wheel second (rest ++ ([] ∷ [])) w)
    go minute (tmp ∷ rest) = tick-release_all tmp (with_wheel minute (rest ++ ([] ∷ [])) w)
    go hour (tmp ∷ rest) = tick-release_all tmp (with_wheel hour (rest ++ ([] ∷ [])) w)
    go day (tmp ∷ rest) = tick-release_all tmp (with_wheel day (rest ++ ([] ∷ [])) w)

tick-pop_if : (b : Bool) (type : TimingType) (w : TimingWheel) → (pop_if b type w).tick ≡ w.tick
unfolding pop_if
tick-pop_if true type w = tick-pop_up type w
tick-pop_if false type w = refl

module _ (w : TimingWheel) (h : w.tick + 1 < 2 ^ 64) where
  -- `on_tick` in the order of its parts, with the tick that does not wrap.
  begun : TimingWheel
  begun = pop_up second (record w { tick = w.tick + 1 })

  after_minute : TimingWheel
  after_minute = pop_if ((w.tick + 1) % 60 == 0) minute begun

  after_hour : TimingWheel
  after_hour = pop_if ((w.tick + 1) % 3600 == 0) hour after_minute

  on_tick_parts : on_tick w ≡ pop_if ((w.tick + 1) % 86400 == 0) day after_hour
  unfolding on_tick begun after_minute after_hour
  on_tick_parts =
      ap
        (λ n. pop_if (n % 86400 == 0) day (
          pop_if (n % 3600 == 0) hour
            (pop_if (n % 60 == 0) minute (pop_up second (record w { tick = n })))))
        {x = (w.tick + 1) % 2 ^ 64} {y = w.tick + 1} (omega arith)

  pub tick-on_tick : (on_tick w).tick ≡ w.tick + 1
  unfolding begun after_minute after_hour
  tick-on_tick =
      ap (λ x. x.tick) on_tick_parts
      ∙ tick-pop_if ((w.tick + 1) % 86400 == 0) day after_hour
      ∙ tick-pop_if ((w.tick + 1) % 3600 == 0) hour after_minute
      ∙ tick-pop_if ((w.tick + 1) % 60 == 0) minute begun
      ∙ tick-pop_up second (record w { tick = w.tick + 1 })

  module _ (c : ℕ) (due : Bool) (t : ℕ) (q : When due (w.tick + 1) t) (v : IsValid w) where
    pub on_tick-tally :
        tally due
          (w.tick + 1 + 1)
          (60 * ((w.tick + 1) / 60 + 1))
          (3600 * ((w.tick + 1) / 3600 + 1))
          (86400 * ((w.tick + 1) / 86400 + 1))
          (on_tick w)
          t
          c
        ≡ tally due
            (w.tick + 1)
            (60 * (w.tick / 60 + 1))
            (3600 * (w.tick / 3600 + 1))
            (86400 * (w.tick / 86400 + 1))
            w
            t
            c
    unfolding begun after_minute after_hour
    on_tick-tally =
        ap
          (λ x.
            tally due (w.tick + 1 + 1) (60 * ((w.tick + 1) / 60 + 1))
              (3600 * ((w.tick + 1) / 3600 + 1)) (86400 * ((w.tick + 1) / 86400 + 1)) x t c)
          on_tick_parts
        ∙ turn-day c w.tick due t q after_hour vh ((w.tick + 1) % 86400 == 0) refl
        ∙ turn-hour c w.tick due t q after_minute vm ((w.tick + 1) % 3600 == 0)
            (86400 * (w.tick / 86400 + 1)) refl
        ∙ turn-minute c w.tick due t q begun vs ((w.tick + 1) % 60 == 0)
            (3600 * (w.tick / 3600 + 1)) (86400 * (w.tick / 86400 + 1)) refl
        ∙ pop-second c (w.tick + 1) due t q (record w { tick = w.tick + 1 }) v0
            (60 * (w.tick / 60 + 1)) (3600 * (w.tick / 3600 + 1)) (86400 * (w.tick / 86400 + 1))
        ∙ (unfold tally pending_from in refl)
      where
        v0 : IsValid (record w { tick = w.tick + 1 })
        v0 = same-IsValid w w.last_ts (w.tick + 1) w.ran v

        vs : IsValid begun
        vs = pop_up-IsValid second (record w { tick = w.tick + 1 }) v0

        vm : IsValid after_minute
        vm = pop_if-IsValid ((w.tick + 1) % 60 == 0) minute begun vs

        vh : IsValid after_hour
        vh = pop_if-IsValid ((w.tick + 1) % 3600 == 0) hour after_minute vm
