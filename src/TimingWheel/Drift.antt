-- ===== src/TimingWheel/Drift.antt =====
-- How far the deadline of src/network/net/TimingWheel.cpp lies from the delay that was asked for.
use tmms.Common.{
  ℕ, ◌+◌, ◌*◌, ◌/◌, ◌%◌, ◌^◌, ◌≤◌, ◌<◌, ◌≡◌, ap, ◌∙◌, inl, inr, false, arith, ltb, leb,
  if◌then◌else◌, ltb_refuted, Bool-cases,
}
use tmms.TimingWheel.RunAfter.{run_after_schedule}
use tmms.TimingWheel.Shape.{IsValid}
use tmms.TimingWheel.{TimingWheel, ticks, run_after, at_least_one}
use tmms.TimingWheel.Count.{runs, minute_tick, hour_tick, day_tick}
use tmms.TimingWheel.Insert.{deadline}

at_least_one_pos : (n : ℕ) → 0 < n → at_least_one n ≡ n
at_least_one_pos n h = ground arith

minute_early :
    (now delay : ℕ) → 60 ≤ delay → 0 < delay % 60 → minute_tick now delay + now % 60 ≡ now + delay
minute_early now delay h s =
    omega (arith, at_least_one_pos (delay / 60) (omega arith), at_least_one_pos (delay % 60) s)

hour_early :
    (now delay : ℕ)
    → 3600 ≤ delay
    → 60 ≤ delay % 3600
    → 0 < delay % 60
    → hour_tick now delay + now % 3600 ≡ now + delay
hour_early now delay h m s =
    let hours : at_least_one (delay / 3600) ≡ delay / 3600 =
      at_least_one_pos (delay / 3600) (omega arith) in
    let rest : at_least_one (delay % 3600) ≡ delay % 3600 =
      at_least_one_pos (delay % 3600) (omega arith) in
    rw (hours, rest)
      (omega
        (arith, minute_early (3600 * (now / 3600 + delay / 3600)) (delay % 3600) m (omega arith)))

day_early :
    (now delay : ℕ)
    → 86400 ≤ delay
    → 3600 ≤ delay % 86400
    → 60 ≤ delay % 3600
    → 0 < delay % 60
    → day_tick now delay + now % 86400 ≡ now + delay
day_early now delay d h m s =
    let days : at_least_one (delay / 86400) ≡ delay / 86400 =
      at_least_one_pos (delay / 86400) (omega arith) in
    let rest : at_least_one (delay % 86400) ≡ delay % 86400 =
      at_least_one_pos (delay % 86400) (omega arith) in
    rw (days, rest)
      (omega (
        arith,
        hour_early (86400 * (now / 86400 + delay / 86400)) (delay % 86400) h (omega arith)
            (omega arith),
      ))

-- The unit in which the code counts a delay first.
abbrev pub unit : ℕ → ℕ
unit delay =
    if ltb delay 60
    then 1
    else if ltb delay 3600
    then 60
    else if ltb delay 86400
    then 3600
    else 86400

-- The smaller units in which a delay is counted on all have a part to count.
pub record HasParts (delay : ℕ) : Type 0 where
  pub seconds_left : 0 < delay % 60
  pub minutes_left : 3600 ≤ delay → 60 ≤ delay % 3600
  pub hours_left : 86400 ≤ delay → 3600 ≤ delay % 86400

-- A delay with parts in all its smaller units comes due too early by exactly as many ticks as have
-- passed since the last whole unit: by up to a minute, an hour or a day. Only a delay of less than
-- a minute is exact.
pub deadline_early :
    (now delay : ℕ) → HasParts delay → deadline now delay + now % unit delay ≡ now + delay
deadline_early now delay p = elim (Bool-cases (ltb delay 60)) [
  | inl a ↦ rw a (omega (arith, at_least_one_pos delay (omega (arith, p.seconds_left))))
  | inr a ↦ elim (Bool-cases (ltb delay 3600)) [
    | inl b ↦ rw (a, b) (minute_early now delay (ground arith) p.seconds_left)
    | inr b ↦ elim (Bool-cases (ltb delay 86400)) [
      | inl c ↦
          rw (a, b, c)
            (hour_early now delay (not_ltb delay 3600 b) (p.minutes_left (not_ltb delay 3600 b))
              p.seconds_left)
      | inr c ↦
          rw (a, b, c)
            (day_early now delay (not_ltb delay 86400 c) (p.hours_left (not_ltb delay 86400 c))
              (p.minutes_left (not_ltb delay 3600 b)) p.seconds_left)
    ]
  ]
]
  where
    not_ltb : (x y : ℕ) → ltb x y ≡ false → y ≤ x
    not_ltb x y e = ground arith

-- A delay of whole days comes due an hour, a minute and a second late, less the ticks that have
-- passed since the last whole day: each zero part counts as one.
pub deadline_whole_days :
    (now days : ℕ)
    → 0 < days
    → deadline now (86400 * days) + now % 86400 ≡ now + 86400 * days + 3661
deadline_whole_days now days h =
    rw
      (
        ltb_refuted (86400 * days) 60 (omega arith),
        ltb_refuted (86400 * days) 3600 (omega arith),
        ltb_refuted (86400 * days) 86400 (omega arith),
        whole,
        none_left,
      )
      (omega arith)
  where
    whole : at_least_one (86400 * days / 86400) ≡ days
    whole =
        ap at_least_one {x = 86400 * days / 86400} {y = days} (omega arith)
        ∙ at_least_one_pos days h

    none_left : at_least_one (86400 * days % 86400) ≡ 1
    none_left = ap at_least_one {x = 86400 * days % 86400} {y = 0} (omega arith)

leb-shift : (d x n r k : ℕ) → d + r ≡ x + k → leb d (x + n) ≡ leb k (n + r)
leb-shift d x n r k e = ground arith

-- In a valid wheel of any contents, a call with a delay that has parts in all its smaller units
-- runs as soon as the ticks since its insertion, and those since the last whole unit before it,
-- make up the delay: so early by the latter.
pub run_after_early :
    (delay c n : ℕ) (w : TimingWheel)
    → IsValid w
    → delay / 86400 ≤ 30
    → w.tick + n < 2 ^ 64
    → HasParts delay
    → runs c (ticks n (run_after delay c w)).ran
      ≡ runs c (ticks n w).ran + (if leb delay (n + w.tick % unit delay) then 1 else 0)
run_after_early delay c n w v fit h p =
    run_after_schedule delay c n w v fit h
    ∙ ap (λ b. runs c (ticks n w).ran + (if b then 1 else 0))
        (ap (λ d. leb (deadline w.tick d) (w.tick + n))
            (at_least_one_pos delay (omega (arith, p.seconds_left)))
          ∙ leb-shift (deadline w.tick delay) w.tick n (w.tick % unit delay) delay
              (deadline_early w.tick delay p))

-- A call with a delay of 1 to 30 whole days runs 3661 ticks late, less the ticks between the last
-- whole day and its insertion.
pub run_after_whole_days :
    (days c n : ℕ) (w : TimingWheel)
    → IsValid w
    → 0 < days
    → days ≤ 30
    → w.tick + n < 2 ^ 64
    → runs c (ticks n (run_after (86400 * days) c w)).ran
      ≡ runs c (ticks n w).ran + (if leb (86400 * days + 3661) (n + w.tick % 86400) then 1 else 0)
run_after_whole_days days c n w v some_days few h =
    run_after_schedule (86400 * days) c n w v (omega arith) h
    ∙ ap (λ b. runs c (ticks n w).ran + (if b then 1 else 0))
        (ap (λ d. leb (deadline w.tick d) (w.tick + n))
            (at_least_one_pos (86400 * days) (omega arith))
          ∙ leb-shift (deadline w.tick (86400 * days)) w.tick n (w.tick % 86400)
              (86400 * days + 3661) (omega (arith, deadline_whole_days w.tick days some_days)))
