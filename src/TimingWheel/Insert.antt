-- ===== src/TimingWheel/Insert.antt =====
-- What an insertion and the destruction of an entry add to the pending calls, in
-- src/network/net/TimingWheel.cpp.
use tmms.Common.{
  ℕ, ◌+◌, ◌-◌, ◌*◌, ◌/◌, ◌%◌, ◌≤◌, ◌<◌, min, ◌≡◌, refl, ap, ◌∙◌, inl, inr, Bool, true, false, ◌||◌,
  Option, some, [], ◌∷◌, arith, ltb, if◌then◌else◌, lt→ltb, ltb_refuted, Bool-cases,
}
use tmms.TimingWheel.{
  TimingWheel, Entry, Slot, Payload, plain, to_second, to_minute, to_hour, shared, once, every,
  at_least_one, ran_once, ran_every, destroyed, insert_second_entry, insert_minute_entry,
  insert_hour_entry, insert_day_entry, insert_delay, insert_entry, run_every, emit, release, refers,
  referred,
}
use tmms.TimingWheel.Shape.{IsValid}
use tmms.TimingWheel.Count.{
  hit, hit_payload, pending_from, pending, minute_tick, hour_tick, day_tick, runs, runs-append,
  count_slots-emplace_at, count_slots-emplace_at_none,
}

-- The tick at which a call inserted at tick `now` runs.
abbrev pub deadline : ℕ → ℕ → ℕ
deadline now delay =
    if ltb delay 60
    then now + at_least_one delay
    else if ltb delay 3600
    then minute_tick now delay
    else if ltb delay 86400
    then hour_tick now delay
    else day_tick now delay

module _ (t c : ℕ) (w : TimingWheel) (v : IsValid w) (p : Payload) (now : ℕ) where
  pub pending-insert_second :
      (delay m h d : ℕ)
      → delay ≤ 60
      → pending_from (now + 1) m h d (insert_second_entry delay (some p) w) t c
        ≡ pending_from (now + 1) m h d w t c + hit_payload (now + at_least_one delay) p t c
  unfolding pending_from insert_second_entry hit
  pending-insert_second delay m h d fit = omega (
    arith,
    count_slots-emplace_at t c (now + 1) 1 (at_least_one delay - 1) (plain p) w.seconds
        (ground arith),
    ap (λ r. hit_payload r p t c) {x = now + 1 + (at_least_one delay - 1) * 1}
        {y = now + at_least_one delay} (ground arith),
  )

  pub pending-insert_minute :
      (delay s h d : ℕ)
      → delay < 3600
      → pending_from s (60 * (now / 60 + 1)) h d (insert_minute_entry delay (some p) w) t c
        ≡ pending_from s (60 * (now / 60 + 1)) h d w t c + hit_payload (minute_tick now delay) p t c
  unfolding pending_from insert_minute_entry hit
  pending-insert_minute delay s h d fit = omega (
    arith,
    count_slots-emplace_at t c (60 * (now / 60 + 1)) 60 (at_least_one (delay / 60) - 1)
        (to_second (at_least_one (delay % 60)) p) w.minutes (ground arith),
    ap (λ r. hit_payload (r + at_least_one (delay % 60)) p t c)
        {x = 60 * (now / 60 + 1) + (at_least_one (delay / 60) - 1) * 60}
        {y = 60 * (now / 60 + at_least_one (delay / 60))} (ground arith),
  )

  pub pending-insert_hour :
      (delay s m d : ℕ)
      → delay < 86400
      → pending_from s m (3600 * (now / 3600 + 1)) d (insert_hour_entry delay (some p) w) t c
        ≡ pending_from s m (3600 * (now / 3600 + 1)) d w t c
          + hit_payload (hour_tick now delay) p t c
  unfolding pending_from insert_hour_entry hit
  pending-insert_hour delay s m d fit = omega (
    arith,
    count_slots-emplace_at t c (3600 * (now / 3600 + 1)) 3600 (at_least_one (delay / 3600) - 1)
        (to_minute (at_least_one (delay % 3600)) p) w.hours (ground arith),
    ap (λ r. hit_payload (minute_tick r (at_least_one (delay % 3600))) p t c)
        {x = 3600 * (now / 3600 + 1) + (at_least_one (delay / 3600) - 1) * 3600}
        {y = 3600 * (now / 3600 + at_least_one (delay / 3600))} (ground arith),
  )

  pub pending-insert_day :
      (delay s m h : ℕ)
      → delay / 86400 ≤ 30
      → pending_from s m h (86400 * (now / 86400 + 1)) (insert_day_entry delay (some p) w) t c
        ≡ pending_from s m h (86400 * (now / 86400 + 1)) w t c
          + hit_payload (day_tick now delay) p t c
  unfolding pending_from insert_day_entry hit
  pending-insert_day delay s m h fit = omega (
    arith,
    count_slots-emplace_at t c (86400 * (now / 86400 + 1)) 86400 (at_least_one (delay / 86400) - 1)
        (to_hour (at_least_one (delay % 86400)) p) w.days (ground arith),
    ap (λ r. hit_payload (hour_tick r (at_least_one (delay % 86400))) p t c)
        {x = 86400 * (now / 86400 + 1) + (at_least_one (delay / 86400) - 1) * 86400}
        {y = 86400 * (now / 86400 + at_least_one (delay / 86400))} (ground arith),
  )

-- `InsertEntry` with a delay of at most 30 days adds exactly one pending call, at its deadline.
pub pending-insert_delay :
    (t c delay : ℕ) (p : Payload) (w : TimingWheel)
    → IsValid w
    → delay / 86400 ≤ 30
    → pending (insert_delay delay (some p) w) t c
      ≡ pending w t c + hit_payload (deadline w.tick delay) p t c
unfolding pending insert_delay insert_second_entry insert_minute_entry insert_hour_entry
    insert_day_entry
pending-insert_delay t c delay p w v fit = elim (Bool-cases (ltb delay 60)) [
  | inl in_minute ↦ rw in_minute (pending-insert_second t c w v p w.tick delay _ _ _ (ground arith))
  | inr a ↦ elim (Bool-cases (ltb delay 3600)) [
    | inl in_hour ↦
        rw (a, in_hour) (pending-insert_minute t c w v p w.tick delay _ _ _ (ground arith))
    | inr b ↦ elim (Bool-cases (ltb delay 86400)) [
      | inl in_day ↦
          rw (a, b, in_day) (pending-insert_hour t c w v p w.tick delay _ _ _ (ground arith))
      | inr z ↦
          rw (a, b, z, ltb_refuted 30 (delay / 86400) fit)
            (pending-insert_day t c w v p w.tick delay _ _ _ fit)
    ]
  ]
]

-- A longer delay is refused: nothing changes.
pub insert_delay_refused :
    (delay : ℕ) (p : Payload) (w : TimingWheel)
    → 30 < delay / 86400
    → insert_delay delay (some p) w ≡ w
unfolding insert_delay
insert_delay_refused delay p w far = rw (
  ltb_refuted delay 60 (omega arith),
  ltb_refuted delay 3600 (omega arith),
  ltb_refuted delay 86400 (omega arith),
  lt→ltb 30 (delay / 86400) far,
)

-- To prove something of `InsertEntry`, prove it of each insertion, and of the refusal.
pub insert_delay_cases :
    (P : TimingWheel → Type 0) (delay : ℕ) (p : Option Payload) (w : TimingWheel)
    → P w
    → P (insert_second_entry delay p w)
    → P (insert_minute_entry delay p w)
    → P (insert_hour_entry delay p w)
    → P (insert_day_entry delay p w)
    → P (insert_delay delay p w)
unfolding insert_delay
insert_delay_cases P delay p w refused sec min hr dy = pick (ltb delay 60) _ _ sec (
    pick (ltb delay 3600) _ _ min
      (pick (ltb delay 86400) _ _ hr (pick (ltb 30 (delay / 86400)) _ _ refused dy)))
  where
    pick : (b : Bool) (x y : TimingWheel) → P x → P y → P (if b then x else y)
    pick true x y px py = px
    pick false x y px py = py

-- A repeated call adds no one-shot call.
module _ (t c : ℕ) (s m h d : ℕ) (w : TimingWheel) (k i : ℕ) where
  insert_delay-every :
      (delay : ℕ)
      → pending_from s m h d (insert_delay delay (some (every k i)) w) t c
        ≡ pending_from s m h d w t c
  unfolding pending_from insert_second_entry insert_minute_entry insert_hour_entry insert_day_entry
      hit hit_payload
  insert_delay-every delay =
      insert_delay_cases (λ x. pending_from s m h d x t c ≡ pending_from s m h d w t c) delay
        (some (every k i)) w refl
        (omega (
          arith,
          count_slots-emplace_at_none t c s 1 (at_least_one delay - 1) (plain (every k i)) w.seconds
              (λ r. refl),
        ))
        (omega (
          arith,
          count_slots-emplace_at_none t c m 60 (at_least_one (delay / 60) - 1)
              (to_second (at_least_one (delay % 60)) (every k i)) w.minutes (λ r. refl),
        ))
        (omega (
          arith,
          count_slots-emplace_at_none t c h 3600 (at_least_one (delay / 3600) - 1)
              (to_minute (at_least_one (delay % 3600)) (every k i)) w.hours (λ r. refl),
        ))
        (omega (
          arith,
          count_slots-emplace_at_none t c d 86400 (at_least_one (delay / 86400) - 1)
              (to_hour (at_least_one (delay % 86400)) (every k i)) w.days (λ r. refl),
        ))

-- An insertion changes nothing but the slots.
abbrev pub Untouched : TimingWheel → TimingWheel → Type 0
Untouched w x = (x.ran ≡ w.ran) × (x.tick ≡ w.tick) × (x.last_ts ≡ w.last_ts)

pub insert_delay-Untouched :
    (delay : ℕ) (p : Payload) (w : TimingWheel) → Untouched w (insert_delay delay (some p) w)
unfolding insert_second_entry insert_minute_entry insert_hour_entry insert_day_entry
insert_delay-Untouched delay p w =
    insert_delay_cases (Untouched w) delay (some p) w (refl, refl, refl) (refl, refl, refl)
      (refl, refl, refl) (refl, refl, refl) (refl, refl, refl)

pub release-plain :
    (t c s m h d : ℕ) (p : Payload) (rest : Slot) (w : TimingWheel)
    → pending_from s m h d (release (plain p) rest w) t c ≡ pending_from s m h d w t c
unfolding release run_every insert_entry
release-plain t c s m h d (shared k) rest w = elim (Bool-cases (refers k rest || referred k w)) [
  | inl still ↦ rw still
  | inr gone ↦ rw gone (unfold pending_from in refl)
]
release-plain t c s m h d (once k) rest w = unfold pending_from in refl
release-plain t c s m h d (every k i) rest w =
    insert_delay-every t c s m h d (emit (ran_every k) w) k i (at_least_one i)
    ∙ (unfold pending_from in refl)

-- Nothing is due before its tick.
pub hit_payload_late : (due : ℕ) (p : Payload) (t c : ℕ) → t < due → hit_payload due p t c ≡ 0
unfolding hit_payload
hit_payload_late due (shared k) t c h = refl
hit_payload_late due (once k) t c h = ground arith
hit_payload_late due (every k i) t c h = refl

-- What moves to a finer wheel still waits there.
abbrev pub Delayed : Entry → Type 0
Delayed (to_second d p) = 0 < d
Delayed _ = Unit {0}

pub minute_tick_later : (now delay : ℕ) → now < minute_tick now delay
minute_tick_later now delay = ground arith

pub hour_tick_later : (now delay : ℕ) → now < hour_tick now delay
hour_tick_later now delay = omega (
  arith,
  minute_tick_later (3600 * (now / 3600 + at_least_one (delay / 3600)))
      (at_least_one (delay % 3600)),
  hour_boundary now delay,
)
  where
    hour_boundary : (now delay : ℕ) → now < 3600 * (now / 3600 + at_least_one (delay / 3600))
    hour_boundary now delay = ground arith

-- The destruction of an entry at tick `now` runs a one-shot callback exactly if it is due then.
pub runs-release :
    (c now : ℕ) (e : Entry) (rest : Slot) (w : TimingWheel)
    → Delayed e
    → runs c (release e rest w).ran ≡ runs c w.ran + hit now e now c
unfolding release run_every insert_entry hit hit_payload runs
runs-release c now (plain (shared k)) rest w p = elim (Bool-cases (refers k rest || referred k w)) [
  | inl still ↦ rw (still, release) (omega arith)
  | inr gone ↦ rw (gone, release) (runs-append c w.ran (destroyed k ∷ []) ∙ omega arith)
]
runs-release c now (plain (once k)) rest w p = runs-append c w.ran (ran_once k ∷ []) ∙ ground arith
runs-release c now (plain (every k i)) rest w p =
    ap (runs c) (insert_delay-Untouched (at_least_one i) (every k i) (emit (ran_every k) w)).0
    ∙ runs-append c w.ran (ran_every k ∷ [])
runs-release c now (to_second d p) rest w q =
    unfold insert_second_entry in omega (arith, hit_payload_late (now + d) p now c (omega arith))
runs-release c now (to_minute d p) rest w q =
    unfold insert_minute_entry in
    omega (arith, hit_payload_late (minute_tick now d) p now c (minute_tick_later now d))
runs-release c now (to_hour d p) rest w q =
    unfold insert_hour_entry in
    omega (arith, hit_payload_late (hour_tick now d) p now c (hour_tick_later now d))
