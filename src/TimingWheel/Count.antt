-- ===== src/TimingWheel/Count.antt =====
-- When a one-shot callback in the wheels of src/network/net/TimingWheel.cpp is due, by an
-- independent formula, and how many such callbacks are pending for a tick.
use tmms.Common.{
  ℕ, zero, suc, ◌+◌, ◌*◌, ◌/◌, ◌%◌, ◌<◌, ◌≡◌, refl, ap, inl, inr, ◌&&◌, List, [], ◌∷◌, ◌++◌, arith,
  length, ◌==◌, if◌then◌else◌, Bool-cases,
}
use tmms.TimingWheel.{
  TimingWheel, Entry, Slot, Payload, plain, to_second, to_minute, to_hour, shared, once, every,
  emplace, emplace_at, holds, at_least_one, Effect, ran_once, ran_every, destroyed,
}

-- The tick at which an insertion of `InsertMinuteEntry`, made at tick `now`, comes due: the next
-- minute boundaries are waited for, then the seconds that are left.
abbrev pub minute_tick : ℕ → ℕ → ℕ
minute_tick now delay = 60 * (now / 60 + at_least_one (delay / 60)) + at_least_one (delay % 60)

abbrev pub hour_tick : ℕ → ℕ → ℕ
hour_tick now delay =
    minute_tick (3600 * (now / 3600 + at_least_one (delay / 3600))) (at_least_one (delay % 3600))

abbrev pub day_tick : ℕ → ℕ → ℕ
day_tick now delay =
    hour_tick (86400 * (now / 86400 + at_least_one (delay / 86400))) (at_least_one (delay % 86400))

-- Is this the callback `c`, due at tick `t`?
unfoldable pub hit_payload : ℕ → Payload → ℕ → ℕ → ℕ
hit_payload due (once k) t c = if (k == c) && (due == t) then 1 else 0
hit_payload due _ t c = 0

-- The same of an entry that is destroyed at tick `now`.
unfoldable pub hit : ℕ → Entry → ℕ → ℕ → ℕ
hit now (plain p) t c = hit_payload now p t c
hit now (to_second d p) t c = hit_payload (now + d) p t c
hit now (to_minute d p) t c = hit_payload (minute_tick now d) p t c
hit now (to_hour d p) t c = hit_payload (hour_tick now d) p t c

unfoldable pub count_slot : ℕ → Slot → ℕ → ℕ → ℕ
count_slot now [] t c = 0
count_slot now (e ∷ es) t c = hit now e t c + count_slot now es t c

-- Slots that are popped at `now`, `now + step` and so on.
unfoldable pub count_slots : ℕ → ℕ → List Slot → ℕ → ℕ → ℕ
count_slots now step [] t c = 0
count_slots now step (s ∷ ss) t c = count_slot now s t c + count_slots (now + step) step ss t c

-- Pending calls of `c` at tick `t`, where the front slots of the wheels are popped at these ticks.
unfoldable pub pending_from : ℕ → ℕ → ℕ → ℕ → TimingWheel → ℕ → ℕ → ℕ
pending_from s m h d w t c =
    count_slots s 1 w.seconds t c
    + (count_slots m 60 w.minutes t c
        + (count_slots h 3600 w.hours t c + count_slots d 86400 w.days t c))

-- The next boundary of a wheel after a tick.
abbrev pub next_at : ℕ → ℕ → ℕ
next_at step now = step * (now / step + 1)

-- Between two ticks.
unfoldable pub pending : TimingWheel → ℕ → ℕ → ℕ
unfolding pending_from
pending w t c =
    pending_from (w.tick + 1) (60 * (w.tick / 60 + 1)) (3600 * (w.tick / 3600 + 1))
      (86400 * (w.tick / 86400 + 1)) w t c

-- How often the callback of a `RunAfter` has run.
unfoldable pub runs : ℕ → List Effect → ℕ
runs c [] = 0
runs c (ran_once k ∷ es) = (if k == c then 1 else 0) + runs c es
runs c (ran_every k ∷ es) = runs c es
runs c (destroyed k ∷ es) = runs c es

pub runs-append : (c : ℕ) (xs ys : List Effect) → runs c (xs ++ ys) ≡ runs c xs + runs c ys
unfolding runs
runs-append c [] ys = omega arith
runs-append c (ran_once k ∷ xs) ys = omega (arith, runs-append c xs ys)
runs-append c (ran_every k ∷ xs) ys = runs-append c xs ys
runs-append c (destroyed k ∷ xs) ys = runs-append c xs ys

module _ (t c : ℕ) where
  count_slot-snoc :
      (now : ℕ) (s : Slot) (e : Entry)
      → count_slot now (s ++ (e ∷ [])) t c ≡ count_slot now s t c + hit now e t c
  unfolding count_slot
  count_slot-snoc now [] e = omega arith
  count_slot-snoc now (x ∷ s) e = omega (arith, count_slot-snoc now s e)

  count_slot-emplace :
      (now : ℕ) (s : Slot) (e : Entry)
      → count_slot now (emplace e s) t c ≡ count_slot now s t c + hit now e t c
  unfolding emplace
  count_slot-emplace now s (plain (shared k)) = elim (Bool-cases (holds k s)) [
    | inl old ↦ rw old (unfold hit hit_payload in omega arith)
    | inr new ↦ rw new (count_slot-snoc now s (plain (shared k)))
  ]
  count_slot-emplace now s (plain (once k)) = count_slot-snoc now s (plain (once k))
  count_slot-emplace now s (plain (every k i)) = count_slot-snoc now s (plain (every k i))
  count_slot-emplace now s (to_second d p) = count_slot-snoc now s (to_second d p)
  count_slot-emplace now s (to_minute d p) = count_slot-snoc now s (to_minute d p)
  count_slot-emplace now s (to_hour d p) = count_slot-snoc now s (to_hour d p)

  -- An insertion adds the entry's own hit, at the tick when its slot is popped.
  pub count_slots-emplace_at :
      (now step i : ℕ) (e : Entry) (ss : List Slot)
      → i < length ss
      → count_slots now step (emplace_at i e ss) t c
        ≡ count_slots now step ss t c + hit (now + i * step) e t c
  unfolding count_slots emplace_at
  count_slots-emplace_at now step i e [] h = absurd (omega arith)
  count_slots-emplace_at now step zero e (s ∷ ss) h = omega (
    arith,
    count_slot-emplace now s e,
    ap (λ r. hit r e t c) {x = now + 0 * step} {y = now} (omega arith),
  )
  count_slots-emplace_at now step (suc i) e (s ∷ ss) h = omega (
    arith,
    count_slots-emplace_at (now + step) step i e ss (omega arith),
    ap (λ r. hit r e t c) {x = now + step + i * step} {y = now + suc i * step} (omega arith),
  )

  -- One that is never a hit changes no count, wherever it goes.
  pub count_slots-emplace_at_none :
      (now step i : ℕ) (e : Entry) (ss : List Slot)
      → ((r : ℕ) → hit r e t c ≡ 0)
      → count_slots now step (emplace_at i e ss) t c ≡ count_slots now step ss t c
  unfolding count_slots emplace_at
  count_slots-emplace_at_none now step i e [] h = refl
  count_slots-emplace_at_none now step zero e (s ∷ ss) h =
      omega (arith, count_slot-emplace now s e, h now)
  count_slots-emplace_at_none now step (suc i) e (s ∷ ss) h =
      omega (arith, count_slots-emplace_at_none (now + step) step i e ss h)

  -- Rotation moves each slot one step nearer.
  pub count_slots-rotate :
      (now step : ℕ) (s : Slot) (ss : List Slot)
      → count_slots now step (s ∷ ss) t c
        ≡ count_slot now s t c + count_slots (now + step) step (ss ++ ([] ∷ [])) t c
  unfolding count_slots
  count_slots-rotate now step s ss = omega (arith, tail (now + step) ss)
    where
      tail :
          (r : ℕ) (xs : List Slot)
          → count_slots r step (xs ++ ([] ∷ [])) t c ≡ count_slots r step xs t c
      tail r [] = unfold count_slot in refl
      tail r (x ∷ xs) = ap (λ n. count_slot r x t c + n) (tail (r + step) xs)
