-- ===== src/TimingWheel/Shape.antt =====
-- The shape of the wheels of src/network/net/TimingWheel.cpp: how many slots each has, and which
-- entries stand in it. Every operation keeps it.
use tmms.Common.{
  ℕ, zero, suc, ◌<◌, ◌≡◌, refl, ap, inl, inr, List, [], ◌∷◌, ◌++◌, arith, length, length-append,
  Bool-cases,
}
use tmms.TimingWheel.{
  TimingWheel, Entry, Slot, plain, to_second, to_minute, to_hour, shared, once, every, emplace,
  emplace_at, holds, TimingType, second, minute, hour, day, wheel, with_wheel, Effect,
}

abbrev pub All : (Entry → Type 0) → Slot → Type 0
All P [] = Unit {0}
All P (e ∷ es) = P e × All P es

abbrev pub AllSlots : (Entry → Type 0) → List Slot → Type 0
AllSlots P [] = Unit {0}
AllSlots P (s ∷ ss) = All P s × AllSlots P ss

-- The entries that stand in each wheel, with the delay that is left.
abbrev pub IsSecond : Entry → Type 0
IsSecond (plain p) = Unit {0}
IsSecond _ = ⊥

abbrev pub IsMinute : Entry → Type 0
IsMinute (to_second d p) = (0 < d) × (d < 60)
IsMinute _ = ⊥

abbrev pub IsHour : Entry → Type 0
IsHour (to_minute d p) = (0 < d) × (d < 3600)
IsHour _ = ⊥

abbrev pub IsDay : Entry → Type 0
IsDay (to_hour d p) = (0 < d) × (d < 86400)
IsDay _ = ⊥

pub record IsValid (w : TimingWheel) : Type 0 where
  pub second_slots : length w.seconds ≡ 60
  pub minute_slots : length w.minutes ≡ 60
  pub hour_slots : length w.hours ≡ 24
  pub day_slots : length w.days ≡ 30
  pub second_entries : AllSlots IsSecond w.seconds
  pub minute_entries : AllSlots IsMinute w.minutes
  pub hour_entries : AllSlots IsHour w.hours
  pub day_entries : AllSlots IsDay w.days

All-snoc : (P : Entry → Type 0) (s : Slot) (e : Entry) → P e → All P s → All P (s ++ (e ∷ []))
All-snoc P [] e h a = (h, tt)
All-snoc P (x ∷ xs) e h a = (a.0, All-snoc P xs e h a.1)

All-emplace : (P : Entry → Type 0) (s : Slot) (e : Entry) → P e → All P s → All P (emplace e s)
unfolding emplace
All-emplace P s (plain (shared k)) h a = elim (Bool-cases (holds k s)) [
  | inl old ↦ rw old a
  | inr new ↦ rw new (All-snoc P s (plain (shared k)) h a)
]
All-emplace P s (plain (once c)) h a = All-snoc P s (plain (once c)) h a
All-emplace P s (plain (every c i)) h a = All-snoc P s (plain (every c i)) h a
All-emplace P s (to_second d p) h a = All-snoc P s (to_second d p) h a
All-emplace P s (to_minute d p) h a = All-snoc P s (to_minute d p) h a
All-emplace P s (to_hour d p) h a = All-snoc P s (to_hour d p) h a

pub AllSlots-emplace_at :
    (P : Entry → Type 0) (i : ℕ) (e : Entry) (ss : List Slot)
    → P e
    → AllSlots P ss
    → AllSlots P (emplace_at i e ss)
unfolding emplace_at
AllSlots-emplace_at P i e [] h a = tt
AllSlots-emplace_at P zero e (s ∷ ss) h a = (All-emplace P s e h a.0, a.1)
AllSlots-emplace_at P (suc i) e (s ∷ ss) h a = (a.0, AllSlots-emplace_at P i e ss h a.1)

pub length-emplace_at :
    (i : ℕ) (e : Entry) (ss : List Slot) → length (emplace_at i e ss) ≡ length ss
unfolding emplace_at
length-emplace_at i e [] = refl
length-emplace_at zero e (s ∷ ss) = refl
length-emplace_at (suc i) e (s ∷ ss) = ap suc (length-emplace_at i e ss)

pub AllSlots-rotate :
    (P : Entry → Type 0) (s : Slot) (ss : List Slot)
    → AllSlots P (s ∷ ss)
    → AllSlots P (ss ++ ([] ∷ []))
AllSlots-rotate P s [] a = (tt, tt)
AllSlots-rotate P s (x ∷ ss) a = (a.1.0, AllSlots-rotate P x ss a.1)

pub length-rotate : (s : Slot) (ss : List Slot) → length (ss ++ ([] ∷ [])) ≡ length (s ∷ ss)
length-rotate s ss = omega (arith, length-append ss ([] ∷ []))

-- The slots that fit each wheel, and a wheel that is given such slots.
abbrev pub Fits : TimingType → List Slot → Type 0
Fits second ss = (length ss ≡ 60) × AllSlots IsSecond ss
Fits minute ss = (length ss ≡ 60) × AllSlots IsMinute ss
Fits hour ss = (length ss ≡ 24) × AllSlots IsHour ss
Fits day ss = (length ss ≡ 30) × AllSlots IsDay ss

pub with_wheel-IsValid :
    (type : TimingType) (ss : List Slot) (w : TimingWheel)
    → Fits type ss
    → IsValid w
    → IsValid (with_wheel type ss w)
with_wheel-IsValid second ss w f v = record {
  second_slots = f.0;
  minute_slots = v.minute_slots;
  hour_slots = v.hour_slots;
  day_slots = v.day_slots;
  second_entries = f.1;
  minute_entries = v.minute_entries;
  hour_entries = v.hour_entries;
  day_entries = v.day_entries;
}
with_wheel-IsValid minute ss w f v = record {
  second_slots = v.second_slots;
  minute_slots = f.0;
  hour_slots = v.hour_slots;
  day_slots = v.day_slots;
  second_entries = v.second_entries;
  minute_entries = f.1;
  hour_entries = v.hour_entries;
  day_entries = v.day_entries;
}
with_wheel-IsValid hour ss w f v = record {
  second_slots = v.second_slots;
  minute_slots = v.minute_slots;
  hour_slots = f.0;
  day_slots = v.day_slots;
  second_entries = v.second_entries;
  minute_entries = v.minute_entries;
  hour_entries = f.1;
  day_entries = v.day_entries;
}
with_wheel-IsValid day ss w f v = record {
  second_slots = v.second_slots;
  minute_slots = v.minute_slots;
  hour_slots = v.hour_slots;
  day_slots = f.0;
  second_entries = v.second_entries;
  minute_entries = v.minute_entries;
  hour_entries = v.hour_entries;
  day_entries = f.1;
}

pub wheel-Fits : (type : TimingType) (w : TimingWheel) → IsValid w → Fits type (wheel type w)
wheel-Fits second w v = (v.second_slots, v.second_entries)
wheel-Fits minute w v = (v.minute_slots, v.minute_entries)
wheel-Fits hour w v = (v.hour_slots, v.hour_entries)
wheel-Fits day w v = (v.day_slots, v.day_entries)

-- The other fields of a wheel do not matter to its shape.
pub same-IsValid :
    (w : TimingWheel) (last tick : ℕ) (out : List Effect)
    → IsValid w
    → IsValid (record w { last_ts = last; tick = tick; ran = out })
same-IsValid w last tick out v = record {
  second_slots = v.second_slots;
  minute_slots = v.minute_slots;
  hour_slots = v.hour_slots;
  day_slots = v.day_slots;
  second_entries = v.second_entries;
  minute_entries = v.minute_entries;
  hour_entries = v.hour_entries;
  day_entries = v.day_entries;
}
