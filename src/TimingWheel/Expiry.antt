-- ===== src/TimingWheel/Expiry.antt =====
-- When the wheel of src/network/net/TimingWheel.cpp destroys an object that is shared.
use tmms.Common.{
  ℕ, ◌+◌, ◌-◌, ◌/◌, ◌%◌, ◌^◌, ◌<◌, max, ◌≡◌, refl, sym, ap, ap₂, ◌∙◌, inl, inr, Bool, true, false,
  ◌||◌, not, some, List, [], ◌∷◌, ◌++◌, arith, length, ltb, ◌==◌, if◌then◌else◌, ==_iff, Bool-cases,
}
use tmms.TimingWheel.{
  TimingWheel, Entry, Slot, Payload, plain, to_second, to_minute, to_hour, shared, once, every,
  payload, is_shared, refers, refers_any, referred, emplace_at, destroyed, ran_once, ran_every,
  at_least_one, insert_second_entry, insert_minute_entry, insert_hour_entry, insert_day_entry,
  insert_delay, insert_entry, run_every, release, release_all, emit, TimingType, second, minute,
  hour, day, wheel, with_wheel, pop_slots, pop_up, pop_if, on_tick,
}
use tmms.TimingWheel.Shape.{IsValid, All, AllSlots, IsSecond}
use tmms.TimingWheel.Shared.{
  last_at, coarse, ends, view, ends-append, refers_any-emplace_at, last_at-emplace_at,
  last_at-emplace_self, refers_any-last_at, last_at-rotate, refers_any-rotate,
}

module _ (k : ℕ) (p : Payload) (other : is_shared k p ≡ false) (delay : ℕ) (w : TimingWheel) where
  view-insert_second : view k (insert_second_entry delay (some p) w) ≡ view k w
  unfolding insert_second_entry
  view-insert_second =
      ap (λ n. (n, coarse k w, ends k w.ran))
        (last_at-emplace_at k (at_least_one delay - 1) (plain p) w.seconds other)

  view-insert_minute : view k (insert_minute_entry delay (some p) w) ≡ view k w
  unfolding insert_minute_entry
  view-insert_minute =
      ap
        (λ b.
          (last_at k w.seconds, b || (refers_any k w.hours || refers_any k w.days), ends k w.ran))
        (refers_any-emplace_at k (at_least_one (delay / 60) - 1)
          (to_second (at_least_one (delay % 60)) p) w.minutes other)

  view-insert_hour : view k (insert_hour_entry delay (some p) w) ≡ view k w
  unfolding insert_hour_entry
  view-insert_hour =
      ap
        (λ b.
          (last_at k w.seconds, refers_any k w.minutes || (b || refers_any k w.days), ends k w.ran))
        (refers_any-emplace_at k (at_least_one (delay / 3600) - 1)
          (to_minute (at_least_one (delay % 3600)) p) w.hours other)

  view-insert_day : view k (insert_day_entry delay (some p) w) ≡ view k w
  unfolding insert_day_entry
  view-insert_day =
      ap
        (λ b. (
          last_at k w.seconds,
          refers_any k w.minutes || (refers_any k w.hours || b),
          ends k w.ran,
        ))
        (refers_any-emplace_at k (at_least_one (delay / 86400) - 1)
          (to_hour (at_least_one (delay % 86400)) p) w.days other)

  view-insert_delay : view k (insert_delay delay (some p) w) ≡ view k w
  unfolding insert_delay
  view-insert_delay = if_rule (ltb delay 60) _ _ view-insert_second (
      if_rule (ltb delay 3600) _ _ view-insert_minute (
        if_rule (ltb delay 86400) _ _ view-insert_hour
          (if_rule (ltb 30 (delay / 86400)) _ _ refl view-insert_day)))
    where
      if_rule :
          (b : Bool) (x y : TimingWheel)
          → view k x ≡ view k w
          → view k y ≡ view k w
          → view k (if b then x else y) ≡ view k w
      if_rule true x y vx vy = vx
      if_rule false x y vx vy = vy

-- Other entries that are inserted do not matter to the object.
pub view-insert_entry :
    (k : ℕ) (p : Payload) (delay : ℕ) (w : TimingWheel)
    → is_shared k p ≡ false
    → view k (insert_entry delay (some p) w) ≡ view k w
unfolding insert_entry
view-insert_entry k p delay w other = view-insert_delay k p other (at_least_one delay) w

-- Nor do other entries that are destroyed.
view-release :
    (k : ℕ) (e : Entry) (rest : Slot) (w : TimingWheel)
    → is_shared k (payload e) ≡ false
    → view k (release e rest w) ≡ view k w
unfolding release run_every ends
view-release k (plain (shared j)) rest w other = elim (Bool-cases (refers j rest || referred j w)) [
  | inl still ↦ rw still refl
  | inr gone ↦ rw gone (
      ap (λ n. (last_at k w.seconds, coarse k w, n))
        (ends-append k w.ran (destroyed j ∷ []) ∙ ground (arith, other)))
]
view-release k (plain (once c)) rest w other =
    ap (λ n. (last_at k w.seconds, coarse k w, n))
      (ends-append k w.ran (ran_once c ∷ []) ∙ omega arith)
view-release k (plain (every c i)) rest w other =
    view-insert_entry k (every c i) i (emit (ran_every c) w) refl
    ∙ ap (λ n. (last_at k w.seconds, coarse k w, n))
        (ends-append k w.ran (ran_every c ∷ []) ∙ omega arith)
view-release k (to_second d p) rest w other = view-insert_second k p other d w
view-release k (to_minute d p) rest w other = view-insert_minute k p other d w
view-release k (to_hour d p) rest w other = view-insert_hour k p other d w

-- A slot that does not refer to the object.
view-release_all :
    (k : ℕ) (s : Slot) (w : TimingWheel) → refers k s ≡ false → view k (release_all s w) ≡ view k w
unfolding release_all refers
view-release_all k [] w none_here = refl
view-release_all k (e ∷ es) w none_here =
    view-release_all k es (release e es w) (ground (arith, none_here))
    ∙ view-release k e es w (ground (arith, none_here))

-- A slot of the wheel of seconds, of which this is the last reference or not.
module _ (k : ℕ) where
  release_self :
      (rest : Slot) (w : TimingWheel)
      → coarse k w ≡ false
      → view k (release (plain (shared k)) rest w) ≡ (
        last_at k w.seconds,
        false,
        ends k w.ran + (if refers k rest || not (last_at k w.seconds == 0) then 0 else 1),
      )
  unfolding release referred ends
  release_self rest w fine = elim (Bool-cases (refers k rest || referred k w)) [
    | inl still ↦ rw still (
        ap₂ (λ b n. (last_at k w.seconds, b, n)) fine
          (ground (arith, still, fine, refers_any-last_at k w.seconds)))
    | inr gone ↦ rw gone (
        ap₂ (λ b n. (last_at k w.seconds, b, n)) fine
          (ends-append k w.ran (destroyed k ∷ [])
            ∙ ground (arith, gone, fine, refers_any-last_at k w.seconds)))
  ]

  own-shared : (p : Payload) → is_shared k p ≡ true → p ≡ shared k
  own-shared (shared j) h = ap shared ((==_iff j k).0 h)
  own-shared (once c) h = absurd (ground (arith, h))
  own-shared (every c i) h = absurd (ground (arith, h))

  view-release_own :
      (p : Payload) (rest : Slot) (w : TimingWheel)
      → coarse k w ≡ false
      → is_shared k p ≡ true
      → view k (release (plain p) rest w) ≡ (
        last_at k w.seconds,
        false,
        ends k w.ran + (if refers k rest || not (last_at k w.seconds == 0) then 0 else 1),
      )
  view-release_own p rest w fine own =
      ap (λ q. view k (release (plain q) rest w)) (own-shared p own) ∙ release_self rest w fine

  -- An entry before the last reference.
  view-release_early :
      (p : Payload) (rest : Slot) (w : TimingWheel)
      → coarse k w ≡ false
      → refers k rest ≡ true
      → view k (release (plain p) rest w) ≡ view k w
  view-release_early p rest w fine later = elim (Bool-cases (is_shared k p)) [
    | inl own ↦
        view-release_own p rest w fine own
        ∙ ap₂ (λ b n. (last_at k w.seconds, b, n)) (sym fine) (ground (arith, later))
    | inr other ↦ view-release k (plain p) rest w other
  ]

  -- The object is destroyed with the last reference.
  pub release_all_self :
      (s : Slot) (w : TimingWheel)
      → All IsSecond s
      → coarse k w ≡ false
      → refers k s ≡ true
      → view k (release_all s w)
        ≡ (last_at k w.seconds, false, ends k w.ran + (if last_at k w.seconds == 0 then 1 else 0))
  unfolding release_all refers
  release_all_self [] w a fine here = cc
  release_all_self (plain p ∷ es) w a fine here = elim (Bool-cases (refers k es)) [
    | inl later ↦
        let same = view-release_early p es w fine later in
        release_all_self es (release (plain p) es w) a.1 (ap (λ v. v.1) same ∙ fine) later
        ∙ ap (λ v. (v.0, false, v.2 + (if v.0 == 0 then 1 else 0))) same
    | inr last ↦
        view-release_all k es (release (plain p) es w) last
        ∙ view-release_own p es w fine (ground (arith, here, last))
        ∙ ap (λ n. (last_at k w.seconds, false, n)) (ground (arith, last))
  ]
  release_all_self (to_second d p ∷ es) w a fine here = absurd a.0
  release_all_self (to_minute d p ∷ es) w a fine here = absurd a.0
  release_all_self (to_hour d p ∷ es) w a fine here = absurd a.0

-- What a tick does to the last slot of an object and to the count of its ends.
abbrev pub next : ℕ → ℕ
next n = n - 1

abbrev pub ending : ℕ → ℕ
ending n = if n == 1 then 1 else 0

module _ (k : ℕ) where
  abbrev joined : ℕ → Bool × ℕ → ℕ × Bool × ℕ
  joined n (b, m) = (n, b, m)

  view-pop_second :
      (ss : List Slot) (w : TimingWheel)
      → 0 < length ss
      → AllSlots IsSecond ss
      → coarse k w ≡ false
      → view k (pop_slots second ss w)
        ≡ (next (last_at k ss), false, ends k w.ran + ending (last_at k ss))
  unfolding pop_slots last_at
  view-pop_second [] w some_slot a fine = absurd (omega arith)
  view-pop_second (s ∷ ss) w some_slot a fine = elim (Bool-cases (refers k s)) [
    | inl here ↦
        release_all_self k s (with_wheel second (ss ++ ([] ∷ [])) w) a.0 fine here
        ∙ ap₂ (λ n m. (n, false, m)) (last_at-rotate k ss ∙ ground (arith, here))
            (ground (arith, here, last_at-rotate k ss))
    | inr gone ↦
        view-release_all k s (with_wheel second (ss ++ ([] ∷ [])) w) gone
        ∙ ap₂ joined (last_at-rotate k ss ∙ ground (arith, gone))
            (ap₂ (λ b n. (b, n)) fine (ground (arith, gone)))
  ]

  -- The coarser wheels, which do not refer to the object.
  view-pop_coarse :
      (type : TimingType) (w : TimingWheel)
      → refers_any k (wheel type w) ≡ false
      → ((ss : List Slot) → refers_any k ss ≡ false → view k (with_wheel type ss w) ≡ view k w)
      → view k (pop_up type w) ≡ view k w
  unfolding pop_up pop_slots refers_any
  view-pop_coarse type w none_here keeps = go (wheel type w) none_here
    where
      go : (ss : List Slot) → refers_any k ss ≡ false → view k (pop_slots type ss w) ≡ view k w
      go [] h = refl
      go (s ∷ ss) h =
          view-release_all k s (with_wheel type (ss ++ ([] ∷ [])) w) (ground (arith, h))
          ∙ keeps (ss ++ ([] ∷ [])) (refers_any-rotate k ss ∙ ground (arith, h))

  view-pop_minute :
      (b : Bool) (w : TimingWheel) → coarse k w ≡ false → view k (pop_if b minute w) ≡ view k w
  unfolding pop_if
  view-pop_minute true w fine = view-pop_coarse minute w (ground (arith, fine)) (λ ss h.
      ap
        (λ b.
          (last_at k w.seconds, b || (refers_any k w.hours || refers_any k w.days), ends k w.ran))
        (h ∙ ground (arith, fine)))
  view-pop_minute false w fine = refl

  view-pop_hour :
      (b : Bool) (w : TimingWheel) → coarse k w ≡ false → view k (pop_if b hour w) ≡ view k w
  unfolding pop_if
  view-pop_hour true w fine = view-pop_coarse hour w (ground (arith, fine)) (λ ss h.
      ap
        (λ b.
          (last_at k w.seconds, refers_any k w.minutes || (b || refers_any k w.days), ends k w.ran))
        (h ∙ ground (arith, fine)))
  view-pop_hour false w fine = refl

  view-pop_day :
      (b : Bool) (w : TimingWheel) → coarse k w ≡ false → view k (pop_if b day w) ≡ view k w
  unfolding pop_if
  view-pop_day true w fine = view-pop_coarse day w (ground (arith, fine)) (λ ss h.
      ap
        (λ b. (
          last_at k w.seconds,
          refers_any k w.minutes || (refers_any k w.hours || b),
          ends k w.ran,
        ))
        (h ∙ ground (arith, fine)))
  view-pop_day false w fine = refl

  -- One tick.
  pub view-on_tick :
      (w : TimingWheel)
      → IsValid w
      → coarse k w ≡ false
      → view k (on_tick w)
        ≡ (next (last_at k w.seconds), false, ends k w.ran + ending (last_at k w.seconds))
  unfolding on_tick pop_up
  view-on_tick w v fine =
      let tick' = (w.tick + 1) % 2 ^ 64 in
      let w' = record w { tick = tick' } in
      let s = view-pop_second w.seconds w' (omega (arith, v.second_slots)) v.second_entries fine in
      let m = view-pop_minute (tick' % 60 == 0) (pop_up second w') (ap (λ x. x.1) s) ∙ s in
      let h =
        view-pop_hour (tick' % 3600 == 0) (pop_if (tick' % 60 == 0) minute (pop_up second w'))
          (ap (λ x. x.1) m)
        ∙ m in
      view-pop_day (tick' % 86400 == 0)
        (pop_if (tick' % 3600 == 0) hour (pop_if (tick' % 60 == 0) minute (pop_up second w')))
        (ap (λ x. x.1) h)
      ∙ h

-- The object put into the wheel of seconds.
pub view-insert_self :
    (k d : ℕ) (w : TimingWheel)
    → 0 < d
    → d < 60
    → length w.seconds ≡ 60
    → view k (insert_entry d (some (shared k)) w)
      ≡ (max (last_at k w.seconds) d, coarse k w, ends k w.ran)
unfolding insert_entry insert_delay insert_second_entry
view-insert_self k d w pos short slots =
    ap (view k) inserted
    ∙ ap (λ n. (n, coarse k w, ends k w.ran))
        (last_at-emplace_self k (d - 1) w.seconds (omega (arith, slots)) ∙ ground arith)
  where
    inserted :
        insert_entry d (some (shared k)) w
        ≡ record w { seconds = emplace_at (d - 1) (plain (shared k)) w.seconds }
    inserted = ground arith

pub referred-last_at :
    (k : ℕ) (w : TimingWheel) → referred k w ≡ not (last_at k w.seconds == 0) || coarse k w
unfolding referred
referred-last_at k w = ap (λ b. b || coarse k w) (refers_any-last_at k w.seconds)
