-- ===== src/TimingWheel/RunAfter.antt =====
-- `RunAfter` of src/network/net/TimingWheel.cpp: a call runs at its deadline, once, whatever else
-- is in the wheels; and how far the deadline lies from the delay that was asked for.
use tmms.Common.{
  ℕ, zero, suc, ◌+◌, ◌*◌, ◌/◌, ◌%◌, ◌^◌, ◌≤◌, ◌<◌, ◌≡◌, refl, sym, ap, ◌∙◌, Bool, true, false, ◌&&◌,
  some, List, [], ◌∷◌, arith, ltb, leb, ◌==◌, if◌then◌else◌, leb_refuted, ==_self,
}
use tmms.TimingWheel.{
  TimingWheel, Entry, Slot, plain, to_second, to_minute, to_hour, once, on_tick, ticks, run_after,
  insert_entry, insert_delay, at_least_one,
}
use tmms.TimingWheel.Shape.{IsValid}
use tmms.TimingWheel.Kept.{on_tick-IsValid, insert_entry-IsValid}
use tmms.TimingWheel.Count.{
  hit, hit_payload, count_slot, count_slots, pending_from, pending, minute_tick, hour_tick,
  day_tick, runs,
}
use tmms.TimingWheel.Insert.{
  deadline, pending-insert_delay, hit_payload_late, insert_delay-Untouched, minute_tick_later,
  hour_tick_later,
}
use tmms.TimingWheel.Schedule.{tally}
use tmms.TimingWheel.Ticks.{on_tick-tally, tick-on_tick}

module _ (t c : ℕ) where
  hit_late : (now : ℕ) (e : Entry) → t < now → hit now e t c ≡ 0
  unfolding hit
  hit_late now (plain p) h = hit_payload_late now p t c h
  hit_late now (to_second d p) h = hit_payload_late (now + d) p t c (omega arith)
  hit_late now (to_minute d p) h =
      hit_payload_late (minute_tick now d) p t c (omega (arith, minute_tick_later now d))
  hit_late now (to_hour d p) h =
      hit_payload_late (hour_tick now d) p t c (omega (arith, hour_tick_later now d))

  count_slot_late : (now : ℕ) (s : Slot) → t < now → count_slot now s t c ≡ 0
  unfolding count_slot
  count_slot_late now [] h = refl
  count_slot_late now (e ∷ es) h = omega (arith, hit_late now e h, count_slot_late now es h)

  count_slots_late : (now step : ℕ) (ss : List Slot) → t < now → count_slots now step ss t c ≡ 0
  unfolding count_slots
  count_slots_late now step [] h = refl
  count_slots_late now step (s ∷ ss) h =
      omega (arith, count_slot_late now s h, count_slots_late (now + step) step ss (omega arith))

  -- Nothing is pending for a tick that is over.
  pub pending_over : (w : TimingWheel) → t ≤ w.tick → pending w t c ≡ 0
  unfolding pending pending_from
  pending_over w h = omega (
    arith,
    count_slots_late (w.tick + 1) 1 w.seconds (omega arith),
    count_slots_late (60 * (w.tick / 60 + 1)) 60 w.minutes (omega arith),
    count_slots_late (3600 * (w.tick / 3600 + 1)) 3600 w.hours (omega arith),
    count_slots_late (86400 * (w.tick / 86400 + 1)) 86400 w.days (omega arith),
  )

module _ (c : ℕ) (w : TimingWheel) (v : IsValid w) (h : w.tick + 1 < 2 ^ 64) where
  pending_eq :
      (t : ℕ)
      → pending_from
          (w.tick + 1 + 1)
          (60 * ((w.tick + 1) / 60 + 1))
          (3600 * ((w.tick + 1) / 3600 + 1))
          (86400 * ((w.tick + 1) / 86400 + 1))
          (on_tick w)
          t
          c
        ≡ pending (on_tick w) t c
  unfolding pending
  pending_eq t =
      ap
        (λ n.
          pending_from (n + 1) (60 * (n / 60 + 1)) (3600 * (n / 3600 + 1)) (86400 * (n / 86400 + 1))
            (on_tick w) t c)
        (sym (tick-on_tick w h))

  -- A round of the loop runs exactly the one-shot calls that are due at the new tick, each as often
  -- as it is pending.
  pub runs-on_tick : runs c (on_tick w).ran ≡ runs c w.ran + pending w (w.tick + 1) c
  runs-on_tick =
      let due : runs c (on_tick w).ran
            + pending_from (w.tick + 1 + 1) (60 * ((w.tick + 1) / 60 + 1))
                (3600 * ((w.tick + 1) / 3600 + 1)) (86400 * ((w.tick + 1) / 86400 + 1)) (on_tick w)
                (w.tick + 1) c
          ≡ runs c w.ran + pending w (w.tick + 1) c =
        unfold tally pending in on_tick-tally w h c true (w.tick + 1) refl v in
      omega (
        arith,
        due,
        pending_eq (w.tick + 1),
        pending_over (w.tick + 1) c (on_tick w) (omega (arith, tick-on_tick w h)),
      )

  -- All later calls stay pending for the same ticks.
  pub pending-on_tick : (t : ℕ) → w.tick + 1 < t → pending (on_tick w) t c ≡ pending w t c
  pending-on_tick t later =
      let kept : 0
            + pending_from (w.tick + 1 + 1) (60 * ((w.tick + 1) / 60 + 1))
                (3600 * ((w.tick + 1) / 3600 + 1)) (86400 * ((w.tick + 1) / 86400 + 1)) (on_tick w)
                t c
          ≡ 0 + pending w t c =
        unfold tally pending in on_tick-tally w h c false t later v in
      omega (arith, kept, pending_eq t)

abbrev one_if : Bool → ℕ
one_if b = if b then 1 else 0

-- Two wheels at the same tick that differ by one call with deadline `d`.
record Ahead (c d : ℕ) (w x : TimingWheel) : Type 0 where
  same_tick : x.tick ≡ w.tick
  run_diff : runs c x.ran ≡ runs c w.ran + one_if (leb d w.tick)
  pending_diff : (t : ℕ) → w.tick < t → pending x t c ≡ pending w t c + one_if (d == t)

Ahead-on_tick :
    (c d : ℕ) (w x : TimingWheel)
    → IsValid w
    → IsValid x
    → w.tick + 1 < 2 ^ 64
    → Ahead c d w x
    → Ahead c d (on_tick w) (on_tick x)
Ahead-on_tick c d w x v u h a = record {
  same_tick = omega (arith, tick-on_tick w h, tick-on_tick x hx, a.same_tick);
  run_diff = ground (
    arith,
    runs-on_tick c w v h,
    runs-on_tick c x u hx,
    a.run_diff,
    a.pending_diff (w.tick + 1) (omega arith),
    ap (λ n. pending x (n + 1) c) a.same_tick,
    tick-on_tick w h,
  );
  pending_diff = λ t later.
      let past : w.tick + 1 < t = omega (arith, tick-on_tick w h) in
      omega (
        arith,
        pending-on_tick c w v h t past,
        pending-on_tick c x u hx t (omega (arith, a.same_tick)),
        a.pending_diff t (omega arith),
      );
}
  where
    hx : x.tick + 1 < 2 ^ 64
    hx = omega (arith, a.same_tick)

Ahead-ticks :
    (n c d : ℕ) (w x : TimingWheel)
    → IsValid w
    → IsValid x
    → w.tick + n < 2 ^ 64
    → Ahead c d w x
    → runs c (ticks n x).ran ≡ runs c (ticks n w).ran + one_if (leb d (w.tick + n))
unfolding ticks
Ahead-ticks zero c d w x v u h a =
    a.run_diff ∙ ap (λ k. runs c w.ran + one_if (leb d k)) (omega arith)
Ahead-ticks (suc n) c d w x v u h a =
    Ahead-ticks n c d (on_tick w) (on_tick x) (on_tick-IsValid w v) (on_tick-IsValid x u)
      (omega (arith, tick-on_tick w (omega arith))) (Ahead-on_tick c d w x v u (omega arith) a)
    ∙ ap (λ k. runs c (ticks n (on_tick w)).ran + one_if (leb d k))
        (omega (arith, tick-on_tick w (omega arith)))

-- No call is due at once.
pub deadline_later : (now delay : ℕ) → now < deadline now (at_least_one delay)
deadline_later now delay = pick (ltb (at_least_one delay) 60) _ _ (ground arith) (
    pick (ltb (at_least_one delay) 3600) _ _ (minute_tick_later now (at_least_one delay)) (
      pick (ltb (at_least_one delay) 86400) _ _ (hour_tick_later now (at_least_one delay))
        (day_tick_later (at_least_one delay))))
  where
    pick : (b : Bool) (x y : ℕ) → now < x → now < y → now < (if b then x else y)
    pick true x y hx hy = hx
    pick false x y hx hy = hy

    day_boundary : (d : ℕ) → now < 86400 * (now / 86400 + at_least_one (d / 86400))
    day_boundary d = ground arith

    day_tick_later : (d : ℕ) → now < day_tick now d
    day_tick_later d = omega (
      arith,
      day_boundary d,
      hour_tick_later (86400 * (now / 86400 + at_least_one (d / 86400))) (at_least_one (d % 86400)),
    )

inserted :
    (delay c : ℕ) (w : TimingWheel)
    → IsValid w
    → delay / 86400 ≤ 30
    → Ahead c
        (deadline w.tick (at_least_one delay))
        w
        (insert_delay (at_least_one delay) (some (once c)) w)
inserted delay c w v fit = record {
  same_tick = (insert_delay-Untouched (at_least_one delay) (once c) w).1;
  run_diff =
      rw (leb_refuted (deadline w.tick (at_least_one delay)) w.tick (deadline_later w.tick delay)) (
        ap (runs c) (insert_delay-Untouched (at_least_one delay) (once c) w).0
        ∙ add_nothing (runs c w.ran));
  pending_diff = λ t later.
      pending-insert_delay t c (at_least_one delay) (once c) w v (ground arith)
      ∙ ap (λ k. pending w t c + k) (own (deadline w.tick (at_least_one delay)) t);
}
  where
    add_nothing : (k : ℕ) → k ≡ k + 0
    add_nothing k = omega arith

    own : (d t : ℕ) → hit_payload d (once c) t c ≡ one_if (d == t)
    own d t = unfold hit_payload in ap (λ b. if b && (d == t) then 1 else 0) (==_self c)

-- In a wheel of any contents, a call that `RunAfter` inserts with a delay of at most 30 days has
-- after `n` ticks run once more than without it if its deadline has come, and no more often before.
pub run_after_schedule :
    (delay c n : ℕ) (w : TimingWheel)
    → IsValid w
    → delay / 86400 ≤ 30
    → w.tick + n < 2 ^ 64
    → runs c (ticks n (run_after delay c w)).ran
      ≡ runs c (ticks n w).ran
        + (if leb (deadline w.tick (at_least_one delay)) (w.tick + n) then 1 else 0)
run_after_schedule delay c n w v fit h =
    unfold run_after insert_entry in
    Ahead-ticks n c (deadline w.tick (at_least_one delay)) w
      (insert_delay (at_least_one delay) (some (once c)) w) v
      (unfold insert_entry in insert_entry-IsValid delay (some (once c)) w v) h
      (inserted delay c w v fit)
