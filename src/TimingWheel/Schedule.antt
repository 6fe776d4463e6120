-- ===== src/TimingWheel/Schedule.antt =====
-- What one round of `OnTimer` in src/network/net/TimingWheel.cpp does to the pending calls: those
-- that are due run, and all others stay due at their ticks, whichever wheel they move to.
use tmms.Common.{
  ℕ, ◌+◌, ◌*◌, ◌/◌, ◌<◌, ◌≡◌, refl, ap, ◌∙◌, Bool, true, false, List, [], ◌∷◌, ◌++◌, arith,
  if◌then◌else◌,
}
use tmms.TimingWheel.{
  TimingWheel, Entry, Slot, Payload, plain, to_second, to_minute, to_hour, shared, once, every,
  at_least_one, release, release_all, TimingType, second, minute, hour, day, wheel, with_wheel,
  pop_slots, pop_up,
}
use tmms.TimingWheel.Shape.{
  All, IsSecond, IsMinute, IsHour, IsDay, IsValid, Fits, wheel-Fits, with_wheel-IsValid,
}
use tmms.TimingWheel.Kept.{release-IsValid, rotate-Fits}
use tmms.TimingWheel.Count.{
  hit, hit_payload, count_slot, count_slots, pending_from, minute_tick, hour_tick, runs,
  count_slots-rotate,
}
use tmms.TimingWheel.Insert.{
  pending-insert_second, pending-insert_minute, pending-insert_hour, release-plain, runs-release,
  hit_payload_late, Delayed, minute_tick_later, hour_tick_later,
}

-- Is `t` the current tick, or one still to come?
abbrev pub When : Bool → ℕ → ℕ → Type 0
When true now t = t ≡ now
When false now t = now < t

-- The calls of `c` for tick `t`: those pending and, at the current tick, those that have run.
unfoldable pub tally : Bool → ℕ → ℕ → ℕ → ℕ → TimingWheel → ℕ → ℕ → ℕ
tally due s m h d w t c = (if due then runs c w.ran else 0) + pending_from s m h d w t c

hit_payload_past : (due : ℕ) (p : Payload) (t c : ℕ) → due < t → hit_payload due p t c ≡ 0
unfolding hit_payload
hit_payload_past due (shared k) t c h = refl
hit_payload_past due (once k) t c h = ground arith
hit_payload_past due (every k i) t c h = refl

module _ (c now : ℕ) where
  -- An entry that is destroyed keeps the tally: what it was for tick `t` has run or waits elsewhere.
  tally-plain :
      (due : Bool) (t s m h d : ℕ) (p : Payload) (rest : Slot) (w : TimingWheel)
      → When due now t
      → tally due s m h d (release (plain p) rest w) t c
        ≡ tally due s m h d w t c + hit now (plain p) t c
  unfolding tally
  tally-plain true t s m h d p rest w e =
      rw e (
        omega (arith, release-plain now c s m h d p rest w, runs-release c now (plain p) rest w tt))
  tally-plain false t s m h d p rest w e =
      let none_later : hit now (plain p) t c ≡ 0 = unfold hit in hit_payload_past now p t c e in
      omega (arith, release-plain t c s m h d p rest w, none_later)

  -- A delayed entry is never due at once, so what counts is what the pending calls gain.
  tally-Delayed :
      (due : Bool) (t s m h d : ℕ) (e : Entry) (rest : Slot) (w : TimingWheel)
      → When due now t
      → Delayed e
      → hit now e now c ≡ 0
      → pending_from s m h d (release e rest w) t c ≡ pending_from s m h d w t c + hit now e t c
      → tally due s m h d (release e rest w) t c ≡ tally due s m h d w t c + hit now e t c
  unfolding tally
  tally-Delayed true t s m h d e rest w q later none_now gain =
      omega (arith, runs-release c now e rest w later, gain)
  tally-Delayed false t s m h d e rest w q later none_now gain = omega (arith, gain)

  tally-to_second :
      (due : Bool) (t m h d : ℕ) (e : Entry) (rest : Slot) (w : TimingWheel)
      → When due now t
      → IsMinute e
      → IsValid w
      → tally due (now + 1) m h d (release e rest w) t c
        ≡ tally due (now + 1) m h d w t c + hit now e t c
  tally-to_second due t m h d (to_second n p) rest w q f v =
      tally-Delayed due t (now + 1) m h d (to_second n p) rest w q f.0
        (unfold hit in hit_payload_late (now + n) p now c (omega arith))
        (unfold hit release in
          pending-insert_second t c w v p now n m h d (omega arith)
          ∙ ap (λ r. pending_from (now + 1) m h d w t c + hit_payload r p t c)
              {x = now + at_least_one n} {y = now + n} (ground arith))
  tally-to_second due t m h d (plain p) rest w q f v = absurd f
  tally-to_second due t m h d (to_minute n p) rest w q f v = absurd f
  tally-to_second due t m h d (to_hour n p) rest w q f v = absurd f

  tally-to_minute :
      (due : Bool) (t s h d : ℕ) (e : Entry) (rest : Slot) (w : TimingWheel)
      → When due now t
      → IsHour e
      → IsValid w
      → tally due s (60 * (now / 60 + 1)) h d (release e rest w) t c
        ≡ tally due s (60 * (now / 60 + 1)) h d w t c + hit now e t c
  tally-to_minute due t s h d (to_minute n p) rest w q f v =
      tally-Delayed due t s (60 * (now / 60 + 1)) h d (to_minute n p) rest w q tt
        (unfold hit in hit_payload_late (minute_tick now n) p now c (minute_tick_later now n))
        (unfold hit release in pending-insert_minute t c w v p now n s h d f.1)
  tally-to_minute due t s h d (plain p) rest w q f v = absurd f
  tally-to_minute due t s h d (to_second n p) rest w q f v = absurd f
  tally-to_minute due t s h d (to_hour n p) rest w q f v = absurd f

  tally-to_hour :
      (due : Bool) (t s m d : ℕ) (e : Entry) (rest : Slot) (w : TimingWheel)
      → When due now t
      → IsDay e
      → IsValid w
      → tally due s m (3600 * (now / 3600 + 1)) d (release e rest w) t c
        ≡ tally due s m (3600 * (now / 3600 + 1)) d w t c + hit now e t c
  tally-to_hour due t s m d (to_hour n p) rest w q f v =
      tally-Delayed due t s m (3600 * (now / 3600 + 1)) d (to_hour n p) rest w q tt
        (unfold hit in hit_payload_late (hour_tick now n) p now c (hour_tick_later now n))
        (unfold hit release in pending-insert_hour t c w v p now n s m d f.1)
  tally-to_hour due t s m d (plain p) rest w q f v = absurd f
  tally-to_hour due t s m d (to_second n p) rest w q f v = absurd f
  tally-to_hour due t s m d (to_minute n p) rest w q f v = absurd f

-- If each entry of a kind adds its hit when it is destroyed, a slot of them adds its count.
release_all_rule :
    (P : Entry → Type 0) (B : TimingWheel → ℕ) (now t c : ℕ)
    → ((e : Entry) (rest : Slot) (w : TimingWheel)
        → P e
        → IsValid w
        → B (release e rest w) ≡ B w + hit now e t c)
    → (s : Slot) (w : TimingWheel) → All P s
    → IsValid w
    → B (release_all s w) ≡ B w + count_slot now s t c
unfolding release_all count_slot
release_all_rule P B now t c step [] w a v = omega arith
release_all_rule P B now t c step (e ∷ es) w a v = omega (
  arith,
  release_all_rule P B now t c step es (release e es w) a.1 (release-IsValid e es w v),
  step e es w a.0 v,
)

-- If the rotation of a wheel takes its front slot out of a count, and destroying that slot puts it
-- back, then `PopUp` keeps the count.
pop_rule :
    (type : TimingType) (B B' : TimingWheel → ℕ) (now t c : ℕ)
    → ((tmp : Slot) (rest : List Slot) (w : TimingWheel)
        → wheel type w ≡ tmp ∷ rest
        → B w ≡ count_slot now tmp t c + B' (with_wheel type (rest ++ ([] ∷ [])) w))
    → ((tmp : Slot) (rest : List Slot) (w : TimingWheel)
        → Fits type (tmp ∷ rest)
        → IsValid w
        → B' (release_all tmp w) ≡ B' w + count_slot now tmp t c)
    → (w : TimingWheel) → IsValid w
    → B' (pop_up type w) ≡ B w
unfolding pop_up pop_slots
pop_rule type B B' now t c turn destroy w v = go (wheel type w) refl (wheel-Fits type w v)
  where
    nonempty : (type : TimingType) → Fits type [] → ⊥
    nonempty second f = omega arith
    nonempty minute f = omega arith
    nonempty hour f = omega arith
    nonempty day f = omega arith

    go : (ss : List Slot) → wheel type w ≡ ss → Fits type ss → B' (pop_slots type ss w) ≡ B w
    go [] e f = absurd (nonempty type f)
    go (tmp ∷ rest) e f = omega (
      arith,
      turn tmp rest w e,
      destroy tmp rest (with_wheel type (rest ++ ([] ∷ [])) w) f
          (with_wheel-IsValid type (rest ++ ([] ∷ [])) w (rotate-Fits type tmp rest f) v),
    )

module _ (c now : ℕ) (due : Bool) (t : ℕ) (q : When due now t) (w : TimingWheel)
    (v : IsValid w) where
  pub pop-second :
      (m h d : ℕ) → tally due (now + 1) m h d (pop_up second w) t c ≡ tally due now m h d w t c
  pop-second m h d =
      pop_rule second (λ x. tally due now m h d x t c) (λ x. tally due (now + 1) m h d x t c) now t
        c
        (λ tmp rest x e.
          unfold tally pending_from in
          omega
            (arith, ap (λ ss. count_slots now 1 ss t c) e, count_slots-rotate t c now 1 tmp rest))
        (λ tmp rest x f y.
          release_all_rule IsSecond (λ z. tally due (now + 1) m h d z t c) now t c leaf tmp x f.1.0
            y)
        w v
    where
      leaf :
          (e : Entry) (rest : Slot) (x : TimingWheel)
          → IsSecond e
          → IsValid x
          → tally due (now + 1) m h d (release e rest x) t c
            ≡ tally due (now + 1) m h d x t c + hit now e t c
      leaf (plain p) rest x f y = tally-plain c now due t (now + 1) m h d p rest x q
      leaf (to_second n p) rest x f y = absurd f
      leaf (to_minute n p) rest x f y = absurd f
      leaf (to_hour n p) rest x f y = absurd f

  pub pop-minute :
      (h d : ℕ)
      → tally due (now + 1) (now + 60) h d (pop_up minute w) t c ≡ tally due (now + 1) now h d w t c
  pop-minute h d =
      pop_rule minute (λ x. tally due (now + 1) now h d x t c)
        (λ x. tally due (now + 1) (now + 60) h d x t c) now t c
        (λ tmp rest x e.
          unfold tally pending_from in
          omega
            (arith, ap (λ ss. count_slots now 60 ss t c) e, count_slots-rotate t c now 60 tmp rest))
        (λ tmp rest x f y.
          release_all_rule IsMinute (λ z. tally due (now + 1) (now + 60) h d z t c) now t c
            (λ e r z g u. tally-to_second c now due t (now + 60) h d e r z q g u) tmp x f.1.0 y)
        w v

  pub pop-hour :
      (s d : ℕ)
      → tally due s (60 * (now / 60 + 1)) (now + 3600) d (pop_up hour w) t c
        ≡ tally due s (60 * (now / 60 + 1)) now d w t c
  pop-hour s d =
      pop_rule hour (λ x. tally due s (60 * (now / 60 + 1)) now d x t c)
        (λ x. tally due s (60 * (now / 60 + 1)) (now + 3600) d x t c) now t c
        (λ tmp rest x e.
          unfold tally pending_from in
          omega (
            arith,
            ap (λ ss. count_slots now 3600 ss t c) e,
            count_slots-rotate t c now 3600 tmp rest,
          ))
        (λ tmp rest x f y.
          release_all_rule IsHour (λ z. tally due s (60 * (now / 60 + 1)) (now + 3600) d z t c) now
            t c (λ e r z g u. tally-to_minute c now due t s (now + 3600) d e r z q g u) tmp x f.1.0
            y)
        w v

  pub pop-day :
      (s m : ℕ)
      → tally due s m (3600 * (now / 3600 + 1)) (now + 86400) (pop_up day w) t c
        ≡ tally due s m (3600 * (now / 3600 + 1)) now w t c
  pop-day s m =
      pop_rule day (λ x. tally due s m (3600 * (now / 3600 + 1)) now x t c)
        (λ x. tally due s m (3600 * (now / 3600 + 1)) (now + 86400) x t c) now t c
        (λ tmp rest x e.
          unfold tally pending_from in
          omega (
            arith,
            ap (λ ss. count_slots now 86400 ss t c) e,
            count_slots-rotate t c now 86400 tmp rest,
          ))
        (λ tmp rest x f y.
          release_all_rule IsDay (λ z. tally due s m (3600 * (now / 3600 + 1)) (now + 86400) z t c)
            now t c (λ e r z g u. tally-to_hour c now due t s m (now + 86400) e r z q g u) tmp x
            f.1.0 y)
        w v
