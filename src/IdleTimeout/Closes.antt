-- ===== src/IdleTimeout/Closes.antt =====
-- When the idle timeout of src/network/net/TcpConnection.cpp closes a connection.
use tmms.Common.{
  ℕ, zero, suc, ◌-◌, ◌≤◌, ◌<◌, max, ◌≡◌, refl, sym, ap, ap₂, ◌∙◌, subst, true, false, ◌&&◌, some,
  List, [], ◌∷◌, arith, ltb, leb, ◌==◌, if◌then◌else◌,
}
use tmms.TcpConnection.{TcpConnection, on_close}
use tmms.TimingWheel.{shared, insert_entry, referred, on_tick}
use tmms.TimingWheel.Shape.{IsValid}
use tmms.TimingWheel.Kept.{on_tick-IsValid, insert_entry-IsValid}
use tmms.TimingWheel.Shared.{ends, last_at, coarse, view}
use tmms.TimingWheel.Expiry.{next, view-on_tick, view-insert_self, referred-last_at}
use tmms.IdleTimeout.{Timed, enable_check_timeout, on_timeout, extend_life, tick, pass, active}

-- The entry is destroyed in `left` ticks, or is gone if that is 0.
pub record Armed (left : ℕ) (s : Timed) : Type 0 where
  pub valid : IsValid s.wheel
  pub last : last_at s.timeout_entry s.wheel.seconds ≡ left
  pub fine : coarse s.timeout_entry s.wheel ≡ false

tick-wheel : (s : Timed) → (tick s).wheel ≡ on_tick s.wheel
unfolding tick on_timeout
tick-wheel s = ground arith

tick-entry :
    (s : Timed)
    → ((tick s).timeout_entry ≡ s.timeout_entry) × ((tick s).max_idle_time ≡ s.max_idle_time)
unfolding tick on_timeout
tick-entry s = (ground arith, ground arith)

tick-connection :
    (left : ℕ) (s : Timed)
    → Armed left s
    → (tick s).connection ≡ (if left == 1 then on_close s.connection else s.connection)
unfolding tick on_timeout
tick-connection left s a =
    let v = view-on_tick s.timeout_entry s.wheel a.valid a.fine in
    ground (arith, ap (λ x. x.2) v, a.last)

tick-Armed : (left : ℕ) (s : Timed) → Armed left s → Armed (left - 1) (tick s)
tick-Armed left s a =
    let v = view-on_tick s.timeout_entry s.wheel a.valid a.fine in
    let moved : view (tick s).timeout_entry (tick s).wheel
        ≡ view s.timeout_entry (on_tick s.wheel) =
      ap₂ view (tick-entry s).0 (tick-wheel s) in
    record {
      valid = subst IsValid (sym (tick-wheel s)) (on_tick-IsValid s.wheel a.valid);
      last = ap (λ x. x.0) (moved ∙ v) ∙ ap next a.last;
      fine = ap (λ x. x.1) (moved ∙ v);
    }

-- What is left after so many ticks.
record Passed (n left : ℕ) (s s' : Timed) : Type 0 where
  armed : Armed (left - n) s'
  connection :
      s'.connection ≡ (if ltb 0 left && leb left n then on_close s.connection else s.connection)
  entry : s'.timeout_entry ≡ s.timeout_entry
  max_time : s'.max_idle_time ≡ s.max_idle_time

closing :
    (n left : ℕ) (c c' : TcpConnection)
    → c' ≡ (if left == 1 then on_close c else c)
    → (if ltb 0 (left - 1) && leb (left - 1) n then on_close c' else c')
      ≡ (if ltb 0 left && leb left (suc n) then on_close c else c)
closing n left c c' e = ground (arith, e)

pass-Passed : (n left : ℕ) (s : Timed) → Armed left s → Passed n left s (pass n s)
unfolding pass
pass-Passed zero left s a = record {
  armed = subst (λ m. Armed m s) {x = left} (omega arith) a;
  connection = ground arith;
  entry = refl;
  max_time = refl;
}
pass-Passed (suc n) left s a =
    let p = pass-Passed n (left - 1) (tick s) (tick-Armed left s a) in
    record {
      armed = subst (λ m. Armed m (pass n (tick s))) {x = left - 1 - n} (omega arith) p.armed;
      connection =
          p.connection ∙ closing n left s.connection (tick s).connection (tick-connection left s a);
      entry = p.entry ∙ (tick-entry s).0;
      max_time = p.max_time ∙ (tick-entry s).1;
    }

-- A sign of life while the entry lives.
extend_life-Armed :
    (left d : ℕ) (s : Timed)
    → Armed left s
    → s.max_idle_time ≡ d
    → 0 < left
    → left ≤ d
    → d < 60
    → Armed d (extend_life s)
      × ((extend_life s).connection ≡ s.connection)
      × ((extend_life s).timeout_entry ≡ s.timeout_entry)
      × ((extend_life s).max_idle_time ≡ s.max_idle_time)
unfolding extend_life
extend_life-Armed left d s a e pos fit short =
    subst
      (λ s'.
        Armed d s'
        × (s'.connection ≡ s.connection)
        × (s'.timeout_entry ≡ s.timeout_entry)
        × (s'.max_idle_time ≡ s.max_idle_time))
      (sym extended)
      (
        record {
          valid =
              insert_entry-IsValid s.max_idle_time (some (shared s.timeout_entry)) s.wheel a.valid;
          last = ap (λ x. x.0) seen ∙ omega (arith, a.last);
          fine = ap (λ x. x.1) seen ∙ a.fine;
        },
        refl,
        refl,
        refl,
      )
  where
    seen :
        view s.timeout_entry (insert_entry s.max_idle_time (some (shared s.timeout_entry)) s.wheel)
        ≡ (
          max (last_at s.timeout_entry s.wheel.seconds) s.max_idle_time,
          coarse s.timeout_entry s.wheel,
          ends s.timeout_entry s.wheel.ran,
        )
    seen =
        view-insert_self s.timeout_entry s.max_idle_time s.wheel (omega arith) (omega arith)
          a.valid.second_slots

    still : referred s.timeout_entry s.wheel ≡ true
    still = ground (arith, referred-last_at s.timeout_entry s.wheel, a.last)

    extended :
        extend_life s
        ≡ record s { wheel = insert_entry s.max_idle_time (some (shared s.timeout_entry)) s.wheel }
    extended =
        ap
          (λ b.
            if b
            then record s {
              wheel = insert_entry s.max_idle_time (some (shared s.timeout_entry)) s.wheel;
            }
            else s)
          still

-- Every gap is shorter than the time allowed.
abbrev pub AllBelow : ℕ → List ℕ → Type 0
AllBelow d [] = Unit {0}
AllBelow d (g ∷ gs) = (g < d) × AllBelow d gs

active-Armed :
    (d : ℕ) (gs : List ℕ) (s : Timed)
    → Armed d s
    → s.max_idle_time ≡ d
    → 0 < d
    → d < 60
    → AllBelow d gs
    → Armed d (active gs s) × ((active gs s).connection ≡ s.connection)
unfolding active
active-Armed d [] s a e pos short below = (a, refl)
active-Armed d (g ∷ gs) s a e pos short (early, below) =
    let p = pass-Passed g d s a in
    let (b, c, _, m) =
      extend_life-Armed (d - g) d (pass g s) p.armed (p.max_time ∙ e) (omega (arith, early))
        (omega arith) short in
    let (x, y) =
      active-Armed d gs (extend_life (pass g s)) b (m ∙ p.max_time ∙ e) pos short below in
    (x, y ∙ c ∙ p.connection ∙ ground (arith, early))

enable-Armed :
    (d : ℕ) (s : Timed)
    → IsValid s.wheel
    → referred s.timeout_entry s.wheel ≡ false
    → 0 < d
    → d < 60
    → Armed d (enable_check_timeout d s)
unfolding enable_check_timeout
enable-Armed d s v fresh pos short =
    let seen = view-insert_self s.timeout_entry d s.wheel pos short v.second_slots in
    let free = sym (referred-last_at s.timeout_entry s.wheel) ∙ fresh in
    record {
      valid = insert_entry-IsValid d (some (shared s.timeout_entry)) s.wheel v;
      last = ap (λ x. x.0) seen ∙ ground (arith, free);
      fine = ap (λ x. x.1) seen ∙ ground (arith, free);
    }

-- Between 1 and 59 seconds of idle time, in a valid wheel that does not hold the new entry yet: with
-- signs of life before each time is up, a connection is still as it was; once they stop, it is as it
-- was for one tick less than the idle time, and from then on it is closed.
pub idle_closes :
    (d n : ℕ) (gs : List ℕ) (s : Timed)
    → IsValid s.wheel
    → referred s.timeout_entry s.wheel ≡ false
    → 0 < d
    → d < 60
    → AllBelow d gs
    → (pass n (active gs (enable_check_timeout d s))).connection
      ≡ (if leb d n then on_close s.connection else s.connection)
unfolding enable_check_timeout
idle_closes d n gs s v fresh pos short below =
    let armed = enable-Armed d s v fresh pos short in
    let (a, same) = active-Armed d gs (enable_check_timeout d s) armed refl pos short below in
    (pass-Passed n d (active gs (enable_check_timeout d s)) a).connection
    ∙ ground (arith, same, pos)
