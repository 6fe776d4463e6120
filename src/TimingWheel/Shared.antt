-- ===== src/TimingWheel/Shared.antt =====
-- Where the slots of src/network/net/TimingWheel.cpp hold an object that is shared, and what inserting
-- or destroying other entries does to that.
use tmms.Common.{
  ℕ, zero, suc, ◌+◌, ◌<◌, max, ◌≡◌, refl, ap, inl, inr, Bool, true, false, ◌||◌, not, List, [], ◌∷◌,
  ◌++◌, arith, length, ◌==◌, if◌then◌else◌, Bool-cases,
}
use tmms.TimingWheel.{
  TimingWheel, Entry, Slot, Effect, plain, to_second, to_minute, to_hour, shared, once, every,
  payload, is_shared, refers, refers_any, holds, emplace, emplace_at, destroyed, ran_once,
  ran_every,
}

-- One more than the last slot that refers to the object, 0 if none does.
unfoldable pub last_at : ℕ → List Slot → ℕ
last_at k [] = 0
last_at k (s ∷ ss) =
    let later = last_at k ss in if later == 0 then (if refers k s then 1 else 0) else later + 1

-- Does a wheel other than that of the seconds refer to the object?
abbrev pub coarse : ℕ → TimingWheel → Bool
coarse k w = refers_any k w.minutes || (refers_any k w.hours || refers_any k w.days)

-- How often the object was destroyed.
unfoldable pub ends : ℕ → List Effect → ℕ
ends k [] = 0
ends k (destroyed j ∷ xs) = (if j == k then 1 else 0) + ends k xs
ends k (ran_once c ∷ xs) = ends k xs
ends k (ran_every c ∷ xs) = ends k xs

abbrev pub view : ℕ → TimingWheel → ℕ × Bool × ℕ
view k w = (last_at k w.seconds, coarse k w, ends k w.ran)

pub ends-append : (k : ℕ) (xs ys : List Effect) → ends k (xs ++ ys) ≡ ends k xs + ends k ys
unfolding ends
ends-append k [] ys = omega arith
ends-append k (destroyed j ∷ xs) ys = omega (arith, ends-append k xs ys)
ends-append k (ran_once c ∷ xs) ys = ends-append k xs ys
ends-append k (ran_every c ∷ xs) ys = ends-append k xs ys

refers-append : (k : ℕ) (s t : Slot) → refers k (s ++ t) ≡ refers k s || refers k t
unfolding refers
refers-append k [] t = refl
refers-append k (e ∷ es) t = ground (arith, refers-append k es t)

refers-snoc :
    (k : ℕ) (e : Entry) (s : Slot)
    → is_shared k (payload e) ≡ false
    → refers k (s ++ (e ∷ [])) ≡ refers k s
unfolding refers
refers-snoc k e s other = ground (arith, refers-append k s (e ∷ []), other)

refers-emplace :
    (k : ℕ) (e : Entry) (s : Slot)
    → is_shared k (payload e) ≡ false
    → refers k (emplace e s) ≡ refers k s
unfolding emplace
refers-emplace k (plain (shared j)) s other =
    ground (arith, refers-snoc k (plain (shared j)) s other)
refers-emplace k (plain (once c)) s other = refers-snoc k (plain (once c)) s other
refers-emplace k (plain (every c i)) s other = refers-snoc k (plain (every c i)) s other
refers-emplace k (to_second d p) s other = refers-snoc k (to_second d p) s other
refers-emplace k (to_minute d p) s other = refers-snoc k (to_minute d p) s other
refers-emplace k (to_hour d p) s other = refers-snoc k (to_hour d p) s other

pub refers_any-emplace_at :
    (k i : ℕ) (e : Entry) (ss : List Slot)
    → is_shared k (payload e) ≡ false
    → refers_any k (emplace_at i e ss) ≡ refers_any k ss
unfolding refers_any emplace_at
refers_any-emplace_at k i e [] other = refl
refers_any-emplace_at k zero e (s ∷ ss) other =
    ap (λ b. b || refers_any k ss) (refers-emplace k e s other)
refers_any-emplace_at k (suc i) e (s ∷ ss) other =
    ap (λ b. refers k s || b) (refers_any-emplace_at k i e ss other)

pub last_at-emplace_at :
    (k i : ℕ) (e : Entry) (ss : List Slot)
    → is_shared k (payload e) ≡ false
    → last_at k (emplace_at i e ss) ≡ last_at k ss
unfolding last_at emplace_at
last_at-emplace_at k i e [] other = refl
last_at-emplace_at k zero e (s ∷ ss) other =
    ap (λ b. if last_at k ss == 0 then (if b then 1 else 0) else last_at k ss + 1)
      (refers-emplace k e s other)
last_at-emplace_at k (suc i) e (s ∷ ss) other =
    ap (λ n. if n == 0 then (if refers k s then 1 else 0) else n + 1)
      (last_at-emplace_at k i e ss other)

holds→refers : (k : ℕ) (s : Slot) → holds k s ≡ true → refers k s ≡ true
unfolding holds refers
holds→refers k [] h = h
holds→refers k (plain p ∷ es) h = ground (arith, holds→refers k es)
holds→refers k (to_second d p ∷ es) h = ground (arith, holds→refers k es h)
holds→refers k (to_minute d p ∷ es) h = ground (arith, holds→refers k es h)
holds→refers k (to_hour d p ∷ es) h = ground (arith, holds→refers k es h)

refers-emplace_self : (k : ℕ) (s : Slot) → refers k (emplace (plain (shared k)) s) ≡ true
unfolding emplace refers
refers-emplace_self k s = elim (Bool-cases (holds k s)) [
  | inl old ↦ rw old (holds→refers k s old)
  | inr new ↦ rw new (ground (arith, refers-append k s (plain (shared k) ∷ [])))
]

-- The object put into a slot.
pub last_at-emplace_self :
    (k i : ℕ) (ss : List Slot)
    → i < length ss
    → last_at k (emplace_at i (plain (shared k)) ss) ≡ max (last_at k ss) (i + 1)
unfolding last_at emplace_at
last_at-emplace_self k i [] h = absurd (omega arith)
last_at-emplace_self k zero (s ∷ ss) h = ground (arith, refers-emplace_self k s)
last_at-emplace_self k (suc i) (s ∷ ss) h =
    ground (arith, last_at-emplace_self k i ss (omega arith))

-- No slot refers to the object if none is the last one.
pub refers_any-last_at : (k : ℕ) (ss : List Slot) → refers_any k ss ≡ not (last_at k ss == 0)
unfolding last_at refers_any
refers_any-last_at k [] = refl
refers_any-last_at k (s ∷ ss) = ground (arith, refers_any-last_at k ss)

-- Turning the wheel puts an empty slot behind the others.
pub last_at-rotate : (k : ℕ) (ss : List Slot) → last_at k (ss ++ ([] ∷ [])) ≡ last_at k ss
unfolding last_at refers
last_at-rotate k [] = refl
last_at-rotate k (s ∷ ss) =
    ap (λ n. if n == 0 then (if refers k s then 1 else 0) else n + 1) (last_at-rotate k ss)

pub refers_any-rotate : (k : ℕ) (ss : List Slot) → refers_any k (ss ++ ([] ∷ [])) ≡ refers_any k ss
unfolding refers_any refers
refers_any-rotate k [] = refl
refers_any-rotate k (s ∷ ss) = ap (λ b. refers k s || b) (refers_any-rotate k ss)
