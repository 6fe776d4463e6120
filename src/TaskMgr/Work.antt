-- ===== src/TaskMgr/Work.antt =====
-- What a call of `OnWork` of src/base/TaskMgr.cpp runs and keeps.
use tmms.Common.{
  ℕ, ◌≡◌, refl, sym, ap, ap₂, ◌∙◌, ◌≢◌, inl, inr, Bool, true, false, ◌&&◌, List, [], ◌∷◌, arith,
  ltb, leb, if◌then◌else◌, Bool-cases,
}
use tmms.Sets.{has, NoDup}
use tmms.TaskMgr.{Task, on_work}

abbrev pub filter : (ℕ → Bool) → List ℕ → List ℕ
filter test [] = []
filter test (t ∷ ts) = if test t then t ∷ filter test ts else filter test ts

filter_cong :
    (p q : ℕ → Bool) (ts : List ℕ)
    → ((u : ℕ) → has u ts ≡ true → p u ≡ q u)
    → filter p ts ≡ filter q ts
unfolding has
filter_cong p q [] h = refl
filter_cong p q (t ∷ ts) h =
    ap (λ b. if b then t ∷ filter p ts else filter p ts) (h t (ground arith))
    ∙ ap (λ xs. if q t then t ∷ xs else xs) (filter_cong p q ts (λ u i. h u (ground arith)))

-- A callback changes the due time of fresh other task than its own.
abbrev pub Own : (ℕ → (ℕ → Task) → ℕ → Task) → Type 0
Own cb = (t : ℕ) (s : ℕ → Task) (u : ℕ) → u ≢ t → (cb t s u).when ≡ (s u).when

apart : (t u : ℕ) (ts : List ℕ) → has t ts ≡ false → has u ts ≡ true → u ≢ t
apart t u ts fresh held e = absurd (ground (arith, ap (λ v. has v ts) e))

by_time :
    (w c t : ℕ) (xs : List ℕ) → (if leb w c then xs else t ∷ xs) ≡ (if ltb c w then t ∷ xs else xs)
by_time w c t xs = ground arith

module _ (cb : ℕ → (ℕ → Task) → ℕ → Task) (own : Own cb) (clock : ℕ → ℕ) where
  -- The objects after the turn of `t`.
  after : ℕ → (ℕ → Task) → ℕ → Task
  after t s = if leb (s t).when (clock t) then cb t s else s

  when-after : (t u : ℕ) (s : ℕ → Task) → u ≢ t → (after t s u).when ≡ (s u).when
  unfolding after
  when-after t u s ne = elim (Bool-cases (leb (s t).when (clock t))) [
    | inl due ↦ rw due (own t s u ne)
    | inr later ↦ rw later
  ]

  untouched :
      (ts : List ℕ) (s : ℕ → Task) (u : ℕ)
      → has u ts ≡ false
      → ((on_work cb clock ts s).0 u).when ≡ (s u).when
  unfolding on_work has after
  untouched [] s u fresh = refl
  untouched (t ∷ ts) s u fresh =
      untouched ts (after t s) u (ground arith) ∙ when-after t u s (λ e. absurd (ground arith))

  ran_lem :
      (ts : List ℕ) (s : ℕ → Task)
      → NoDup ts
      → (on_work cb clock ts s).2 ≡ filter (λ u. leb (s u).when (clock u)) ts
  unfolding on_work after
  ran_lem [] s d = refl
  ran_lem (t ∷ ts) s (fresh, d) =
      ap (λ xs. if leb (s t).when (clock t) then t ∷ xs else xs)
        (ran_lem ts (after t s) d
          ∙ filter_cong (λ u. leb (after t s u).when (clock u)) (λ u. leb (s u).when (clock u)) ts
              (λ u i. ap (λ w. leb w (clock u)) (when-after t u s (apart t u ts fresh i))))

  -- A task leaves the set if its time has come and it is not in the future after its turn.
  stays :
      (t : ℕ) (s : ℕ → Task)
      → (leb (s t).when (clock t) && leb (after t s t).when (clock t))
        ≡ leb (after t s t).when (clock t)
  unfolding after
  stays t s = elim (Bool-cases (leb (s t).when (clock t))) [
    | inl due ↦ rw due refl
    | inr later ↦ rw later (sym later)
  ]

  kept_lem :
      (ts : List ℕ) (s : ℕ → Task)
      → NoDup ts
      → (on_work cb clock ts s).1
        ≡ filter (λ u. ltb (clock u) ((on_work cb clock ts s).0 u).when) ts
  unfolding on_work after
  kept_lem [] s d = refl
  kept_lem (t ∷ ts) s (fresh, d) =
      ap₂ (λ b xs. if b then xs else t ∷ xs) (stays t s) (kept_lem ts (after t s) d)
      ∙ by_time (after t s t).when (clock t) t
          (filter (λ u. ltb (clock u) ((on_work cb clock ts (after t s)).0 u).when) ts)
      ∙ ap
          (λ w.
            if ltb (clock t) w
            then t ∷ filter (λ u. ltb (clock u) ((on_work cb clock ts (after t s)).0 u).when) ts
            else filter (λ u. ltb (clock u) ((on_work cb clock ts (after t s)).0 u).when) ts)
          (sym (untouched ts (after t s) t fresh))

-- A call of `OnWork` with callbacks that only restart their own task runs, each once and in the
-- order of the set, the tasks whose time has come, and keeps in the set those tasks that are in the
-- future at its end.
pub on_work_lem :
    (cb : ℕ → (ℕ → Task) → ℕ → Task) (clock : ℕ → ℕ) (ts : List ℕ) (s : ℕ → Task)
    → Own cb
    → NoDup ts
    → ((on_work cb clock ts s).2 ≡ filter (λ u. leb (s u).when (clock u)) ts)
      × ((on_work cb clock ts s).1
          ≡ filter (λ u. ltb (clock u) ((on_work cb clock ts s).0 u).when) ts)
on_work_lem cb clock ts s own d = (ran_lem cb own clock ts s d, kept_lem cb own clock ts s d)
