-- ===== src/LoopRound/Reports.antt =====
-- Which handlers a round of `Loop` of src/network/net/EventLoop.cpp calls.
use tmms.Common.{
  ℕ, ◌≡◌, refl, ap, ◌∙◌, inl, inr, false, Option, none, some, List, [], ◌∷◌, ◌++◌, append-nil,
  arith, ◌==◌, if◌then◌else◌, ==_iff, Bool-cases,
}
use tmms.EventLoop.{EventLoop, Handler, Ready, dispatch}
use tmms.LoopRound.{Report, LoopState, run_handler, run_reports, loop_round}

-- Handlers that do not put an event under the descriptor into the table.
abbrev pub LeavesFree : ℕ → (ℕ → Handler → EventLoop → EventLoop) → Type 0
LeavesFree fd handle =
    (a : ℕ) (h : Handler) (l : EventLoop) → l.events fd ≡ none → (handle a h l).events fd ≡ none

-- The calls for reports of the descriptor.
pub calls_of : ℕ → List (ℕ × ℕ × Handler) → List (ℕ × ℕ × Handler)
calls_of fd [] = []
calls_of fd ((k, a, h) ∷ cs) =
    let rest = calls_of fd cs in if k == fd then (k, a, h) ∷ rest else rest

calls_of-append :
    (fd : ℕ) (cs ds : List (ℕ × ℕ × Handler))
    → calls_of fd (cs ++ ds) ≡ calls_of fd cs ++ calls_of fd ds
unfolding calls_of
calls_of-append fd [] ds = refl
calls_of-append fd ((k, a, h) ∷ cs) ds = elim (Bool-cases (k == fd)) [
  | inl own ↦ rw own (ap (◌∷◌ (k, a, h)) (calls_of-append fd cs ds))
  | inr other ↦ rw other (calls_of-append fd cs ds)
]

dispatch-none : (fd : ℕ) (ev : Ready) (l : EventLoop) → l.events fd ≡ none → dispatch fd ev l ≡ none
unfolding dispatch
dispatch-none fd ev l free = ground (arith, free)

module _ (handle : ℕ → Handler → EventLoop → EventLoop) (fd : ℕ)
    (leaves : LeavesFree fd handle) where
  -- A report of which nothing is known but that it calls no handler of the descriptor.
  run_handler-quiet :
      (k : ℕ) (o : Option (ℕ × Handler)) (s : LoopState)
      → (k ≡ fd → o ≡ none)
      → s.loop.events fd ≡ none
      → ((run_handler handle k o s).loop.events fd ≡ none)
        × (calls_of fd (run_handler handle k o s).handled ≡ calls_of fd s.handled)
  unfolding calls_of
  run_handler-quiet k none s quiet free = (free, refl)
  run_handler-quiet k (some (a, h)) s quiet free = (
    leaves a h s.loop free,
    calls_of-append fd s.handled ((k, a, h) ∷ [])
        ∙ ap (λ b. calls_of fd s.handled ++ (if b then (k, a, h) ∷ [] else [])) {x = k == fd}
            {y = false} other
        ∙ append-nil (calls_of fd s.handled),
  )
    where
      other : (k == fd) ≡ false
      other = elim (Bool-cases (k == fd)) [
        | inl e ↦ absurd (ground (arith, quiet ((==_iff k fd).0 e)))
        | inr e ↦ e
      ]

  run_reports-quiet :
      (rs : List Report) (s : LoopState)
      → s.loop.events fd ≡ none
      → calls_of fd (run_reports handle rs s).handled ≡ calls_of fd s.handled
  unfolding run_reports
  run_reports-quiet [] s free = refl
  run_reports-quiet (r ∷ rs) s free =
      let (still, same) =
        run_handler-quiet r.fd (dispatch r.fd r.events s.loop) s
          (λ e. dispatch-none r.fd r.events s.loop (ap s.loop.events e ∙ free)) free in
      run_reports-quiet rs (run_handler handle r.fd (dispatch r.fd r.events s.loop) s) still ∙ same

run_reports-append :
    (handle : ℕ → Handler → EventLoop → EventLoop) (xs ys : List Report) (s : LoopState)
    → run_reports handle (xs ++ ys) s ≡ run_reports handle ys (run_reports handle xs s)
unfolding run_reports
run_reports-append handle [] ys s = refl
run_reports-append handle (x ∷ xs) ys s =
    run_reports-append handle xs ys (run_handler handle x.fd (dispatch x.fd x.events s.loop) s)

-- If the handlers of the first reports of a round have taken a descriptor out of the loop's table,
-- and no handler puts it in again, then the other reports of the round call no handler for it: what
-- the round has called for the descriptor is what the first reports called.
pub removed_uncalled :
    (handle : ℕ → Handler → EventLoop → EventLoop) (fd : ℕ) (first rest : List Report) (now : ℕ)
    (s : LoopState)
    → LeavesFree fd handle
    → (run_reports handle first s).loop.events fd ≡ none
    → calls_of fd (loop_round handle (first ++ rest) now s).handled
      ≡ calls_of fd (run_reports handle first s).handled
unfolding loop_round
removed_uncalled handle fd first rest now s leaves gone =
    ap (λ t. calls_of fd t.handled) (run_reports-append handle first rest s)
    ∙ run_reports-quiet handle fd leaves rest (run_reports handle first s) gone
