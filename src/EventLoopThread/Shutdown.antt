-- ===== src/EventLoopThread/Shutdown.antt =====
-- The destructor of src/network/net/EventLoopThread.cpp, which calls `Quit` and then `join`.
use tmms.Common.{◌≡◌, refl, sym, ap, ◌∙◌, ◌⊎◌, inl, inr, true, false, some, arith}
use tmms.EventLoopThread.Handshake.{looper_runs}
use tmms.EventLoopThread.{
  Looper, locking, waiting, starting, published, promising, looping, leaving, ended, Owner, ready,
  getting, returned, joining, joined, ThreadState, looper_step, owner_step, runs, calls, Steps,
  stop, step,
}

-- The owner is in `join` and nobody will turn the loop off.
Lost : ThreadState → Type 0
Lost s =
    (s.owner ≡ joining) × ((s.looper ≡ promising) ⊎ ((s.looper ≡ looping) × (s.is_looping ≡ true)))

looper-Lost :
    (l : Looper) (s t : ThreadState) → s.looper ≡ l → looper_step l s ≡ some t → Lost s → Lost t
unfolding looper_step Lost
looper-Lost locking s t e h v = ground (arith, h)
looper-Lost waiting s t e h v = ground (arith, h)
looper-Lost starting s t e h v = ground (arith, h)
looper-Lost published s t e h v = ground (arith, h)
looper-Lost promising s t e h (j, w) =
    (ground (arith, h), inr (ground (arith, h), ground (arith, h)))
looper-Lost looping s t e h (j, inl w) = absurd (ground arith)
looper-Lost looping s t e h (j, inr (w, on)) =
    (ground (arith, h), inr (ground (arith, h), ground (arith, h)))
looper-Lost leaving s t e h v = ground (arith, h)
looper-Lost ended s t e h v = ground (arith, h)

owner-Lost :
    (o : Owner) (s t : ThreadState) → s.owner ≡ o → owner_step o s ≡ some t → Lost s → Lost t
unfolding owner_step Lost
owner-Lost ready s t e h v = absurd (ground arith)
owner-Lost getting s t e h v = absurd (ground arith)
owner-Lost returned s t e h v = absurd (ground arith)
owner-Lost joining s t e h (j, inl w) = absurd (ground (arith, h))
owner-Lost joining s t e h (j, inr w) = absurd (ground (arith, h))
owner-Lost joined s t e h v = absurd (ground arith)

Steps-Lost : (s t : ThreadState) → Steps s t → Lost s → Lost t
Steps-Lost s t stop v = v
Steps-Lost s t (step u _ before (runs _ h)) v =
    looper-Lost u.looper u t refl h (Steps-Lost s u before v)
Steps-Lost s t (step u _ before (calls _ h)) v =
    owner-Lost u.owner u t refl h (Steps-Lost s u before v)

-- If the owner calls `Quit` while the thread has kept its promise and not yet begun `Loop`, the call
-- is lost: whatever steps follow, the destructor stays in `join`.
pub quit_lost :
    (s t u : ThreadState)
    → s.owner ≡ returned
    → s.looper ≡ promising
    → owner_step s.owner s ≡ some t
    → Steps t u
    → u.owner ≡ joining
unfolding owner_step Lost
quit_lost s t u back early quits later =
    (Steps-Lost t u later (lost (ap (λ o. owner_step o s) (sym back) ∙ quits))).0
  where
    lost :
        owner_step returned s ≡ some t
        → (t.owner ≡ joining)
          × ((t.looper ≡ promising) ⊎ ((t.looper ≡ looping) × (t.is_looping ≡ true)))
    lost h = (ground (arith, h), inl (ground (arith, h)))

-- If the thread is in the loop when the owner calls `Quit`, two steps of the thread end it, and the
-- destructor returns.
pub quit_ends :
    (s : ThreadState)
    → s.owner ≡ returned
    → s.looper ≡ looping
    → s.has_loop ≡ true
    → (t : ThreadState) × (u : ThreadState) × (v : ThreadState) × (owner_step s.owner s ≡ some t)
      × (looper_runs 2 t ≡ some u)
      × (owner_step u.owner u ≡ some v)
      × (v.owner ≡ joined)
unfolding owner_step looper_runs
quit_ends s back inside held = (
  record s { owner = joining; is_looping = false },
  record s { owner = joining; is_looping = false; looper = ended; has_loop = false },
  record s { owner = joined; is_looping = false; looper = ended; has_loop = false },
  ground arith,
  ground arith,
  refl,
  refl,
)
