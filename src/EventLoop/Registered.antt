-- ===== src/EventLoop/Registered.antt =====
-- The kernel's interest list and the map of events of src/network/net/EventLoop.cpp agree.
use tmms.Common.{
  ℕ, ◌≡◌, ap, ◌∙◌, inl, inr, Bool, true, false, Option, none, some, List, [], ◌∷◌, arith, ◌==◌,
  if◌then◌else◌, Option-cases,
}
use tmms.EventLoop.{
  Mask, event_read, event_write, mask_or, mask_clear, Ctl, ctl_add, ctl_mod, ctl_del, EventLoop,
  add_event, del_event, enable, enable_read, enable_write, set_mask, ctl,
}

-- What epoll documents of the recorded calls: ADD fails for a descriptor in the list, MOD for one
-- that is not, and DEL takes it out.
unfoldable pub interest : ℕ → List Ctl → Option Mask
interest fd [] = none
interest fd (ctl_add f m ∷ cs) =
    if f == fd then some (elim (interest fd cs) [ none ↦ m | some old ↦ old ]) else interest fd cs
interest fd (ctl_mod f m ∷ cs) =
    if f == fd then elim (interest fd cs) [ none ↦ none | some old ↦ some m ] else interest fd cs
interest fd (ctl_del f ∷ cs) = if f == fd then none else interest fd cs

-- The mask of the event that the map holds for a descriptor.
abbrev pub registered : EventLoop → ℕ → Option Mask
registered l fd = elim (l.events fd) [ none ↦ none | some a ↦ some (l.objects a).event ]

pub record Agrees (l : EventLoop) : Type 0 where
  pub own_fd : (fd a : ℕ) → l.events fd ≡ some a → (l.objects a).fd ≡ fd
  pub same_mask : (fd : ℕ) → interest fd l.calls ≡ registered l fd

-- No other event holds the descriptor of this one.
abbrev pub IsOwner : ℕ → EventLoop → Type 0
IsOwner a l = (b : ℕ) → l.events (l.objects a).fd ≡ some b → b ≡ a

module _ (a : ℕ) (l : EventLoop) (ag : Agrees l) where
  pub del_event-Agrees : Agrees (del_event a l)
  unfolding del_event interest ctl
  del_event-Agrees = elim (Option-cases (l.events (l.objects a).fd)) [
    | inl gone ↦ rw (gone, del_event) ag
    | inr (b, held) ↦
        rw (held, del_event)
          (record {
            own_fd = λ fd c e. ground (arith, ag.own_fd fd c);
            same_mask = λ fd. ground (arith, ag.same_mask fd);
          })
  ]

  pub add_event-Agrees : Agrees (add_event a l)
  unfolding add_event interest ctl set_mask
  add_event-Agrees = elim (Option-cases (l.events (l.objects a).fd)) [
    | inl gone ↦
        rw (gone, add_event)
          (record {
            own_fd = λ fd c e. ground (arith, ag.own_fd fd c);
            same_mask = λ fd. elim (Option-cases (l.events fd)) [
              | inl unheld ↦ ground (arith, ag.same_mask fd)
              | inr (c, holds) ↦ ground (arith, ag.same_mask fd, ag.own_fd fd c holds)
            ];
          })
    | inr (b, held) ↦ rw (held, add_event) ag
  ]

  enable-Agrees : (m : Mask) → IsOwner a l → Agrees (enable m a l).0
  unfolding enable interest ctl set_mask
  enable-Agrees m owner = elim (Option-cases (l.events (l.objects a).fd)) [
    | inl gone ↦ rw (gone, enable) ag
    | inr (b, held) ↦
        rw (held, enable)
          (record {
            own_fd = λ fd c e. ground (arith, ag.own_fd fd c);
            same_mask = λ fd. elim (Option-cases (l.events fd)) [
              | inl unheld ↦ ground (arith, ag.same_mask fd)
              | inr (c, holds) ↦ ground (arith, ag.same_mask fd, ag.own_fd fd c holds, owner b held)
            ];
          })
  ]

-- The calls by which handlers change what the loop watches.
pub data Change : Type 0 where
  adds dels : ℕ → Change
  enables_read enables_write : ℕ → Bool → Change

pub change : Change → EventLoop → EventLoop
change (adds a) l = add_event a l
change (dels a) l = del_event a l
change (enables_read a on) l = (enable_read a on l).0
change (enables_write a on) l = (enable_write a on l).0

abbrev pub subject : Change → ℕ
subject (adds a) = a
subject (dels a) = a
subject (enables_read a on) = a
subject (enables_write a on) = a

-- `AddEvent`, `DelEvent`, `EnableRead` and `EnableWrite`, called for an event whose descriptor no
-- other event holds, keep the kernel's interest list in step with the registered masks.
pub change-Agrees :
    (x : Change) (l : EventLoop) → Agrees l → IsOwner (subject x) l → Agrees (change x l)
unfolding change enable_read enable_write
change-Agrees (adds a) l ag owner = add_event-Agrees a l ag
change-Agrees (dels a) l ag owner = del_event-Agrees a l ag
change-Agrees (enables_read a on) l ag owner =
    enable-Agrees a l ag
      (if on
        then mask_or (l.objects a).event event_read
        else mask_clear (l.objects a).event event_read)
      owner
change-Agrees (enables_write a on) l ag owner =
    enable-Agrees a l ag
      (if on
        then mask_or (l.objects a).event event_write
        else mask_clear (l.objects a).event event_write)
      owner

module _ (m : Mask) (a b : ℕ) (l : EventLoop) (held : l.events (l.objects a).fd ≡ some b) where
  enable_held :
      let l' = (enable m a l).0 in
      ((l'.objects a).event ≡ m) × (l'.events (l'.objects a).fd ≡ some b)
  unfolding enable set_mask ctl
  enable_held = rw (held, enable) (ground arith, ground arith)

-- Turning write events on and off again leaves an event that was registered for reading without
-- EPOLLET: reading goes on level-triggered.
pub write_off_drops_et :
    (a b : ℕ) (l : EventLoop)
    → l.events (l.objects a).fd ≡ some b
    → (l.objects a).event ≡ event_read
    → let l' = (enable_write a false (enable_write a true l).0).0 in
      (l'.objects a).event ≡ record event_read { epoll_et = false }
unfolding enable_write
write_off_drops_et a b l held e =
    let (m1, held1) = enable_held (mask_or (l.objects a).event event_write) a b l held in
    let l1 = (enable (mask_or (l.objects a).event event_write) a l).0 in
    (enable_held (mask_clear (l1.objects a).event event_write) a b l1 held1).0
    ∙ ap (λ m. mask_clear m event_write) (m1 ∙ ap (λ m. mask_or m event_write) e)
