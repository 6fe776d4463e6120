-- ===== src/EventLoop/Table.antt =====
-- What `AddEvent` and `DelEvent` of src/network/net/EventLoop.cpp do to the table of events, for the
-- classes that use the loop.
use tmms.Common.{ℕ, ◌≡◌, true, none, some, arith, ◌==◌, if◌then◌else◌}
use tmms.EventLoop.{is_some, EventLoop, add_event, del_event, set_mask, ctl}

module _ (a fd : ℕ) (l : EventLoop) (own : (l.objects a).fd ≡ fd) where
  pub events-add_event :
      l.events fd ≡ none
      → (j : ℕ) → (add_event a l).events j ≡ (if fd == j then some a else l.events j)
  unfolding add_event set_mask ctl
  events-add_event free j = ground arith

  pub events-del_event : (j : ℕ) → (del_event a l).events j ≡ (if fd == j then none else l.events j)
  unfolding del_event ctl
  events-del_event j = ground arith

pub fd-add_event : (a b : ℕ) (l : EventLoop) → ((add_event a l).objects b).fd ≡ (l.objects b).fd
unfolding add_event set_mask ctl
fd-add_event a b l = ground arith

pub objects-del_event : (a : ℕ) (l : EventLoop) → (del_event a l).objects ≡ l.objects
unfolding del_event ctl
objects-del_event a l = ground arith

pub some-add_event :
    (a fd : ℕ) (l : EventLoop) → (l.objects a).fd ≡ fd → is_some ((add_event a l).events fd) ≡ true
unfolding add_event set_mask ctl
some-add_event a fd l own = ground (arith, own)
