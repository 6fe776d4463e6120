-- ===== src/TcpServer/Connections.antt =====
-- The connections of src/network/TcpServer.cpp and the events of its loop.
use tmms.Common.{
  ℕ, ◌≡◌, refl, sym, ap, ◌∙◌, subst, ◌≢◌, inl, inr, true, false, ◌&&◌, ◌||◌, not, none, some, ◌∷◌,
  arith, ◌==◌, if◌then◌else◌, Bool-cases,
}
use tmms.EventLoop.{update}
use tmms.EventLoop.Table.{events-add_event, events-del_event, fd-add_event, objects-del_event}
use tmms.Sets.{has, erase, NoDup, has-erase, erase-NoDup}
use tmms.TcpServer.{TcpServer, new_connection_at, on_accept, on_connection_close, on_close}

abbrev fd_of : ℕ → TcpServer → ℕ
fd_of a s = (s.loop.objects a).fd

-- A connection of the set is open and the loop has it under its descriptor; the loop has no other
-- connection; the set holds none twice; connections that are not in the set are closed.
pub record IsConsistent (s : TcpServer) : Type 0 where
  pub registered : (a : ℕ) → has a s.connections ≡ true → s.loop.events (fd_of a s) ≡ some a
  pub kept :
      (fd a : ℕ) → has a s.made ≡ true → s.loop.events fd ≡ some a → has a s.connections ≡ true
  pub own : (fd a : ℕ) → has a s.made ≡ true → s.loop.events fd ≡ some a → fd_of a s ≡ fd
  pub open_iff : (a : ℕ) → has a s.made ≡ true → has a s.connections ≡ not (s.closed a)
  pub all_made : (a : ℕ) → has a s.connections ≡ true → has a s.made ≡ true
  pub once : NoDup s.connections

-- The kernel gives a descriptor that is not open, so that no event has it, and the object is new.
pub record IsNew (a fd : ℕ) (s : TcpServer) : Type 0 where
  pub free : s.loop.events fd ≡ none
  pub not_made : has a s.made ≡ false
  pub not_known : (k : ℕ) → s.loop.events k ≢ some a

-- What a server goes through: connections are accepted, and any connection is closed, also more
-- than once.
pub data Reached (start : TcpServer) : TcpServer → Type 0 where
  starts : Reached start start
  accepts :
      (a fd : ℕ) (s : TcpServer) → IsNew a fd s → Reached start s → Reached start (on_accept a fd s)
  closes :
      (a : ℕ) (s : TcpServer) → has a s.made ≡ true → Reached start s → Reached start (on_close a s)

module _ (a fd : ℕ) (s : TcpServer) (c : IsConsistent s) (n : IsNew a fd s) where
  pub events-on_accept :
      (k : ℕ) → (on_accept a fd s).loop.events k ≡ (if fd == k then some a else s.loop.events k)
  unfolding on_accept new_connection_at
  events-on_accept k = events-add_event a fd (new_connection_at a fd s).loop (ground arith) n.free k

  fd-on_accept : (b : ℕ) → fd_of b (on_accept a fd s) ≡ (if a == b then fd else fd_of b s)
  unfolding on_accept new_connection_at
  fd-on_accept b = fd-add_event a b (new_connection_at a fd s).loop ∙ ground arith

  pub connections-on_accept : (on_accept a fd s).connections ≡ a ∷ s.connections
  unfolding on_accept new_connection_at
  connections-on_accept = refl

  made-on_accept : (on_accept a fd s).made ≡ a ∷ s.made
  unfolding on_accept new_connection_at
  made-on_accept = refl

  closed-on_accept : (b : ℕ) → (on_accept a fd s).closed b ≡ (if a == b then false else s.closed b)
  unfolding on_accept new_connection_at
  closed-on_accept b = refl

  has-on_accept : (b : ℕ) → has b (on_accept a fd s).connections ≡ (b == a) || has b s.connections
  unfolding has on_accept new_connection_at
  has-on_accept b = refl

  pub has_made-on_accept : (b : ℕ) → has b (on_accept a fd s).made ≡ (b == a) || has b s.made
  unfolding has on_accept new_connection_at
  has_made-on_accept b = refl

  absent : has a s.connections ≡ false
  absent = ground (arith, c.all_made a, n.not_made)

  pub on_accept-IsConsistent : IsConsistent (on_accept a fd s)
  on_accept-IsConsistent = record {
    registered = λ b h. ground (
      arith,
      has-on_accept b,
      events-on_accept (fd_of b (on_accept a fd s)),
      fd-on_accept b,
      c.registered b,
      n.free,
    );
    kept = λ k b m e. ground (
      arith,
      has-on_accept b,
      has_made-on_accept b,
      events-on_accept k,
      c.kept k b,
      n.not_known k,
    );
    own = λ k b m e.
        ground (
          arith,
          has_made-on_accept b,
          events-on_accept k,
          fd-on_accept b,
          c.own k b,
          n.not_known k,
        );
    open_iff = λ b m.
        ground (arith, has-on_accept b, has_made-on_accept b, closed-on_accept b, c.open_iff b);
    all_made = λ b h. ground (arith, has-on_accept b, has_made-on_accept b, c.all_made b);
    once = subst NoDup (sym connections-on_accept) (absent, c.once);
  }

-- A close of a connection that is open.
module _ (a : ℕ) (s : TcpServer) (c : IsConsistent s) (m : has a s.made ≡ true)
    (alive : s.closed a ≡ false) where
  after : TcpServer
  after = on_connection_close a (record s { closed = update s.closed a true })

  events-close : (k : ℕ) → after.loop.events k ≡ (if fd_of a s == k then none else s.loop.events k)
  unfolding after on_connection_close
  events-close k = events-del_event a (fd_of a s) s.loop refl k

  fd-close : (b : ℕ) → fd_of b after ≡ fd_of b s
  unfolding after on_connection_close
  fd-close b = ap (λ o. (o b).fd) (objects-del_event a s.loop)

  connections-close : after.connections ≡ erase a s.connections
  unfolding after on_connection_close
  connections-close = refl

  has-close : (b : ℕ) → has b after.connections ≡ has b s.connections && not (b == a)
  unfolding after on_connection_close
  has-close b = has-erase a b s.connections c.once

  made-close : (b : ℕ) → has b after.made ≡ has b s.made
  unfolding after on_connection_close
  made-close b = refl

  closed-close : (b : ℕ) → after.closed b ≡ (if a == b then true else s.closed b)
  unfolding after on_connection_close
  closed-close b = refl

  after-IsConsistent : IsConsistent after
  after-IsConsistent = record {
    registered = λ b h. ground (
      arith,
      has-close b,
      events-close (fd_of b after),
      fd-close b,
      c.registered b,
      c.registered a,
      c.open_iff a,
    );
    kept =
        λ k b i e. ground (arith, has-close b, made-close b, events-close k, c.kept k b, c.own k b);
    own = λ k b i e. ground (arith, made-close b, events-close k, fd-close b, c.own k b);
    open_iff = λ b i. ground (arith, has-close b, made-close b, closed-close b, c.open_iff b);
    all_made = λ b h. ground (arith, has-close b, made-close b, c.all_made b);
    once = subst NoDup (sym connections-close) (erase-NoDup a s.connections c.once);
  }

on_close-IsConsistent :
    (a : ℕ) (s : TcpServer) → IsConsistent s → has a s.made ≡ true → IsConsistent (on_close a s)
unfolding on_close after
on_close-IsConsistent a s c m = elim (Bool-cases (s.closed a)) [
  | inl shut ↦
      subst IsConsistent
        (sym (
          ap
            (λ b.
              if b then s else on_connection_close a (record s { closed = update s.closed a true }))
            shut))
        c
  | inr alive ↦
      subst IsConsistent
        (sym (
          ap
            (λ b.
              if b then s else on_connection_close a (record s { closed = update s.closed a true }))
            alive))
        (after-IsConsistent a s c m alive)
]

-- However connections are accepted and closed, in any order and some closed again and again: the
-- server's set holds exactly the connections that are not closed, each once, and the loop's table
-- has each of them under its descriptor and no other connection.
pub Reached-IsConsistent :
    (start s : TcpServer) → IsConsistent start → Reached start s → IsConsistent s
Reached-IsConsistent start s h starts = h
Reached-IsConsistent start s h (accepts a fd t n r) =
    on_accept-IsConsistent a fd t (Reached-IsConsistent start t h r) n
Reached-IsConsistent start s h (closes a t m r) =
    on_close-IsConsistent a t (Reached-IsConsistent start t h r) m
