-- ===== src/UdpClient/Lifecycle.antt =====
-- The event of a client of src/network/UdpClient.cpp in the loop, and its end.
use tmms.Common.{
  ℕ, ◌≡◌, ◌↔◌, refl, ◌∙◌, subst, inl, inr, true, false, ◌&&◌, Option, none, some, arith, ◌==◌,
  if◌then◌else◌, Bool-cases,
}
use tmms.EventLoop.{EventLoop, del_event}
use tmms.EventLoop.Table.{events-add_event, events-del_event, fd-add_event}
use tmms.UdpServer.{no_fd, set_fd}
use tmms.UdpClient.{UdpClient, on_close, connect_in_loop, destroy}

-- The calls of the loop and the user. A client connects when it is not connected, and the kernel
-- gives it a descriptor that the loop has no event for.
pub data Step (a : ℕ) (c : UdpClient) : UdpClient → Type 0 where
  connects :
      (fd : ℕ)
      → c.connected ≡ false
      → c.loop.events fd ≡ none
      → Step a c (connect_in_loop a (some fd) c)
  fails : c.connected ≡ false → Step a c (connect_in_loop a none c)
  closes : Step a c (on_close a c)

pub data Steps (a : ℕ) (c : UdpClient) : UdpClient → Type 0 where
  stop : Steps a c c
  step : (d e : UdpClient) → Steps a c d → Step a d e → Steps a c e

abbrev pub fd_of : ℕ → UdpClient → ℕ
fd_of a c = (c.loop.objects a).fd

-- What the loop has under a descriptor, where `start` is how the client began.
abbrev pub expected : ℕ → UdpClient → UdpClient → ℕ → Option ℕ
expected a start c j = if c.connected && (fd_of a c == j) then some a else start.loop.events j

record Inv (a : ℕ) (start c : UdpClient) : Type 0 where
  table : (j : ℕ) → c.loop.events j ≡ expected a start c j
  free : c.connected ≡ true → start.loop.events (fd_of a c) ≡ none
  still_open : c.closed ≡ start.closed
  quiet : c.close_calls ≡ start.close_calls
  same_cb : c.has_close_cb ≡ start.has_close_cb

fd-set_fd : (a fd : ℕ) (l : EventLoop) → ((set_fd a fd l).objects a).fd ≡ fd
unfolding set_fd
fd-set_fd a fd l = ground arith

set_fd-events : (a fd : ℕ) (l : EventLoop) (j : ℕ) → (set_fd a fd l).events j ≡ l.events j
unfolding set_fd
set_fd-events a fd l j = refl

connect_some-Inv :
    (a fd : ℕ) (start c : UdpClient)
    → c.connected ≡ false
    → c.loop.events fd ≡ none
    → Inv a start c
    → Inv a start (connect_in_loop a (some fd) c)
unfolding connect_in_loop
connect_some-Inv a fd start c idle unused v =
    let own = fd-set_fd a fd c.loop in
    let same_fd = fd-add_event a a (set_fd a fd c.loop) ∙ own in
    record {
      table = λ j.
          ground
            (arith, events-add_event a fd (set_fd a fd c.loop) own unused j, v.table j, same_fd);
      free = λ e. ground (arith, v.table fd, same_fd);
      still_open = v.still_open;
      quiet = v.quiet;
      same_cb = v.same_cb;
    }

close-Inv :
    (a : ℕ) (start c : UdpClient)
    → c.connected ≡ true
    → Inv a start c
    → Inv a start (record c { loop = set_fd a no_fd (del_event a c.loop); connected = false })
close-Inv a start c on v = record {
  table = λ j. ground (
    arith,
    set_fd-events a no_fd (del_event a c.loop) j,
    events-del_event a (fd_of a c) c.loop refl j,
    v.table j,
    v.free on,
  );
  free = λ e. absurd cc;
  still_open = v.still_open;
  quiet = v.quiet;
  same_cb = v.same_cb;
}

on_close-Inv : (a : ℕ) (start c : UdpClient) → Inv a start c → Inv a start (on_close a c)
unfolding on_close
on_close-Inv a start c v = elim (Bool-cases c.connected) [
  | inr idle ↦ subst (Inv a start) (ground (arith, idle)) v
  | inl on ↦ subst (Inv a start) (ground (arith, on)) (close-Inv a start c on v)
]

connect_none-Inv :
    (a : ℕ) (start c : UdpClient)
    → c.connected ≡ false
    → Inv a start c
    → Inv a start (connect_in_loop a none c)
unfolding connect_in_loop
connect_none-Inv a start c idle v =
    on_close-Inv a start (record c { loop = set_fd a no_fd c.loop })
      (record {
        table = λ j. ground (arith, v.table j);
        free = λ e. absurd cc;
        still_open = v.still_open;
        quiet = v.quiet;
        same_cb = v.same_cb;
      })

Steps-Inv :
    (a : ℕ) (start : UdpClient) (c : UdpClient)
    → Steps a start c
    → Inv a start start
    → Inv a start c
Steps-Inv a start c stop v = v
Steps-Inv a start c (step d e run (connects fd idle unused)) v =
    connect_some-Inv a fd start d idle unused (Steps-Inv a start d run v)
Steps-Inv a start c (step d e run (fails idle)) v =
    connect_none-Inv a start d idle (Steps-Inv a start d run v)
Steps-Inv a start c (step d e run closes) v = on_close-Inv a start d (Steps-Inv a start d run v)

-- After any calls of a new client, `Connect` being called only while it is not connected: the loop has
-- the client under its descriptor if the client is connected, and otherwise what it had before the
-- client was made. The close callback has never been called. The destructor ends the program if there
-- is a close callback, and only then.
pub lifetime :
    (a : ℕ) (start c : UdpClient)
    → start.connected ≡ false
    → start.closed ≡ false
    → Steps a start c
    → ((j : ℕ) → c.loop.events j ≡ expected a start c j)
      × (c.close_calls ≡ start.close_calls)
      × (destroy a c ≡ none ↔ start.has_close_cb ≡ true)
unfolding destroy
lifetime a start c idle opened run =
    let v = Steps-Inv a start c run (record {
      table = λ j. ground (arith, idle);
      free = λ e. absurd cc;
      still_open = refl;
      quiet = refl;
      same_cb = refl;
    }) in
    (
      v.table,
      v.quiet,
      (
        λ h. ground (arith, h, v.still_open, v.same_cb, opened),
        λ h. ground (arith, h, v.still_open, v.same_cb, opened),
      ),
    )
