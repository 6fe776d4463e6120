-- ===== src/TcpServer/Examples.antt =====
-- A run of the server and an example of its theorem.
use tmms.Common.{ℕ, ◌≡◌, refl, true, false, Option, none, some, List, [], ◌∷◌, arith, ◌==◌}
use tmms.SocketOpt.{AddressText, inet4}
use tmms.TcpConnection.{other}
use tmms.Acceptor.{Accepted, connection, failed}
use tmms.Acceptor.Listens.{Listens, arrivals}
use tmms.TcpServer.Serving.{Serving, AllNew, Apart, made_at, read, added, read_lem}
use tmms.Sets.{has}
use tmms.EventLoop.{EventLoop, event_read}
use tmms.TcpServer.{TcpServer, on_accept, on_close}
use tmms.TcpServer.Connections.{
  IsConsistent, IsNew, Reached, starts, accepts, closes, Reached-IsConsistent,
}

abbrev empty_loop : EventLoop
empty_loop = record {
  events = λ k. none;
  objects = λ a. record { fd = 0; event = event_read };
  calls = [];
  functions = [];
  executed = [];
  wakeups = 0;
  looping = true;
}

-- The user sets an active callback and no message callback.
abbrev start : TcpServer
start = record {
  loop = empty_loop;
  connections = [];
  made = [];
  closed = λ a. true;
  given = λ a. record { message = false; write_complete = false; active = false };
  callbacks = record { message = false; write_complete = true; active = true };
  effects = [];
}

start-IsConsistent : IsConsistent start
unfolding has
start-IsConsistent = record {
  registered = λ a h. cc;
  kept = λ fd a h e. cc;
  own = λ fd a h e. cc;
  open_iff = λ a h. cc;
  all_made = λ a h. cc;
  once = _;
}

first-IsNew : IsNew 100 5 start
unfolding has
first-IsNew = record { free = refl; not_made = refl; not_known = λ k e. cc }

active_lost : ((on_accept 100 5 start).given 100).active ≡ false
unfolding on_accept
active_lost = refl

known : has 100 (on_accept 100 5 start).made ≡ true
unfolding on_accept has
known = refl

run : Reached start (on_close 100 (on_accept 100 5 start))
run = closes 100 (on_accept 100 5 start) known (accepts 100 5 start first-IsNew starts)

Reached-IsConsistent_example : IsConsistent (on_close 100 (on_accept 100 5 start))
Reached-IsConsistent_example =
    Reached-IsConsistent start (on_close 100 (on_accept 100 5 start)) start-IsConsistent run

-- The acceptor listens on 4, and the kernel reports 5 and 6 and then an error.
abbrev only : List ℕ → Option ℕ
only [] = none
only (n ∷ []) = some n
only (n ∷ m ∷ ms) = none

-- A stand-in: an address is printed as one character.
abbrev one_character : AddressText
one_character = record {
  ntop4 = λ n. n ∷ [];
  ntop6 = λ n. n ∷ [];
  pton4 = only;
  pton6 = only;
  reads4 = λ n h. refl;
  reads6 = λ n h. refl;
}

abbrev serving : Serving
serving = record {
  server = start;
  acceptor = record { fd = some 4; socket_opt = some 4; registered = λ k. k == 4; accepted = [] };
  has_accept_cb = true;
}

abbrev answers : List Accepted
answers = connection 5 (inet4 1 80) ∷ connection 6 (inet4 2 80) ∷ failed other ∷ []

objects-AllNew : AllNew (made_at (100 ∷ 200 ∷ []) (arrivals one_character answers)) start
unfolding AllNew Apart has
objects-AllNew = (
  first-IsNew,
  (ground arith, ground arith, _),
  (record { free = refl; not_made = refl; not_known = λ k e. cc }, _, _),
)

read_lem_example :
    (u : Serving) × (read one_character (some 7) answers (100 ∷ 200 ∷ []) serving ≡ some u)
    × Listens u.acceptor
    × IsConsistent u.server
    × (u.server.connections ≡ added (made_at (100 ∷ 200 ∷ []) (arrivals one_character answers)) [])
read_lem_example =
    read_lem one_character 7 4 answers (100 ∷ 200 ∷ []) serving
      (record { same_socket = refl; only = λ k. refl }) refl start-IsConsistent objects-AllNew
