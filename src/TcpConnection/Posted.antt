-- ===== src/TcpConnection/Posted.antt =====
-- `Send` of src/network/net/TcpConnection.cpp from any thread: in another one than the loop's it queues a
-- function that calls `SendInLoop`. The buffers stay as they are until then.
use tmms.Common.{Bool, true, false, List, [], ◌∷◌, ◌++◌, if◌then◌else◌}
use tmms.TcpConnection.{TcpConnection}
use tmms.TcpConnection.Stream.{Call, call, calls}

-- A connection, and the functions of it that wait in the loop.
pub record Shared : Type 0 where
  pub conn : TcpConnection
  pub queue : List Call

-- A `Send`, with the thread that makes it.
unfoldable pub send_from : Bool → Call → Shared → Shared
unfolding call
send_from in_loop_thread x s =
    if in_loop_thread
    then record s { conn = call x s.conn }
    else record s { queue = s.queue ++ (x ∷ []) }

unfoldable pub send_all : List (Bool × Call) → Shared → Shared
unfolding send_from
send_all [] s = s
send_all ((here, x) ∷ xs) s = send_all xs (send_from here x s)

-- `RunFuctions`.
pub run_functions : Shared → Shared
unfolding calls
run_functions s = record { conn = calls s.queue s.conn; queue = [] }

-- The calls of one kind of thread, in order.
abbrev pub from_loop : List (Bool × Call) → List Call
from_loop [] = []
from_loop ((true, x) ∷ xs) = x ∷ from_loop xs
from_loop ((false, x) ∷ xs) = from_loop xs

abbrev pub from_others : List (Bool × Call) → List Call
from_others [] = []
from_others ((true, x) ∷ xs) = from_others xs
from_others ((false, x) ∷ xs) = x ∷ from_others xs

-- The order in which the bytes of all calls go into the connection: first those of the calls in the
-- loop's thread, then those that waited before, then those of the other threads.
abbrev pub order : List (Bool × Call) → List Call → List Call
order xs queue = from_loop xs ++ (queue ++ from_others xs)
