-- ===== src/TcpConnection/Examples.antt =====
-- Runs of the connection's handlers and examples of its theorems.
use tmms.Common.{Bool, ◌≡◌, refl, ◌++◌, List, [], ◌∷◌, true, false, arith}
use tmms.TcpConnection.{
  queue_rest, wrote_some, Iovec, eagain, other, Outcome, wrote, refused, TcpConnection, consume,
  on_write, on_close, send_in_loop, send_list_in_loop,
}
use tmms.TcpConnection.Output.{waiting, state}
use tmms.TcpConnection.Posted.{Shared, order}
use tmms.TcpConnection.Stream.{
  Call, sends, sends_list, writes, call, calls, Fits, all_bytes, all_taken, all_taken-all_bytes,
}

abbrev idle : TcpConnection
idle = record { closed = false; io_vec_list = []; effects = [] }

abbrev first : Iovec
first = record { iov_base = 100; iov_len = 3 }

abbrev second : Iovec
second = record { iov_base = 200; iov_len = 2 }

abbrev queued : TcpConnection
queued = record { closed = false; io_vec_list = first ∷ second ∷ []; effects = [] }

abbrev partial : List Outcome
partial = wrote 4 ∷ refused eagain ∷ []

partial_run :
    (state (on_write partial queued)).io_vec_list ≡ record { iov_base = 201; iov_len = 1 } ∷ []
unfolding on_write consume wrote_some
partial_run = refl

drained : consume 5 (first ∷ second ∷ []) ≡ []
unfolding consume
drained = refl

-- Five bytes of which the kernel takes two, a list, a writable socket that takes four more, and an error.
abbrev history : List Call
history =
    sends 2 100 5
    ∷ sends_list (second ∷ [])
    ∷ writes (wrote 4 ∷ refused eagain ∷ [])
    ∷ writes (refused other ∷ [])
    ∷ sends 3 300 3
    ∷ []

history-Fits : Fits history
unfolding Fits
history-Fits = (omega arith, omega arith, (omega arith, omega arith, _))

closed_at_end : (calls history idle).closed ≡ true
unfolding calls call send_in_loop send_list_in_loop on_write consume wrote_some on_close
closed_at_end = refl

all_taken-all_bytes_example :
    all_taken history idle ++ waiting (calls history idle).io_vec_list ≡ all_bytes history idle
all_taken-all_bytes_example = all_taken-all_bytes history idle history-Fits

-- Another thread sends, and then the loop's thread does.
abbrev shared : Shared
shared = record { conn = idle; queue = [] }

abbrev two_threads : List (Bool × Call)
two_threads = (false, sends 1 100 3) ∷ (true, sends 2 200 2) ∷ []

overtaken : all_taken (order two_threads []) idle ≡ 200 ∷ 201 ∷ 100 ∷ []
unfolding all_taken call send_in_loop queue_rest
overtaken = refl
