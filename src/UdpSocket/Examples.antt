-- ===== src/UdpSocket/Examples.antt =====
-- Runs of the socket and examples of its theorems.
use tmms.Common.{
  ℕ, ◌≡◌, refl, true, false, Option, none, some, List, [], ◌∷◌, ◌++◌, arith, replicate,
}
use tmms.MsgBuffer.{MsgBuffer}
use tmms.MsgBuffer.Valid.{IsValid}
use tmms.SocketOpt.{AddressText, inet4}
use tmms.TcpConnection.{eintr, eagain, wrote, refused}
use tmms.UdpSocket.{
  UdpBufferNode, UdpSocket, on_write, Recv, datagram, failed, on_timeout, on_error,
  enable_check_idle_timeout, send_in_loop, send_list_in_loop, insert_entry, enable_write,
}
use tmms.UdpSocket.Queue.{state, taken, taken-on_write}

abbrev first : UdpBufferNode
first = record { addr = 100; size = 4; sock_addr = 300; sock_len = 16 }

abbrev second : UdpBufferNode
second = record { addr = 200; size = 6; sock_addr = 300; sock_len = 16 }

-- Room for three bytes.
abbrev small : MsgBuffer
small = record { buffer = replicate 11 0; reader_index = 8; writer_index = 8 }

abbrev queued : UdpSocket
queued = record {
  closed = false;
  buffer_list = first ∷ second ∷ [];
  msg_buffer = small;
  timer_lives = true;
  max_idle_time = 30;
  effects = [];
}

closes : (on_timeout queued).closed ≡ true
unfolding on_timeout
closes = refl

closes_on_error : (on_error queued).closed ≡ true
unfolding on_error
closes_on_error = refl

starts_timer : (enable_check_idle_timeout 5 queued).effects ≡ insert_entry 5 ∷ []
unfolding enable_check_idle_timeout
starts_timer = refl

waits_behind : (send_in_loop (wrote 4) first queued).buffer_list ≡ first ∷ second ∷ first ∷ []
unfolding send_in_loop
waits_behind = refl

list_waits : (send_list_in_loop (first ∷ []) queued).effects ≡ enable_write true ∷ []
unfolding send_list_in_loop
list_waits = refl

taken-on_write_example :
    taken (wrote 4 ∷ refused eagain ∷ []) queued.buffer_list
      ++ (state (on_write (wrote 4 ∷ refused eagain ∷ []) queued)).buffer_list
    ≡ first ∷ second ∷ []
taken-on_write_example = taken-on_write (wrote 4 ∷ refused eagain ∷ []) queued refl

abbrev only : List ℕ → Option ℕ
only [] = none
only (n ∷ []) = some n
only (n ∷ m ∷ ms) = none

-- A stand-in: an address is printed as one character.
abbrev one_character : AddressText
one_character = record {
  ntop4 = λ n. n ∷ [];
  ntop6 = λ n. n ∷ [];
  pton4 = only;
  pton6 = only;
  reads4 = λ n h. refl;
  reads6 = λ n h. refl;
}

-- The second datagram is cut.
abbrev arriving : List Recv
arriving =
    failed eintr
    ∷ datagram (inet4 1 80) (1 ∷ 2 ∷ [])
    ∷ datagram (inet4 1 80) (3 ∷ 4 ∷ [])
    ∷ failed eagain
    ∷ []

small-IsValid : IsValid small
small-IsValid = omega arith
