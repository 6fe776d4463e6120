-- ===== src/TcpClient/Examples.antt =====
-- Runs of the client and examples of its theorems.
use tmms.Common.{◌≡◌, refl, true, false, none, some, [], ◌∷◌}
use tmms.TcpConnection.{wrote, TcpConnection, closed_cb, close_fd}
use tmms.TcpClient.{
  is_active, write_as, new_client, connected, disconnected, done, in_progress, TcpClient,
  connect_in_loop, on_write, send, update_connection_status,
}
use tmms.TcpClient.Lifecycle.{connects, writes, sends, Steps, stop, step, Owns, new_client-Owns}
use tmms.TcpClient.Reconnect.{closed_stays}

abbrev quiet : TcpConnection
quiet = record { closed = false; io_vec_list = []; effects = [] }

abbrev fresh : TcpClient
fresh = new_client quiet

abbrev asked : TcpClient
asked = connect_in_loop (some 5) in_progress fresh

abbrev joined : TcpClient
joined = on_write false [] asked

fresh_idle : is_active fresh.status ≡ false
fresh_idle = refl

joined_run : Steps fresh joined
joined_run =
    step asked joined (step fresh asked stop (connects (some 5) in_progress fresh_idle))
      (writes false [])

joined_connected : joined.status ≡ connected
unfolding connect_in_loop on_write update_connection_status write_as
joined_connected = refl

new_client-Owns_example : Owns joined
new_client-Owns_example = new_client-Owns quiet joined joined_run

abbrev gone : TcpClient
gone = record {
  status = disconnected;
  fd = none;
  registered = λ k. false;
  conn = record { closed = true; io_vec_list = []; effects = closed_cb ∷ close_fd ∷ [] };
  connected_calls = 1;
}

abbrev back : TcpClient
back = connect_in_loop (some 6) done gone

abbrev spoken : TcpClient
spoken = send (wrote 3) 100 3 back

spoken_run : Steps gone spoken
spoken_run =
    step back spoken (step gone back stop (connects (some 6) done refl)) (sends (wrote 3) 100 3)

back_connected : back.status ≡ connected
unfolding connect_in_loop update_connection_status
back_connected = refl

closed_stays_example : (spoken.conn.closed ≡ true) × (spoken.conn.io_vec_list ≡ [])
closed_stays_example = closed_stays gone spoken spoken_run refl
