-- ===== src/UdpServer/Examples.antt =====
-- A server that is closed by an error, and an example of the theorem on what it leaves.
use tmms.Common.{true, false, none, some, [], replicate, if◌then◌else◌, ◌==◌}
use tmms.EventLoop.{event_read}
use tmms.UdpServer.{UdpServer}

-- The server is the event at 100 with descriptor 5; the event at 200 is given 5, too.
abbrev serving : UdpServer
serving = record {
  loop = record {
    events = λ k. if k == 5 then some 100 else none;
    objects = λ a. record { fd = 5; event = event_read };
    calls = [];
    functions = [];
    executed = [];
    wakeups = 0;
    looping = true;
  };
  socket = record {
    closed = false;
    buffer_list = [];
    msg_buffer = record { buffer = replicate 8 0; reader_index = 8; writer_index = 8 };
    timer_lives = false;
    max_idle_time = 30;
    effects = [];
  };
}
