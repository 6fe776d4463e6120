-- ===== src/Lib.antt =====
-- Models and theorems for tmms, a streaming media server in C++ under src/.
--
-- The program is an event-driven network library with a small base library. An EventLoop owns an
-- epoll descriptor, a table of events and a TimingWheel. It hands readiness reports to the handlers
-- of events, such as TcpConnection, runs functions that other threads queue, and advances the wheel
-- by the seconds that have passed. A TcpConnection reads into a MsgBuffer and writes from a list of
-- vectors. A TcpServer makes a connection of each socket that its Acceptor takes, keeps it in a set
-- and registers it in the loop; a TcpClient is a connection that connects itself. UdpSocket is the
-- counterpart for datagrams, DnsService keeps the addresses of hosts. The base library has the text
-- helpers of StringUtils, timed tasks, log statements, the configuration, and log files that a manager
-- rotates; `main` reads the configuration and opens the log.
--
-- Files, with the code that each models:
--   * Common: names of the libraries passed on, Boolean tests on numbers, list lemmas, words of
--     fixed width and results with faults. No code of the program.
--   * MsgBuffer: src/network/base/MsgBuffer.h and MsgBuffer.cpp. The record holds the storage and
--     both indices; `retrieve`, `append`, `make_space`, `peek_int32`, `read_int32`, `find_crlf` and
--     `unwrite` are the methods of those names in the code's capitals, a failed `assert` is a fault.
--     `read_fd` is `readFd`, with what `readv` returned as an argument.
--   * StringUtils: src/base/StringUtils.cpp. A text is a list of bytes.
--   * TimingWheel: src/network/net/TimingWheel.h and TimingWheel.cpp. A slot is a list of entries; a
--     shared entry is dropped from the slots as the code drops its pointer, a one-shot entry runs
--     its callback in its destructor. `on_timer` is `OnTimer`, `on_tick` one round of its loop.
--   * EventLoop: src/network/net/EventLoop.h, EventLoop.cpp and the masks of Event.h. `dispatch` is
--     the choice for one readiness report, `run_functions` is `RunFuctions`.
--   * LoopRound: `Loop` of EventLoop.cpp after the wait; what the handlers do is an argument.
--   * LoopTimers: `InsertEntry`, `RunAfter`, `RunEvery` and `RunInLoop` of EventLoop.cpp over the wheel,
--     in the loop's thread and from others. A queued function is what it will do. `after_moved` is the
--     overload of `RunAfter` that does not test the thread.
--   * EventLoopThread: src/network/net/EventLoopThread.cpp. `Step` is one access of the thread or of its
--     owner to what they share, `Steps` any interleaving of them.
--   * EventLoopThreadPool: src/network/net/EventLoopThreadPool.cpp, without starting threads.
--   * Connection: src/network/net/Connection.cpp, the contexts and `Active` over the loop's queue.
--   * PipeEvent: src/network/net/PipeEvent.cpp and `WakeUp` of EventLoop.cpp. The pipe is a record of
--     calls; `IsPipe` are its laws, which a small pipe in memory has. `Reached` are the interleavings.
--   * TcpConnection: src/network/net/TcpConnection.cpp. What the kernel answers is an argument. In
--     Stream, `calls` are a history of `Send` and `OnWrite`; Posted is `Send` from any thread.
--   * IdleTimeout: the idle timeout of TcpConnection.cpp over TimingWheel. `pass` are ticks, `active`
--     are signs of life, each after so many ticks.
--   * InetAddress: src/network/base/InetAddress.cpp, with `inet_pton` as an argument.
--   * TaskMgr: src/base/Task.cpp and src/base/TaskMgr.cpp, with callbacks and clock as arguments.
--   * TcpClient: src/network/TcpClinet.cpp. `Step` are the calls of a client in the loop thread.
--   * DnsService: src/network/DnsService.cpp, with `getaddrinfo` as an argument: a `Lookup`, and for a
--     failure what the unset `res` leads to. Worker is its thread; time is what it sleeps.
--   * SocketOpt: src/network/base/SocketOpt.cpp and `GetSockAddr` of InetAddress.cpp. A socket
--     address has its family's fields; `inet_ntop` and `inet_pton` are a record with the law that they are inverse.
--   * UdpSocket: src/network/net/UdpSocket.cpp. A datagram that waits is its address.
--   * UdpServer and UdpClient: src/network/UdpServer.cpp and UdpClient.cpp over EventLoop. `on_close` is
--     the close that each makes, `destroy` the destructor of UdpSocket for a client.
--   * Acceptor: src/network/net/Acceptor.cpp, over the set of descriptors that the loop has.
--   * TcpServer: src/network/TcpServer.cpp over EventLoop. `Reached` are the calls of a server; Serving
--     is the server with its Acceptor.
--   * TestContext: src/network/TestContext.cpp over MsgBuffer.
--   * FileLog and FileMgr: src/base/FileLog.cpp and src/base/FileMgr.cpp. The file system is a record
--     of operations; `IsPosix` are the laws that the theorems use, which a file system in memory has.
--   * Logger: src/base/Logger.cpp, LogStream.cpp, LogStream.h and src/network/base/Network.h. A line is a
--     list of bytes; clock and thread are arguments.
--   * Config: src/base/Config.cpp. `Json` is what it uses of JsonCpp; a value of another kind is a fault.
--     Names and Settings say what a document means without the code's tests.
--   * Main: src/main/main.cpp over Config, FileMgr and Logger, with the file system as a record.
--   * Sets: `std::set` and its kind of tasks and connections, as lists without repetition.
--
-- Bounds and fuel. Sizes of the buffer and of vectors are 64-bit words, and ticks are as wide as in
-- the code; the wrap-around is written out where the code computes with them, and a theorem names
-- the range in which it speaks. The loop of `SplitString` runs on fuel, the length of the text plus
-- one, and moves on by at least one byte in every round; decimal digits are made with the number
-- itself as fuel. `OnRead` of PipeEvent and `ParseMessage` of TestContext are given a number of
-- rounds, and the result says whether they have returned by then; the thread of DnsService is given
-- the answers for so many rounds. All other loops are structural.
-- Loops that wait for the kernel take the kernel's answers as a list; with no more answers, the
-- result says that the loop is still running.
--
-- Not modelled: the wait in `epoll_wait`, locks except in EventLoopThread, the log statements of the
-- code, the system calls themselves, and the setters of callbacks.
pub mod Common
pub mod Sets
pub mod MsgBuffer
pub mod StringUtils
pub mod TimingWheel
pub mod EventLoop
pub mod TcpConnection
pub mod InetAddress
pub mod TaskMgr
pub mod TcpClient
pub mod DnsService
pub mod TestContext
pub mod SocketOpt
pub mod UdpSocket
pub mod FileLog
pub mod FileMgr
pub mod Acceptor
pub mod TcpServer
pub mod PipeEvent
pub mod IdleTimeout
pub mod LoopRound
pub mod EventLoopThreadPool
pub mod EventLoopThread
pub mod Connection
pub mod LoopTimers
pub mod Logger
pub mod Config
pub mod Main
pub mod UdpServer
pub mod UdpClient
