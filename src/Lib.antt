-- ===== src/Lib.antt =====
-- NetLibrary: a small C++11 networking library on epoll. The model covers its data structures, its
-- threads, its event loop, its connections and servers, and its logger, files and configuration, as
-- functions and step relations.
--
-- The parts, from the bottom up:
-- - Base: the names that all modules share, Boolean tests, lists of bytes, machine words, integers,
--   std::map (Base/SortedMap), which is a list of entries in the order of their keys, and the bytes of
--   integers in memory, lowest or highest first (Base/Endian).
-- - Buffer (buffer.h, buffer.cpp): a growing byte array with a start and an end. `makeRoom`,
--   `expand`, `moveHead`, `append`, `consume`, `absorb`, `copyFrom` and the assignment are
--   `make_room`, `expand`, `move_head`, `append`, `consume`, `absorb`, `copy_from` and `assign`.
--   An array is a list of cells, of which some are not initialised, and `grants` says which
--   allocations succeed. Buffer/Inv has the invariant, Buffer/Append and Buffer/Copy the contents,
--   Buffer/Refine sequences of operations.
-- - Slice (slice.h, slice.cc): a pair of pointers into memory, here two indices into a list of
--   bytes: scanning, comparing and splitting, one function for each member.
-- - SafeQueue (thread.h, thread.cc): the blocking queue. A member is one step under the mutex; a
--   wait is driven by the list of its wake-ups, each with the state of the queue that it finds.
-- - ThreadPool (thread.h, thread.cc): workers on a SafeQueue. `Step` interleaves the actions of the
--   workers and the calls of clients; `Reach` and `Run` are its runs, ThreadPool/Destroy is the end.
-- - EventBase (eventbase.h, eventbase.cc): timers, tasks from other threads, and the loop.
--   `runAt`, `cancel`, `handleTimeout`, `repeatableTimeout`, `refreshNearest`, `safeCall`, `exit`,
--   `loop_once` and `loop` are `do_run_at`, `do_cancel`, `handle_timeout`, `repeatable_timeout`,
--   `refresh_nearest`, `do_safe_call`, `do_exit`, `loop_once` and `loop`. The read handler of the
--   wake-up pipe is `handle_wakeup`; it takes the tasks from the SafeQueue.
-- - Poller (poller.h, poller.cc, channel.h, channel.cc): channels and the dispatch of the events
--   that epoll reports. `addChannel`, `removeChannel`, `updateChannel`, `close` and `loop_once` are
--   `add_channel`, `remove_channel`, `update_channel`, `close_channel` and `loop_once`. A handler
--   may close, delete or make channels while the events of one epoll_wait are dispatched.
--   Poller/Destroy is the destructor, which closes the live channels.
-- - TcpConn (tcpConn.h, tcpConn.cpp): a connection on a Channel, with a Buffer for each direction.
--   `attach`, `handleHandshake`, `handleRead`, `handleWrite`, `cleanup`, `send` and `isend` are
--   `attach`, `handshake`, `handle_read`, `handle_write`, `cleanup`, `send` and `isend`.
--   TcpConn/States and TcpConn/Events follow the state over any sequence of events.
--   TcpConn/Making has how connections are made, TcpConn/Message and TcpConn/Delivery
--   what `send` does with a message, TcpConn/Preserving what any read callback keeps.
-- - TcpServer (tcpServer.h, tcpServer.cpp): a listening socket. `startServer`, `bind` and
--   `handleAccept` are `start_server`, `bind` and `handle_accept`; the closure that attaches a
--   connection is a task of the EventBase, and `add_con` when it runs. TcpServer/Accepting follows a
--   connection from accept through the queue of the event base to the loop.
-- - Echo (main.cpp): the echo server of TestTcpServer on top of TcpConn. Its callback is `echo`;
--   Echo/Lossless follows what a connection has read, sent and kept, and Echo/Answering what it sends
--   where all writes succeed.
-- - Conf (conf.h): INI files. `LineScanner` and its members keep their names; the loop of `parse` is
--   `parse_lines`, with one function for each form of a line, and the getters are `get`,
--   `get_number`, `get_boolean` and `get_strings`. Conf/Verdict says which lines are well
--   formed, and Conf/Errors has the number that `parse` returns.
-- - Logger (logging.h, logging.cc): levels, the line that `logv` puts together in its buffer
--   (`log_line`), and `maybeRotate` (`maybe_rotate`), which replaces the file of the log. The macro is
--   `hlog`.
-- - Status (status.h): an error code with its message in one array of bytes; `fromFormat`, `ioError`
--   and `copyState` are `from_format`, `io_error` and `copy_state`.
-- - File (file.h): whole files over the interface `FileSystem` of File/System, whose laws are the
--   record `Posix`; `getContent`, `writeContent` and `renameSave` are `get_content`, `write_content`
--   and `rename_save`.
-- - Net (net.h, net.cc, port.cc) and Port (port.h): socket options, IPv4 addresses, and `htobe`.
-- - Daemon (daemon.h): the decisions on the pid file; `daemonStart`, `daemonStop`, `daemonRestart` and
--   `daemonProcess` are `daemon_start`, `daemon_stop`, `daemon_restart` and `daemon_process`.
--   Daemon/Signal has the handlers of signals.
-- - RawExample (raw-example/epoll.cc): a server on epoll that uses none of the parts above: `sendRes`,
--   `handleRead`, `handleAccept`, `once_loop` and `main` are `send_res`, `handle_read`,
--   `handle_accept`, `once_loop` and `main`. RawExample/Serving answers a request, RawExample/Failing
--   has a write that fails, RawExample/Registered what is registered with epoll.
-- - UnitTest (UnitTest.h, main.cpp): the registry of tests, `RunAllTests`, the assertions of `Tester`,
--   and `main`, which runs tests by name: `register_test`, `run_all_tests`, `is`, `is_eq`, `put` and
--   `main`.
-- - Util (util.h, util.cc): `format` with its two buffers, and the numbers of strtol.
--
-- What the code takes from outside is a parameter: the clock, which allocations succeed, what
-- epoll_wait, accept, read, write and poll report, the file system, the texts that printf writes, and
-- what the tasks and handlers do, as lists of calls of the library. A bad use of a pointer is a
-- `Fault`.
--
-- Numbers: sizes are 64-bit words in Buffer, with their wrap-around; times and descriptors are
-- integers; the counters of timers and channels do not overflow. `m_nextTimeout` is an int, to
-- which the difference of two times is converted.
--
-- Fuel: the loops of `handleTimeout`, of the task queue and of the dispatch run on fuel, since a
-- task may add timers or tasks for ever, and so do the loops of `handleRead`, `isend`,
-- `handleAccept`, `getContent` and `getChildren`, and those of raw-example, which end with what the
-- system reports, and that of the poller's destructor, which takes a round for each live channel.
-- Where the tasks make no calls, one more round than there are timers is enough if all of them are
-- single ones; a repeated timer that is overdue by several intervals takes a round for each. For the
-- task queue and the dispatch, one more round than there are tasks or events is enough where tasks and
-- handlers make no calls, and for reads, writes and accepts one more than come before the last. The
-- safety theorems hold for any fuel.
--
-- Not modelled: the destructors of EventBase, TcpConn and TcpServer, which delete the poller or a
-- channel, and the pipe that the constructor of EventBase makes; a task of a repeated timer that
-- cancels its own timer, behind which the destroyed function object still runs; what an operation of
-- Buffer leaves where an array is refused; the calls of the clocks in util.cc; the tests of main.cpp
-- but for the echo server. Lines for the log are left out of all models but Logger, and with them `fatal`, which only writes to the log.
pub mod Base
pub mod Buffer
pub mod Conf
pub mod Slice
pub mod RawExample
pub mod SafeQueue
pub mod ThreadPool
pub mod TcpServer
pub mod UnitTest
pub mod Util
pub mod Daemon
pub mod Echo
pub mod EventBase
pub mod File
pub mod Logger
pub mod Net
pub mod Poller
pub mod Port
pub mod Status
pub mod TcpConn
