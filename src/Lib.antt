-- ===== src/Lib.antt =====
-- A verification library for the network library of this repository: a reactor that polls file
-- descriptors, dispatches their events to the callbacks of channels, and serves TCP connections
-- with buffered input and output.
--
-- The parts and how they interact. A `Poller` (src/include/poller.h, src/poller.cpp) keeps the
-- array given to poll(2) and a map from each fd to its `Channel` (src/include/channel.h,
-- src/channel.cpp). A channel has an interest set, and `enableReading` and its likes hand it on
-- through `EventLoop::updateChannel` to the poller. A `TcpConnection`
-- (src/include/tcp_connection.h, src/tcp_connection.cpp) owns a channel and two `Buffer`s
-- (src/include/buffer.h, src/buffer.cpp): it writes to its socket what it can, buffers the rest,
-- and asks its channel for writing while bytes wait. An `EventLoop` (src/include/event_loop.h,
-- src/event_loop.cpp) polls, lets the active channels handle their events, and then runs the
-- functors that any thread has queued. A `TcpServer` (src/include/tcp_server.h,
-- src/tcp_server.cpp) makes a connection of each descriptor that its `Acceptor`
-- (src/include/acceptor.h, src/acceptor.cpp) accepts, in a loop of its `EventLoopThreadPool`
-- (src/include/event_loop_thread_pool.h, src/event_loop_thread_pool.cpp).
--
-- Files. Base holds the numbers, lists, Boolean tests and the type `Result` of a call that may
-- fail an assertion. Buffer, Channel, Poller and TcpConnection each model the source files named
-- above, one definition per function, named after it; the modules below each of them prove its
-- theorems. TcpConnection/Handlers composes the callbacks of a connection with `handleEvents` of
-- its channel. ChannelPort is what a connection relies on of its channel and its loop, a record of
-- operations and laws over which TcpConnection is stated; Poller/Port shows that the poller keeps
-- these laws. EventLoop models the loop with its queue of functors, its mutex and its wakeups;
-- what runs in it is a functor over the rest of the program. EventLoopThreadPool hands out loops,
-- and TcpServer, with the acceptor, keeps the connections that it accepts. TimerQueue keeps the
-- timers in the order of their expiration (src/include/timer_queue.h, src/timer_queue.cpp,
-- src/include/timer.h). Timestamp is a point in time and its texts (src/include/timestamp.h,
-- src/timestamp.cpp). Thread is the object of a thread, and what it does to its pthread
-- (src/include/thread.h, src/thread.cpp). TimerQueue/Scheduling is `addTimer` with `runAt`,
-- `runAfter` and `runEvery` of the loop. LogStream is the fixed buffer of a log line
-- (src/include/log_stream.h). CountDownLatch (src/include/countdown_latch.h,
-- src/count_down_latch.cpp) is the latch with the places of its waiters, and EventLoopThread
-- (src/include/event_loop_thread.h, src/event_loop_thread.cpp, src/thread.cpp) the constructing
-- thread and the new one as a step relation over them and over the flag of the loop. InetAddress
-- (src/include/inet_addr.h, src/inet_addr.cpp, src/sockets_options.cpp) makes and prints
-- addresses. Socket is the calls on descriptors (src/include/socket.h, src/socket.cpp,
-- src/sockets_options.cpp, and the constructor of src/acceptor.cpp). Reactor puts the loop, its
-- poller and many connections together (src/event_loop.cpp with src/poller.cpp, src/channel.cpp
-- and src/tcp_connection.cpp): a round of `poll` and of `handleEvents` of the active channels.
-- EchoServer (example/echo.cpp) is a client of TcpConnection.
--
-- State and errors. Objects are records that the operations take and return. An assertion that
-- fails, an access out of range, a call from the wrong thread and a vector beyond its limit are
-- faults of `Result`, after which nothing runs. `in_loop` says whether the caller runs in the
-- thread of the loop. `Ensures r P` says that `r` is a result and that it satisfies `P`: a theorem
-- of this form excludes faults. A pointer to a channel is a number that the poller's state takes
-- to the object. `size_t` is a native number and its arithmetic wraps at 2 ^ 64 (`add_size`,
-- `sub_size`); `max_size` is the limit of a vector. An fd, an index and the count of a latch,
-- which the source makes negative, are integers without a bound; the number of a connection is an
-- `int`, whose overflow is a fault, and a sum of times is below 2 ^ 63 where a theorem is about
-- it. TcpServer is stated over a ChannelPort, and the channel that the constructor of a connection
-- makes is there a state of that port, about which nothing is assumed. An event mask is the set of
-- its flags.
--
-- What the system calls do is not in the source: the outcome of `write`, `readv` and `poll` is an
-- argument of the definition that makes the call, and a theorem that relies on what they promise
-- has it as a hypothesis. `startLoop` of a thread, `gmtime_r`, and what the C library does with
-- addresses are parameters; the conversions of `snprintf` are Base/Decimal and Base/Text. Every
-- loop of the model is structural recursion, that of the event loop over the outcomes of its
-- polls; only the digits of a number are made on fuel, which is the number itself and so more than
-- its digits.
--
-- Not modelled: what the kernel does with a descriptor; `prctl` and `pthread_atfork`, which have
-- no effect on what is modelled; `timeDifference`, a division of doubles; logging, of which the
-- repository has declarations only; what the example prints.
pub mod Base
pub mod Buffer
pub mod Channel
pub mod Poller
pub mod ChannelPort
pub mod TcpConnection
pub mod EventLoop
pub mod EventLoopThreadPool
pub mod TcpServer
pub mod TimerQueue
pub mod Timestamp
pub mod Thread
pub mod LogStream
pub mod CountDownLatch
pub mod EventLoopThread
pub mod Socket
pub mod Reactor
pub mod EchoServer
pub mod InetAddress
