-- ===== src/Lib.antt =====
-- Verification of libcpp, a reactor library in C++: event loops over epoll, timers, buffers,
-- TCP connections, HTTP sessions, the handshake of KCP, logs, locks, a pool of threads, and a chat.
--
-- The parts and how they interact. An EventLoop (src/reactor) runs in one thread. Its EPoller waits
-- for the descriptors of the loop's Channels and returns the active ones, and each Channel calls
-- back its owner. Other threads hand functors to the loop through a queue under a mutex, and wake it
-- by an eventfd. A TimerQueue (src/datetime) owns a Channel on a timerfd and runs timers when it is
-- readable. A TcpConnection (src/net) owns a Channel on its socket and two Buffers (src/io).
--
-- The files.
--   Prelude: the names of the libraries, Boolean tests, lists over the native numbers, code that may
--     stop (`Option`, `assert`, `Returns`), arithmetic of size_t, results of system calls; Bytes, Decimal,
--     Maps and Dicts are on strings, decimal numbers and std::map.
--   Io/Buffer: src/io/Buffer.h and Buffer.cc. The vector is a list of bytes, the two indices are
--     numbers; size_t wraps at 2 ^ 64, and a vector has at most 2 ^ 63 - 1 bytes. What readv delivers
--     is an argument. Room is on ensureWritableBytes, Queue on single calls, Read on readFd, Run on
--     sequences of calls.
--   Io/FixedBuffer: class FixedBuffer of src/io/Buffer.h, an array and an offset in it.
--   Reactor/Channel: src/reactor/Channel.h and Channel.cc. `events_` and `revents_` are bit masks.
--   Reactor/EPoller: src/reactor/EPoller.h and EPoller.cc. The heap gives the channel at each
--     address. The kernel is the parameter `Epoll`: an interest list and epoll_ctl, which may
--     refuse to add or modify; its laws are from epoll_ctl(2). Sync is on the agreement of the two.
--   Reactor/Poller: src/reactor/Poller.h and Poller.cc. What poll(2) gives is an argument; a descriptor
--     that it is to ignore is marked. Registered and Removed are on the places of the channels, Polled
--     on poll.
--   Reactor/EventLoop: src/reactor/EventLoop.h and EventLoop.cc. A functor is a number; the eventfd
--     is its counter. Threads has the loop's thread and any number of others as a step relation, one
--     step for each access to the shared state, from the constructor on; Pending is on one round of doPendingFunctors, Timers has
--     the calls that make and cancel timers.
--   Reactor/EventLoopGroup: src/reactor/EventLoopGroup.h and EventLoopGroup.cc; a loop is its
--     address. Turns is on getNextLoop.
--   Datetime/PairSet: std::set of pairs as a sorted list. Datetime/Timer, Datetime/TimerQueue:
--     src/datetime/Timer.h, Timer.cc, TimerId.h, TimerQueue.h and TimerQueue.cc. Timers have
--     addresses; a time is a number of microseconds; `armed` is what the timerfd was last set to.
--     Invariant relates the two sets, Cancel, Expired and Reset are on the operations.
--   Datetime/TimeStamp: src/datetime/TimeStamp.h and TimeStamp.cc; gmtime_r is a parameter. Text is on the texts
--     of a time. Times have a sign in toString alone.
--   Datetime/TimerWheel: src/datetime/TimerWheel.h and TimerWheel.cc; the wheels are a list. Insert and
--     Advance are on insert and advanceClock, BucketTime on the times of buckets, Run has
--     addTimerInLoop and handleRead.
--   Net/Connector: src/net/Connector.h and Connector.cc. What connect and SO_ERROR give is an
--     argument; descriptors, queued resets and waiting timers are counted, and the delays
--     given to runAfter kept. Accounts has the events that may happen, the assertions and the invariant, Backoff the delays, Stopped what is left after `stop`.
--   Net/TcpConnection: src/net/TcpConnection.h and TcpConnection.cc. `wire` is what the kernel took
--     to send. Results of system calls are arguments; the user's callbacks are functions on the
--     connection, run at once as runInLoop does in the loop's thread. Stream, Send and Write are on
--     the byte stream, Shutdown and Lifecycle on the states.
--   Net/Socket: src/net/Socket.h, Socket.cc, InetAddress.h and InetAddress.cc; the conversions of the C library
--     are the parameter `Inet`. HostPort is on the texts of addresses.
--   Net/Acceptor: src/net/Acceptor.h and Acceptor.cc; Served has the acceptor with the server that uses it.
--   Net/TcpClient: src/net/TcpClient.h and TcpClient.cc, over Net/Connector; Again is on the loss of a
--     connection. Net/TcpServer: src/net/TcpServer.h and TcpServer.cc; Lives has the lives of its
--     connections as steps of the loops, Start a server from its start on.
--   Net/Udp: src/net/UdpServer.h, UdpServer.cc, UdpClient.h and UdpClient.cc; Input is on what is left of
--     datagrams in the buffer.
--   Thread/SpinLock: src/thread/SpinLock.h, with one step for each access to the flag.
--   Thread/RwLock: src/thread/RwLock.h. What a call does under the mutex is one step, and the counters wrap
--     like an unsigned int; Steps has threads, and how many of those that wait were notified.
--   Thread/CountDownLatch, Thread/Semaphore, Thread/ThreadPool: the headers of these names in src/thread,
--     in the same way. A task of the pool is a number, the count of a semaphore
--     a 32-bit word.
--   Logging/Logger: src/logging/Logging.h and Logging.cc; a statement is one of the macros with what its body does
--     to the stream of the thread. Line is on the time that is cached, Statement on one of them, Lines on sequences,
--     Nested on a statement within another.
--   Logging/AsyncLogging: src/logging/AsyncLoggingDoubleBuffering.h. A BufferPtr is an optional
--     buffer; the calls of append and the rounds of threadFunc are steps. Order is on both, Stop on what
--     is in the file at the end.
--   Logging/LogFile: src/logging/LogFile.h and LogFile.cc. What a call of fwrite takes is a function of
--     its number. Append is on File::append, Roll on the files.
--   Http/HttpMessage: src/http/HttpMessage.h; strings are lists of bytes. Headers is on looking them up, Fields on
--     the text of a request, as a function on a quotient of the calls that gave its headers.
--   Http/HttpSession: src/http/HttpSession.h and HttpSession.cc. The calls of the parser are a list of
--     events, its struct is bytes, and what the session asks it is the parameter `Parser`. Request and Response have
--     the events of one message.
--   Http/HttpServer: src/http/HttpServer.cc and HttpClient.cc, the sessions of the connections.
--   App/HimServer: app/him/HimServer.h and HimServer.cc, the server of a chat; Registered, Sends and Inbox are
--     on its users and what each is sent. App/HimClient: app/him/HimClient.h and HimClient.cc; Talk has what
--     the lines of a user ask for, Obeyed and Chat what is sent for them.
--   Kcp/KcpUtils, Kcp/KcpLayer: src/kcp/KcpUtils.h, KcpLayer.h and KcpLayer.cc. ikcp is the parameter
--     `Ikcp`; an eventfd is its counter. Handshake has a server and a client, Server the datagrams
--     that a server is given.
--   Kcp/KcpServer: src/kcp/KcpServer.h, KcpServer.cc, KcpClient.h and KcpClient.cc; Serve has a client that
--     calls a server.
--
-- A failed assertion, an abort, and an access out of range are `none`. The loops of the code are
-- structural recursions here, but for two with fuel: that of File::append, for which one round is
-- enough where each write takes all, and the wheels of a TimerWheel, for which as many as the timer's
-- time and one more are; both are proved.
--
-- Not modelled: src/http/http_parser.* and src/kcp/ikcp.* are copies of other projects' libraries,
-- and what only passes on to a system call is left out.
pub mod App
pub mod Prelude
pub mod Io
pub mod Reactor
pub mod Datetime
pub mod Net
pub mod Thread
pub mod Logging
pub mod Http
pub mod Kcp
