-- ===== src/Lib.antt =====
-- Moduo is a C++ network library after muduo: one event loop per thread, epoll underneath, and TCP
-- connections with an input and an output buffer. This library models its core from src/ of the
-- repository and proves what its parts do.
--
-- The parts, and the files that model them:
--   Buffer, src/Buffer.h and src/Buffer.cc. The vector is a list of bytes, `size_t` wraps at 2 ^ 64, and
--     an access out of bounds is the outcome `undefined`. Buffer/Contents gives the queue of bytes that
--     a buffer stands for.
--   Channel, src/Channel.h and src/Channel.cc: a descriptor with the events asked for and the events
--     that came, as 32-bit patterns. Channel/Events has the calls that go through the loop to the poller.
--   Poller, src/Poller.h, src/Poller.cc, src/EPollPoller.h and src/EPollPoller.cc: the map from
--     descriptors to channels, `epoll_ctl` and `epoll_wait` (Poller/Wait), and any calls in a row
--     (Poller/Whole).
--   EventLoop, src/EventLoop.h and src/EventLoop.cc: the queue of functors and the eventfd, its
--     construction and destruction (EventLoop/Lifetime, with src/DefaultPoller.cc), the rounds of `loop`
--     (EventLoop/Rounds), and the steps of its thread and of others in any order (EventLoop/Wakeup).
--   EventLoopThreadPool, src/EventLoopThreadPool.h and src/EventLoopThreadPool.cc: the loops of the
--     threads, handed out in turn, and the threads' names (EventLoopThreadPool/Naming).
--   EventLoopThread, src/EventLoopThread.h and src/EventLoopThread.cc: the thread of a loop and the owner of
--     the object as steps in any order; `cond_.wait` returns only when it is notified.
--   Thread, src/Thread.h and src/Thread.cc, with CurrentThread, src/CurrentThread.h and
--     src/CurrentThread.cc: the object of a thread and the calls it takes.
--   Socket, src/Socket.h and src/Socket.cc: the calls on a descriptor. InetAddress, src/InetAddress.h and
--     src/InetAddress.cc: addresses and their texts, in the 64 bytes of a buffer.
--   Logger, src/Logger.h and src/Logger.cc, with Timestamp, src/Timestamp.h and src/Timestamp.cc: the lines
--     of the log, from one thread (Logger/Lines) and from several that share the logger (Logger/Threads).
--   TcpConnection, src/TcpConnection.h and src/TcpConnection.cc: the states of a connection, sending
--     (TcpConnection/Send), and what its channel calls (TcpConnection/Handlers).
--   TcpServer, src/TcpServer.h and src/TcpServer.cc: the map of connections, and what is asked of the base
--     loop and of the loops of the threads; TcpServer/Protocol has these requests in flight, run in any order,
--     TcpServer/Lifetime a connection from its making to the closing of its descriptor, TcpServer/Silent
--     a disconnected one, and TcpServer/Named the name it has in the map.
--   Acceptor, src/Acceptor.h and src/Acceptor.cc: the listening socket.
--   EchoServer, example/test_server.cc: the user of the library, whose callbacks answer each message, and
--     `main` (EchoServer/Main), which makes the loop and the server.
--   Prelude holds what all share; Os the system calls; Examples a kernel and runs at concrete inputs.
--
-- How the code is represented. Functions keep their names in snake case. A method takes the state of its
-- object and of the objects that it changes, and returns them; a call that may not return gives an
-- `Outcome`: `ok`, `exits` for LOG_FATAL and abort, or `undefined`. The kernel is the parameter `Kernel`,
-- which answers each system call from the calls made before it; `EpollLaws`, `ReadvFits` and `WriteFits`
-- say what the manual pages promise, and Examples/Kernels has a kernel that keeps to them. The callbacks
-- of the user are the parameter `App`. A pointer to a channel or a loop is a number, a functor of a
-- connection is a value of `Task`, and a thread is its id. `while (!quit_)` runs over the list of what
-- `epoll_wait` returns: where the list ends the loop waits, so that no fuel is needed. Bounds: a vector
-- holds fewer than 2 ^ 63 bytes, as `std::vector<char>` does. The C library's functions on addresses and
-- times are parameters with named laws.
--
-- Not modelled: what the components log, but for the exit of LOG_FATAL (the logger itself is); detach,
-- gettid and to_string of Thread, which are declared and not defined; the null test of TcpConnection's
-- loop, which is given as a value; the lifetimes of objects, but for the tie of a channel to its owner, and
-- the server that is destroyed under its requests (TcpServer/Protocol/After).
pub mod Prelude
pub mod Os
pub mod Buffer
pub mod Channel
pub mod Poller
pub mod EventLoop
pub mod EventLoopThreadPool
pub mod EventLoopThread
pub mod CurrentThread
pub mod Thread
pub mod Timestamp
pub mod Logger
pub mod InetAddress
pub mod Socket
pub mod Acceptor
pub mod TcpConnection
pub mod TcpServer
pub mod EchoServer
pub mod Examples
