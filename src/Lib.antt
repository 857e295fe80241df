-- ===== src/Lib.antt =====
-- A TCP library in the reactor style: each thread runs an event loop, which waits in a poller for its
-- channels, runs their callbacks, and then runs the functors that others have queued for it. Timers
-- are one more channel, over a timerfd, and a connection is a channel with two buffers.
--
-- Files, each with the code that it models:
--   Buffer: buffer/Buffer.hpp and buffer/Buffer.cpp. A vector of bytes and two indices. Buffer.Inv has the
--     invariant and `content`, the readable bytes; Buffer.Refine, Buffer.Receive and Buffer.Run compare
--     the methods with those of a queue of bytes.
--   Time: time_utils/TimeDataStructure.hpp, time_utils/Timer.hpp, time_utils/Timer.cpp, and
--     `how_much_time_from_now` of time_utils/TimerQueue.cpp. Time.Text: how logger/logger.cpp and
--     time_utils/TimerQueue.cpp print a time.
--   Timers: time_utils/TimerQueue.cpp, time_utils/TimerQueue.hpp. The multimap is a list in its order.
--     Timers.Descriptor: what is logged of the timerfd. Timers.Clock: what does not depend on the clock.
--   Channel: event_loop/Channel.hpp, event_loop/Channel.cpp. Channel.Store has the channels that the
--     owners and the pollers share, by pointer, and the maps from descriptors to pointers.
--   Poller: poller/Poller.cpp. Epoller: poller/Epoller.cpp, with the calls of `epoll_ctl` in a list.
--   PollerInterface: poller/PollerInterface.hpp, as a record of operations with laws. Poller.Lawful and
--     Epoller.Lawful fill it, and PollerInterface.Clients uses it. PollerInterface.Default:
--     poller/DefaultPoller.hpp.
--   EventLoop: event_loop/EventLoop.hpp, event_loop/EventLoop.cpp. EventLoop.Thread:
--     event_loop/EventLoopThread.hpp and event_loop/EventLoopThread.cpp, the steps of two threads.
--     EventLoop.Scheduling: how timers are asked for, from event_loop/EventLoop.cpp and
--     time_utils/TimerQueue.cpp. EventLoop.Registry: the loop of each thread, and
--     EventLoop.Channels: the way from a channel to the poller, from event_loop/EventLoop.cpp.
--     EventLoop.Round: one round from the poll to the callbacks, for any poller that hands on what it
--     should; EventLoop.Round.Poll and EventLoop.Round.Epoll put the two pollers in. EventLoop.Loop: the
--     whole of `EventLoop::loop`, the functors included, for a list of times at which the poll returns.
--   ThreadPool: event_loop/EventLoopThreadPool.hpp, event_loop/EventLoopThreadPool.cpp.
--   Tcp.Connection: tcp/TcpConnection.hpp, tcp/TcpConnection.cpp. What a handler does outside of the
--     object is a list of effects. Tcp.Connection.Dispatch has the way from the events of a channel to
--     the handlers, Tcp.Connection.Answering a message callback that acts on its connection.
--   Tcp.Connector: tcp/Connector.hpp, tcp/Connector.cpp. Runs of its methods are a step relation.
--   Tcp.Acceptor: tcp/Acceptor.hpp, tcp/Acceptor.cpp, with `accept` of tcp/SocketsOps.cpp.
--   Tcp.Address: tcp/InetAddress.hpp, tcp/InetAddress.cpp, tcp/SocketsOps.hpp, tcp/SocketsOps.cpp. Decimal
--     has the numbers that they print. Tcp.Socket: tcp/Socket.hpp, tcp/Socket.cpp, and the rest of
--     tcp/SocketsOps.cpp.
--   Tcp.Server: tcp/TcpServer.hpp, tcp/TcpServer.cpp. Tcp.Client: tcp/TcpClient.hpp, tcp/TcpClient.cpp.
--     Both keep their connections in a store, and the functors that they leave in loops in lists.
--     Tcp.Server.Serving puts the server and the traffic of its connections together, and
--     Tcp.Server.Serving.Home is about servers that have only their base loop;
--     Tcp.Client.Destruction is the destructor of a client and what it leaves.
--   Logging: logger/logger.hpp, logger/logger.cpp.
--   Common: names of the libraries, operators, lists over the native numbers, results with faults.
-- The modules Tests have concrete states.
--
-- Conventions. A function keeps its name in the source. State is passed on explicitly, and a method
-- that may fail an assertion, leave an array or overflow an `int` returns an Outcome: `ok`, or a `fault`
-- that says which. Sizes are numbers below 2^64, and their sums wrap there. What a system call returns is an
-- argument, and so are clocks, closures and functors. The eventfd and the C library's functions on
-- addresses are records of operations with the laws that the theorems on them use. Runs of an object are
-- lists of events, or steps of an indexed data type; an event that the loop would not deliver in a state
-- leaves the state alone.
--
-- Fuel: `shutdown` loops on a compare-and-exchange; its model is on fuel, and two turns are enough, as the
-- first turn changes what is compared. The digits of a number n are printed on fuel n + 1, which is more
-- than there are digits. All other loops recurse on a list or on a number that the source counts down; the
-- loop over ::accept recurses on what ::accept returns.
--
-- Callbacks and functors are parameters: functions on the state that they may change, with what the theorem
-- needs of them as hypotheses. Callbacks of a round see the flag `event_handling` after it is reset; no
-- code but the destructor of a channel reads it.
--
-- Not modelled: ignoring SIGPIPE, `detail::remove_connector`, which has no body, and the destructors of the
-- pollers and of the queue of timers, which close a descriptor; the texts of log lines, of which only
-- the number or the level is kept; the programs main.cpp and test/test.cpp; and interleavings of two threads
-- inside one method, but for the start and the end of EventLoopThread.
pub mod Common
pub mod Buffer
pub mod Time
pub mod Timers
pub mod Channel
pub mod PollerInterface
pub mod Poller
pub mod Epoller
pub mod EventLoop
pub mod ThreadPool
pub mod Decimal
pub mod Logging
pub mod Tcp
