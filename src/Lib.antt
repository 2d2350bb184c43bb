-- ===== src/Lib.antt =====
-- reactor-chat-server: a chat server on a reactor network library. The files model, from the source:
--
-- Buffer (src/base/Buffer.h, src/base/Buffer.cc): the byte queue of a connection, one array with
--   two cursors. `Buffer.antt` has every operation, by the name of the member function; positions
--   and sizes wrap at 2^64 as `size_t` does. `readv` is not modelled: `read_fd` is given its
--   answer. Buffer.Contents sees a buffer as the list of its readable bytes.
-- Codec (src/chat/Codec.cc): `take_lines`, `format_broadcast`. The loop of `takeLines` runs on fuel,
--   one round more than there are readable bytes, and each round takes at least a byte off. The
--   specification is `Codec.Split.split`, the lines of a list of bytes.
-- Channel (src/net/Channel.h, src/net/Channel.cc, src/net/EPollPoller.cc): the events that a
--   descriptor waits for, the dispatch of ready events, the poller's table and its `epoll_ctl`
--   calls, which the state records oldest first. Channel.Kernel says what `epoll_ctl` documents.
-- Connection (src/net/TcpConnection.h, src/net/TcpConnection.cc): the life cycle, sending through
--   the output buffer, receiving, the half-close. The socket and the callbacks are a parameter,
--   `World`: what `write` and `readv` answer at each call, and what each callback asks for. The
--   loop of `handleWrite` runs on fuel, one round more than bytes wait, and that of `handleRead` on
--   fuel for as many rounds as the socket may have data. Connection.Invariant has the invariant `IsSound`,
--   Connection.Reach the steps that can happen in any order, Connection.Remote the calls from other
--   threads, which post tasks to the owner's loop. A `shutdown` of another thread is two steps, a test and
--   a store of `state_`; in Connection.Reach the store comes before the close, and Connection.Remote.Race
--   has it behind the close.
-- Rooms (src/chat/RoomManager.h, src/chat/RoomManager.cc): the rooms and the sessions. The mutex makes
--   each operation atomic; a connection is known by its address.
-- Chat (src/chat/ChatServer.cc): the handlers of the server and of the idle timer, which answer with
--   the calls that they make on connections and on the loop. Time is a number of clock ticks.
-- Loop (src/net/EventLoop.h, src/net/EventLoop.cc): the queue of tasks, the eventfd's counter, and the
--   turns of the loop. Loop.Turns has the actions of the loop's thread and of others, in any order;
--   a wake-up that another thread still owes for what it has pushed is counted. The loop's own thread
--   queues tasks only while it handles events or calls tasks, not before `loop`.
-- Timers (src/net/TimerQueue.h, src/net/TimerQueue.cc): the heap, as a list with the earliest timer in
--   front, and the setting of the timerfd. Of timers with the same time the older comes first, where
--   the source leaves the order open. The timers that a callback adds are a parameter.
-- Pool (src/net/EventLoopThreadPool.cc): the loops that connections are given in turn.
-- Server (src/net/TcpServer.h, src/net/TcpServer.cc): the connection table, the names of connections,
--   and the tasks that the server hands to the loops; `runInLoop` runs what is for the base loop at once.
--   `nextConnId_` stays within an `int`. Server.Life has the steps of all loops, in any
--   order, and the stages of each connection.
-- Logger (src/base/AsyncLogger.h, src/base/AsyncLogger.cc): the buffers of the log. Logger.Run has the
--   actions of the threads, in any order; the condition variable only says when the writing thread
--   may act, so it may always. A file that cannot be opened is left out.
-- Acceptor (src/net/Acceptor.h, src/net/Acceptor.cc): the listening socket and the loop of
--   `handleRead`, which runs on fuel, one round more than `accept` brings descriptors. What the calls of
--   `accept` bring is a parameter. Server.Burst puts the server's `newConnection` behind it.
-- InetAddress (src/base/InetAddress.h, src/base/InetAddress.cc): an address and its text, given `inet_pton`.
-- LoopThread (src/net/EventLoopThread.h, src/net/EventLoopThread.cc): the steps of the thread that owns the
--   object and of the loop's thread, in any order. The mutex and the condition make the publishing of
--   `loop_`, and the reading of it, one step each. LoopThread.Join follows the destructor, with the
--   turns of the loop from Loop.Turns.
-- Delivery: the chat's handlers on its connections. Chat answers with calls; `carry_out` makes
--   them, in order, by `Connection.send` and `Connection.shutdown`, for connections on one loop.
-- System (src/chat/ChatServer.cc on src/net/TcpConnection.cc): a chat server with no IO threads, all its
--   connections and its house. Each event is a handler of a connection with the chat's callback behind it,
--   whose calls Delivery carries out. System.Reach has the events in any order, System.Healthy what holds
--   between them.
-- Apps (examples/echo_server.cc, examples/http_server.cc): the servers built on the library. `Apps.antt`
--   is the interface, an `Application`: a message callback and what it does on the list of unread bytes.
--   Apps.Serve is about a round of reading under any application; Apps.Echo and Apps.Http fill the interface.
-- Bench (bench/bench_client.cc): the client's socket functions, and a worker behind its connecting. Its loops
--   run on fuel: above the bytes to send, the calls of `recv` that may bring bytes, and the readings of the
--   clock before the end.
-- Common: helpers on numbers, lists and bytes.
--
-- A connection's message callback in the chat is `Chat.on_message`, which takes the lines off the
-- input buffer by `Codec.take_lines` and sends through `Rooms.broadcast`; its sends end in
-- `Connection.send`, or in a posted task if another thread makes them.
--
-- Rooms.View is the abstract view of a house, who is in which room and with which session, and
-- Rooms.Sight the quotient of the houses by it. Connection.Dispatch sets a connection's handlers behind
-- `Channel::handleEvent`.
--
-- Not modelled: the system calls of src/base/Socket.cc, whose answers are parameters; the logging
-- macros (src/base/Logging.h); the `main` functions; the connecting and the summary of the benchmark
-- client; and the tests.
pub mod Acceptor
pub mod Apps
pub mod Bench
pub mod Buffer
pub mod Channel
pub mod Chat
pub mod Codec
pub mod Common
pub mod Connection
pub mod Delivery
pub mod InetAddress
pub mod Logger
pub mod Loop
pub mod LoopThread
pub mod Pool
pub mod Rooms
pub mod Server
pub mod System
pub mod Timers
