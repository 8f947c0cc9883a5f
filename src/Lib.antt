-- ===== src/Lib.antt =====
-- Yedis, a server that speaks the protocol of Redis over an in-memory key space: src/, base/, net/.
--
-- A request comes in as bytes. `YProtoParse` (src/YedisParser.cpp) reads an array of parameters from
-- it, the handler of the command (src/YString.cpp, src/YList.cpp, src/YHash.cpp, src/YSet.cpp,
-- src/YSortedSet.cpp) reads and changes objects (src/YedisCommon.cpp) in the selected key space
-- (src/YedisStore.cpp), and writes its reply by the formatters (src/YedisFormate.cpp). The loops
-- put requests into a queue (src/YedisSession.cpp, src/TaskManager.cpp), and one thread takes them
-- out and finds their handlers in the table of the commands (src/YedisCommand.cpp,
-- src/YedisRegisterCmd.cpp).
--
-- Parser: `parse_request` and what it calls, function by function. A `Cursor` is `ptr`: the bytes
--   that are left, and how far it stands behind the end. An `int` wraps at 32 bits. `Parser.RoundTrip`
--   is the round trip, `Parser.Fuel` the end of the loop, `Parser.Defects` what goes wrong.
-- Format: the formatters, and the bytes that the protocol prescribes.
-- Object, Store: `YObject` and `YStore`. An object in the store is named by its key, and a change
--   through a pointer to it is `update_object`. `Store.Laws` gives the effect of each operation on
--   `view`, the objects of the selected key space, where that key space is there (`IsReady`).
-- Exec: a handler takes its parameters to a computation over the store and the reply, whose outcome
--   may be a fault: a failed assertion, a null pointer, or an access out of range.
-- Typed: that the type tag of an object agrees with its value, and the rules by which handlers keep it;
--   a child Typed of each command module applies them.
-- Strings, Lists, Hashes, Sets, SortedSets: the handlers; `setCmd` is `set_cmd`, and so on. Their
--   Laws, Push, Pop, Reply, Index and Random are about what a client sees.
-- Commands: `YCommand`, and what `YedisRegisterCmd` registers. Tasks: `TaskManager` and `onRead`; `Steps`
--   is any order of the turns of producers and the consumer, each of which holds the lock, and
--   Tasks.Signals has the threads that sleep in the condition variables. Commands.Served says which
--   handler is meant for which name, beside the table.
-- Buffer: the input buffer of a connection (base/Buffer.h, base/Buffer.cpp), whose integers are in
--   Integers (net/Endian.h). ReplyBuffer: the buffer of base/ReplyBuffer.cpp, where `held` is the bytes
--   that the formatters' `Reply` stands for. A pointer into a buffer is an index.
-- Net.Channel, Net.EpollPoller: `Channel` and `EPollPoller` of net/, with `updateChannel` and
--   `removeChannel` of `EventLoop`. Channels are in memory, at addresses that the poller's map holds.
-- Net.SelectPoller: net/SelectPoller.cpp, its registration and, in Poll, its `poll`. Net.EventLoop: the
--   functors that loops are given; `Steps` is any order of the turns of a loop and of other threads, where `queueInLoop` in
--   another thread is two turns: with the lock, and the wake-up behind it.
-- Net.Connection: `TcpConnection`; its callbacks are a list of calls. Net.Pool, Net.Server: the pool of
--   the loops and the table of the connections (net/EventLoopThreadPool.cpp, net/Server.cpp).
-- Net.SocketAddr, Net.Sockets: net/SocketAddr.h and the wrappers of net/Sockets.cpp. Net.AcceptNew: the
--   socket that listens (net/AcceptNew.cpp), and the connections that it gives to the server.
--   Net.Startup: the start of the server (net/Server.cpp, src/YedisServer.cpp).
-- Log: base/AsyncLog.cpp. Log has the state and the lines, Log.Dump the dump of bytes in a block of
--   characters (`formLog`), Log.File the files and `output`, and Log.Writer the thread that writes;
--   `Steps` is any order of its turns and of the calls of other threads. Log.Journal is what files, hand
--   and queue hold together.
-- Session: `YedisSession`, and `onConnection` of src/YedisServer.cpp, over Buffer, Net.Connection and Tasks.
-- Decimal, Strtol: the conversions of the C library that the code calls, in the C locale and with a
--   `long` of 64 bits.
-- Samples: objects and stores for the tests.
--
-- Fuel: the loop of `parseStrlist` runs on one unit more than there are bytes left, since every round
-- that goes on takes a byte; `emit` has one unit for each digit that a number can have. `random()` is a
-- list of its results: `out_of_fuel` there means that they do not suffice. The loop of `assureSpace` runs
-- on one unit more than there are bytes to be put in, since every round makes the vector longer. The
-- loops of `outputBinary` and of `writeToFile` run on one unit more than there are bytes, since every
-- round that goes on takes one.
--
-- Parameters: the order and the buckets of a `std::unordered_set` (`HashTable`), `atof` and the order of
-- doubles (`Doubles`), `epoll_ctl` and what `epoll_wait` gives, `select`, what `readv` gives (`Read`),
-- the loops that threads start, the message callback of a connection, the calls of the kernel on sockets
-- (`Kernel`), the functions of the C library on addresses (`Inet`), `fopen` and `fwrite`, the time and
-- the text of a log message.
--
-- Not modelled: the start of threads (net/EventLoopThread.cpp) and `main`, which are the order in which
-- the parts are called; `read`, `write` and `readv` of net/Sockets.cpp, which hand their arguments to the
-- system; the casts and type names of net/Sockets.cpp, base/Callbacks.h and base/Ycast.h; and the set-up
-- of sockets on Windows (base/Platform.cpp). Memory is not exhausted.
pub mod Prelude
pub mod Decimal
pub mod Strtol
pub mod Format
pub mod Outcome
pub mod Parser
pub mod Object
pub mod Store
pub mod Exec
pub mod Typed
pub mod Samples
pub mod Strings
pub mod Lists
pub mod Hashes
pub mod Log
pub mod Sets
pub mod SortedSets
pub mod Commands
pub mod Tasks
pub mod Buffer
pub mod ReplyBuffer
pub mod Net
pub mod Session
