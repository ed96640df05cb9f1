-- ===== src/Lib.antt =====
-- firey, a TCP network library in C++ (one event loop per thread), and its HTTP server.
--
-- Parts and files.
-- * Buffer.antt and its children model net/Bufferff.h and net/Bufferff.cpp. The record `Buffer` is
--   the class, each method is a function of the same name in snake case, and a `const char*` into the
--   buffer is an index of the vector. Buffer/Ints has the integer methods, one function for the four
--   widths, and Buffer/ReadFd the read from a socket, with `readv` as a parameter. Buffer/Contents,
--   Room, Append, Retrieve, Fresh and Search prove what each method does to the readable bytes;
--   Buffer/Fifo and Codec state what a client sees.
-- * Http/Request and Http/Context model http/HttpRequestff.h, http/HttpContextff.h and
--   http/HttpContextff.cpp. The parser works on a `Buffer`; Http/Lines is an independent description
--   of it over byte sequences, and Http/Refine relates the two. The loop runs on fuel, one more than
--   the readable bytes: each round but the last takes at least the two bytes of a line end.
-- * Http/Response models http/HttpResponseff.h and http/HttpResponseff.cpp; the digits that `snprintf`
--   prints are a parameter, and its buffer of 32 bytes takes 31 of them.
-- * Http/Server models http/HttpServerff.h and http/HttpServerff.cpp over these and `Buffer`: what it calls
--   on the connection is a list, and the user's callback is a parameter, a function from the request and
--   the response it is given to the response it leaves. Http/Server/Answer is about a whole request, Close about
--   whether the connection is to be closed after it.
-- * Channel.antt and Channel/Poller model net/Channelff.h, net/Channelff.cpp, net/Pollerff.h and
--   net/Pollerff.cpp. epoll is the record `Epoll`: a state of the kernel, the answers of `epoll_ctl`
--   and `epoll_wait`, and the descriptors that are watched; `Documented` is what epoll_ctl(2) promises while
--   the kernel has memory and watches left.
--   An error of EPOLL_CTL_ADD or EPOLL_CTL_MOD stops the program, as LOG_SYSFATAL does.
--   Channel/Coherent and Moves treat one call, Channel/Life and Runs the calls of a whole program,
--   where a channel is named by its address; Channel/Poll is about `poll`, and Channel/Events about the
--   callbacks that an event calls.
-- * Connection.antt and its children model net/TcpConnectionff.h and net/TcpConnectionff.cpp in the
--   thread of the loop. Channel/Watch is the interface between a channel's owner and the loop, filled
--   by the poller; the answers of `write` and `readv` are parameters. A method returns what it has
--   done as a list of effects, the calls of callbacks among them: what these call on the connection
--   comes as further calls. Connection/Keeps and its children are the lemmas of Connection/Trace,
--   which is about the life of a connection; Queued, Sent, Stuck and Drain are about the bytes.
-- * Logger/Stream models base/logger/LogStreamff.h and base/logger/LogStreamff.cpp, over the output of
--   digits in Logger/Digits; the integers of the source, at most 64 bits wide, are unbounded here, and a
--   loop over the digits of a number runs on fuel, one more than its size, and each round divides it.
--   Logger/Printed and Logger/Bounds are about it.
-- * Logger/Async models base/logger/AsyncLoggingff.h and base/logger/AsyncLoggingff.cpp between start
--   and stop: `append` and the rounds of `threadFunc` are steps that interleave in any order. Its
--   Invariant, Order and Safety are about them.
-- * Logger/AppendFile models `AppendFileff` of base/logger/FileUtilff.h and base/logger/FileUtilff.cpp:
--   the stream and `fwrite_unlocked` are parameters. The loop runs on fuel, one more than the length of
--   the line: each round but the last takes at least one byte. Logger/LogFile models the rolling of
--   base/logger/LogFileff.h and base/logger/LogFileff.cpp; the file that is opened at a time is a parameter.
-- * Timers.antt and its children model net/Timerff.h, net/Timerff.cpp, net/TimerIdff.h, net/TimerQueueff.h and
--   net/TimerQueueff.cpp in the thread of the loop. The heap is part of the state, so that the use of a
--   deleted timer fails; a callback may call `addTimer` and `cancel`. What the clock reads and whether
--   timerfd_settime takes a delay are the parameters in `Kernel`. Timers/PairSet is `std::set`;
--   Links, Pending and Steps are the lemmas of Fires, which is about `handleTimerfdRead`, and After and
--   Alarm those about the timer descriptor; Runs is about any use of a queue, Cancelled about `cancel`,
--   and Delay about the delay that the descriptor is given.
-- * Loop.antt models the functors, the wakeup descriptor and `quit` of net/EventLoopff.h and
--   net/EventLoopff.cpp, and Loop/System the interleavings of its thread with others; a functor is a name,
--   and what it queues comes as a further step; its thread may also queue while `loop` does not run.
--   Loop/System/Awake is about wakeups, Order about the order.
-- * Server.antt models net/TcpServerff.h and net/TcpServerff.cpp in the thread of the server's loop, over
--   Server/LoopPool, which models net/EventLoopThreadPoolff.h and net/EventLoopThreadPoolff.cpp. Names says
--   that the names of connections differ, Table and Runs are about the map of connections; LoopPool/Rounds and
--   Ready are about `getNextLoop`. The loop that a thread starts and what `%d` prints are parameters.
--   Acceptor models net/Acceptorff.h and net/Acceptorff.cpp over the interface of Channel/Watch.
-- * Threads/Condition models `waitForSeconds` of base/thread/Conditionff.h, and Threads/Pool models
--   base/thread/ThreadPoolff.h and base/thread/ThreadPoolff.cpp: each critical section is a function, and
--   Threads/Pool/System the interleavings of the threads that enter them. Sections says what a critical
--   section has seen when it answers, Safety what always holds. Threads/Latch models in the same way
--   base/thread/CountDownLatchff.h and base/thread/CountDownLatchff.cpp.
--
-- Not modelled: calls of a connection's `send` and of the timers from another thread and the threads
-- of the loops (net), the names of the log files, the reading of small files, the front end of
-- the log with its time stamps, and the wrappers of pthread calls (base), and the demonstration programs.
-- The system calls themselves are parameters; eventToString and operationToString only print for the log.
--
-- Conventions. Bytes are numbers below 256. A `size_t` is a number, and its sums and differences
-- wrap (`add_size`, `sub_size`). The default build is a debug build, so a failed `assert` stops the
-- program: such a call returns `none`, as does one that throws or leaves an array. Logging calls
-- have no effect on the modelled state and are left out.
pub mod Prelude
pub mod Buffer
pub mod Http
pub mod Channel
pub mod Connection
pub mod Logger
pub mod Timers
pub mod Loop
pub mod Server
pub mod Threads
