-- ===== src/Lib.antt =====
-- adlServer: a multi-threaded HTTP server over non-blocking sockets and edge-triggered epoll, with an
-- asynchronous logger. This library models its core in a cubical type theory and proves what makes
-- it correct.
--
-- The program. A `tcpServer` (src/net/tcpServer.cpp) accepts connections and gives each one to an
-- event loop of a pool; a loop (src/net/EventLoop.cpp) waits in epoll (src/net/Epoller.cpp) and calls
-- the handlers of a channel (src/net/Channel.cpp). A connection (src/net/tcpConnection.cpp) reads
-- its descriptor into an input buffer (src/net/netBuffer.h, netBuffer.cpp) and writes from an output
-- buffer. The HTTP server (src/httpServer.cpp) runs the parser (src/http/httpParser.cpp) on the
-- readable bytes of the input buffer, and on success retrieves `parseSize_` bytes of it.
--
-- The files:
-- - Base: shared notation. Tests (Boolean tests on native numbers), Lists (lists over native
--   lengths), Block (memory as a function from offsets to bytes), Outcome (results and faults), Int.
-- - NetBuffer: src/net/netBuffer.h, class `netBuffer`; its int indices are numbers with an overflow
--   fault. NetBuffer/Invariant holds the well-formedness `r_ <= w_ <= alloc_`, NetBuffer/Contents the
--   operations on valid buffers, NetBuffer/Refinement the byte queue that a buffer implements.
-- - NetBuffer/ReadFd: `netBuffer::readFd` of src/net/netBuffer.cpp, with the outcomes of the system
--   calls as an argument and the calls made as a result.
-- - Http/Request: the data of src/http/httpParser.h and `starts_with` of src/tool/util.cpp.
-- - Http/Parser: src/http/httpParser.cpp, one function per method, on the memory behind the pointer
--   and its length. `std::stoi` is an argument. Http/Parser/Grammar is the printer of well-formed
--   messages that the parser is compared with; the other children hold the proofs.
-- - Channel: src/net/Channel.h and Channel.cpp, a descriptor with its event mask and its handlers.
-- - Epoller: src/net/Epoller.h and Epoller.cpp, with the calls of epoll_ctl as a log of requests;
--   Epoller/Watched has the documented rules of epoll_ctl, Epoller/Poll is about epoll_wait.
-- - TcpConnection: src/net/tcpConnection.cpp on the thread of its loop; a functor that it queues or a
--   callback that it runs is an entry of `notices`. TcpConnection/Order is the sending side,
--   TcpConnection/Reading the reading side with the handlers of the channel, TcpConnection/File
--   `sendFile`.
-- - EventLoop: src/net/EventLoop.cpp, the queued functors, the wakeup and the end of a loop, as a step
--   relation over the loop's thread and all others.
-- - Http/Server: src/httpServer.cpp, the message callback, with the files under ./source, and what
--   can be saved there, as an argument; Http/Server/Posted follows a request from the wire to the file.
-- - Http/Respond: src/http/httpRespond.h, the response and how it is sent; `std::to_string` is an
--   argument.
-- - Log/FixedBuffer: src/log/adlBuffer.h, with the guarded appends of src/log/logStream.cpp.
-- - Log/AsyncLogging: src/log/asyncLogging.cpp, the front end and the rounds of the writer's thread;
--   what runs under the lock is one step, and what the writer does without it is another.
-- - BlockingQueue: src/base/BlockingQueue.h and BoundedBlockingQueue.h, one step for each operation.
-- - Log/Stream and Log/Line: src/log/logStream.cpp and logStream.h, src/log/Logging.cpp and Logging.h.
-- - Log/FileApp, Log/LogFile and Log/Retry: the files of the log, src/log/fileUtil.cpp and logFile.h.
-- - TcpServer: src/net/Acceptor.cpp, EventLoopThreadPool.cpp and tcpServer.cpp, with the parts of
--   EventLoop.cpp and tcpConnection.cpp that they call (TcpServer/SubLoop); TcpServer/Start is the way
--   from the constructor of the server to its connections.
-- - ThreadPool: src/base/threadPool.h, the positions of its threads and all their interleavings.
-- - Log/Backend: src/log/asyncLogging.cpp with src/log/logFile.h, the logger, its thread and its files
--   together, with the lines of the LOG statements, which go to the same files; Log/Backend/Pieces
--   tells the two apart. The end of the program by a FATAL statement is not a step.
-- - EventLoopThread: src/net/EventLoopThread.cpp, a thread with a loop and its owner, step by step.
-- - Singleton: src/base/Singleton.hpp, the double-checked locking of `getInstance`.
-- - Coro: src/net/coro, the coroutine experiment: epoll_wrap.hpp (Coro/Control), co_epoll.cpp
--   (Coro/Rounds) and the echo service (Coro/Echo).
-- - MappedFile: src/file_options/mmap_wrap.hpp, what is released and when.
-- - InetAddress: src/net/InetAddress.cpp and the conversions of src/net/Socket.cpp.
--
-- Numbers. An int is a natural number below 2^31 wherever the source keeps it from being negative;
-- the places where it could overflow are faults (`overflow`), and so are a failing `assert` (the
-- build does not define NDEBUG), an access out of bounds and an uncaught exception.
--
-- Fuel. `expansion` doubles an int, so 32 rounds reach either enough room or an overflow. The loops
-- of the parser run on fuel: `parse` needs four rounds and the header loop one for each byte, apart
-- from inputs on which the source does not end at all. `fileApp::append` needs one round for each
-- byte and one more, `handleRead` of the acceptor one for each event before the queue is empty and one
-- more, the dispatch of writable events one for each pending byte and one more, and `ctl` of the
-- coroutines two.
--
-- Not modelled: the logging statements of the other parts, debug printers, failing allocations;
-- the options of sockets and the wrappers of one system call, the wrappers of pthreads,
-- WeakCallback.h, the clock and the calendar, the suspension of coroutines, the command-line programs
-- and the tests, which are calls of the system or not part of the server.
pub mod Base
pub mod BlockingQueue
pub mod Channel
pub mod Coro
pub mod Epoller
pub mod EventLoop
pub mod EventLoopThread
pub mod Http
pub mod InetAddress
pub mod Log
pub mod MappedFile
pub mod NetBuffer
pub mod Singleton
pub mod TcpConnection
pub mod TcpServer
pub mod ThreadPool
