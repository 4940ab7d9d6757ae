-- ===== src/Lib.antt =====
-- A verification library of the IoT gateway: an embedded Linux program whose modules are linked into
-- the program `demo/demo.c`, and a web server.
--
-- * The log manager (demo/logMng/LogMng.c, h/logMng/LogMng.h). Any thread hands an entry to
--   `writeLogApi`, which puts it into a System V message queue; one consumer thread, `logMngTask`,
--   takes the entries and calls `writeLog`, which keeps them in files of ten entries, at most twenty
--   files, of which the oldest is dropped. `initLogMng` recovers the state from the directory.
--   LogMng.antt has the types and `writeLog`, cut at its early returns into `current_file`,
--   `new_file`, `rotate`, `drop_oldest`, `put_item` and `put_head`; LogMng/Name has the file names,
--   LogMng/Task the queue and the consumer's round, and LogMng/Init has `initLogMng` with its loops.
--   LogMng/Journal has the abstract view, a sequence of files of entries; LogMng/Entries reads it off
--   the files, and LogMng/Write, Consistent and Refine relate `writeLog` to it.
--   LogMng/Errors and FirstFile have the failing calls, LogMng/Task/Delivery the interleavings of
--   the producers and the consumer, and LogMng/Init/Parse, Names, Scan and Restart a new start.
-- * The ring buffer (frameWork/buffer/ring_buffer.c, frameWork/buffer/buffer.h), an array with a read
--   and a write position between sockets and their readers. RingBuffer.antt has its functions,
--   RingBuffer/Contents the invariant and the unread bytes, RingBuffer/Append and Io what the
--   operations do to them.
-- * The service tree (demo/node_tree/node_tree.c, h/node_tree/node_tree.h): tables of named services
--   and `getProcess`, which finds one by its path. NodeTree.antt has the tables and the functions,
--   NodeTree/Path the splitting of a path, NodeTree/Lookup and Service what is found.
-- * The hash table (frameWork/hash/hashTable.c, frameWork/hash/hash.h): HashTable.antt has its
--   functions, HashTable/Find the map that it stands for and the searches, HashTable/Insert and Clear
--   what the changes do to that map.
-- * The daemon (daemonTask/daemonTask.c), which starts the gateway again when it is gone:
--   Daemon.antt has a round of its loop, Daemon/Pauses how often it pauses.
-- * The shell server (shell/shellserver.c, shell/shellServer.h), which runs registered callbacks for
--   requests from a socket: Shell.antt has the registration and a client's turn, Shell/Match which
--   commands a name selects, Shell/Serve the answers to requests that select none.
-- * The doubly linked list (frameWork/list/list.c, frameWork/list/list.h): LinkedList.antt has its
--   functions over a heap of nodes, LinkedList/Nodes the reads and writes through pointers,
--   LinkedList/Seg the sequence that a list stands for, and LinkedList/Insert, Delete, Walk and Merge
--   what the functions do to it.
-- * The thread pool (frameWork/pthreadPool/pthread_pool.c, pthread_pool.h): ThreadPool.antt has the
--   workers and the threads that push tasks as steps of one state, in any order; ThreadPool/Queue has
--   the task queue in the memory. ThreadPool/Accounts follows the tasks, ThreadPool/Stuck and Start
--   are about workers that wait or leave.
-- * The heap timer (frameWork/timer/heapTimer.c, heapTimer.h): TimerHeap.antt has its functions,
--   TimerHeap/Order the heap order and the swap, TimerHeap/Up and Down the two sifts, and
--   TimerHeap/Insert, Delete and Tick the operations on them.
-- * The string search (frameWork/stringAlgorithm/string.c): Kmp.antt has the two loops of `kmp`,
--   Kmp/Borders what it is for strings to match, Kmp/Table the table, Kmp/Search the search and
--   Kmp/Overflow patterns that the table is too short for.
-- * The accounts of the web server (webServer/code/auth/userstore.cpp): UserStore.antt has the map in
--   the memory, UserStore/Words the reading of lines and words, UserStore/Database the build with
--   SQLite, which is an interface with its documented behaviour as laws; UserStore/Verify compares
--   the two.
-- * The requests of the web server (webServer/code/http/httprequest.cpp, httprequest.h):
--   HttpRequest.antt has the parser, from a buffer's bytes to the request, HttpRequest/Form the
--   decoding of a posted form, HttpRequest/Post the forms that reach the accounts,
--   HttpRequest/Turns the turns of the loop, HttpRequest/Print requests without a body as a client
--   prints them, HttpRequest/RequestLine and RoundTrip how they are read back.
-- * The answers of the web server (webServer/code/http/httpresponse.cpp): HttpResponse.antt makes the
--   head and finds the page, in a file system that is an argument, HttpResponse/Texts has the fixed
--   texts and HttpResponse/Serve which page goes with an answer.
-- * The connections of the web server (webServer/code/http/httpconn.cpp, httpconn.h): HttpConn.antt
--   reads, answers and writes, with a buffer as its readable bytes; HttpConn/Advance and Write are
--   about the loop of `write`, HttpConn/Answer and Serve join requests, answers and connections, and HttpConn/Open
--   is about what leaves a connection open.
-- * The buffer of a connection (webServer/code/buffer/buffer.cpp): Buffer.antt has the array with its
--   two positions; Buffer/Refine has what an append does to the unread bytes, and Buffer/Runs joins it
--   with the texts that HttpConn.antt takes for buffers.
-- * The handlers of the web server (webServer/code/server/webserver.cpp): WebServer.antt has the
--   handlers over the table of connections, WebServer/Parts cuts them where another thread can
--   come between, WebServer/Counts has the number of the open ones under each part, WebServer/Steps the
--   parts in any order, WebServer/Outcomes the end of a write.
-- * The queue of the web server's log (webServer/code/log/blockqueue.h): BlockDeque.antt has the
--   threads that put items in and take them out as steps of one state, BlockDeque/Order follows the
--   items, and BlockDeque/Shutdown the thread that empties the queue when it is closed.
-- * Prelude.antt shares names, lemmas on lists, and the memory calls of the C library over arrays as
--   lists, where an access outside of the array is `none`.
--
-- State is passed explicitly: a function of the source is a function from the state and the
-- arguments to the new state and the result. The answers of system calls and of `malloc` are
-- arguments (the records `Answers` and `InitAnswers` and the results of `readv` and `write`), so a
-- theorem holds for each way they can come out, or names those it needs.
--
-- Numbers: bytes, offsets and counters are natural numbers. An unsigned char counter and an unsigned
-- offset of a log file keep their wrap-around; `size_t` has 32 bits, as for the ARM target of
-- demo/toolchain.mk. File numbers are an `int`: the theorems on `writeLog` ask for a number below
-- 2 ^ 31, and `to_int` keeps a scanned number at the largest `int`, where `strtol` stops on the
-- target; a new start asks that the numbers in the directory leave room for another. The sizes of the two structures in a log file are a parameter, `Layout`, with the
-- hypothesis that ten entries and a header end below 2 ^ 32.
-- Fuel bounds the turns of a loop: in `digits`, where a number has fewer digits than its value plus
-- one; in the loops that free a list or a task queue, where the number of nodes is enough; in the
-- sifts of the timer heap, which pass the place plus one and the size plus one, and in `heap_tick`,
-- where the size is enough; in `kmp`, where each turn adds to twice the place less the matched
-- characters, so that twice the lengths is enough; in the loop of a request's `parse`, where the
-- number of bytes is enough; in the loop of a connection's `write`, where a turn more than there are
-- bytes left is enough; and in the loops of `lst_merge_n`, where it is the caller's. The word
-- size of the timer heap is an argument.
--
-- The disk of the log manager is a function from file names to what stands in each file: a header
-- at offset 0, and an entry at each offset where one starts. A write destroys what it overlaps. What
-- a failing write leaves is an answer. A reader takes as many entries as the header counts. `fsync`,
-- messages on the standard error and the mutex, which only one thread takes in these functions, are
-- left out. The thread's waiting for a message is a step that changes nothing.
--
-- A pointer into the tables of the service tree is a table's name, and reading behind a table's end
-- is `none`; so are a read through NULL, a write behind a block and an overflow of the hash in the
-- hash table, whose `hashFree` and `hashDisplay` are left out.
--
-- The nodes of a list and the tasks of a queue stand at addresses of a heap, which is a function; a
-- read through NULL or at an address without a node is `none`. The steps of the thread pool are those
-- of `thread_func` between two points at which another thread can interfere, those of the log's queue
-- what a thread does while it holds the mutex, and the notifications of `Close` behind it; a task is a
-- number, and a callback of a timer does not touch the heap. The steps of the web server's handlers are
-- their parts: `Close` is cut behind its test, but two threads in the buffers of one connection are
-- left out.
--
-- Not modelled: the joining of the threads and the release of the queue, with the tasks that are still
-- in it, at the end of `thread_pool_destroy`, the set-up of the
-- shell server's socket and thread; frameWork/tree, which is a copy of a library;
-- shell/shelltools.c, which only passes lines on; `demo/demo.c` and the tests, which only call the
-- modules; and the rest of the web server, C++ with its own build: its timer heap, thread
-- pool and log but for the log's queue, the wrapper of epoll and the loop that waits for events.
pub mod BlockDeque
pub mod Buffer
pub mod Daemon
pub mod HashTable
pub mod HttpConn
pub mod HttpRequest
pub mod HttpResponse
pub mod Kmp
pub mod LinkedList
pub mod LogMng
pub mod NodeTree
pub mod Prelude
pub mod RingBuffer
pub mod Shell
pub mod ThreadPool
pub mod TimerHeap
pub mod UserStore
pub mod WebServer
