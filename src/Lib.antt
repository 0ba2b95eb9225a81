-- ===== src/Lib.antt =====
-- Verification of cppfastdevelop: its queue in shared memory, its server, and what they stand on.
--
-- The program has two layers. `cppfoundation` wraps the system: locks, conditions, sockets, epoll,
-- shared memory and the other ways between processes, and threads, over a stub for each system call.
-- `cpplibrary` builds on it a queue of messages in shared memory (circularqueue), a TCP server
-- (netserver) and a log. The server's event loop waits in the demultiplexer (epoll) and calls an
-- event handler, which keeps for each connection the buffers to fill and to send. The queue is one
-- region of memory that several processes map: each call takes the region's lock, waits on its
-- condition, and then copies one element into or out of a ring of bytes.
--
-- The files, with the code that they model:
--   Prelude, Prelude/*       names that the others share: tests, lists, C integers, maps by descriptor
--   Memory, Memory/Ring      a region of bytes, and reads and writes round its end
--   CircularQueue/Def        cpplibrary/circularqueue/include/circularqueue/cl_queue_def.hpp
--   CircularQueue/Meta       class QMetaOp of cl_queue_operation.hpp and src/cl_queue_operation.cpp
--   CircularQueue/Element    class ElementOp of the same files: `write`, `read` and the cases of the ring;
--     Element/Invariant      the messages that a region represents
--     Element/Append, Write  `ElementOp::write` as one append round the ring
--     Element/Read           `ElementOp::read` as the removal of the oldest message
--   CircularQueue/Transfer   class CircularQueue of src/cl_circular_queue.cpp: TimedPut, TimedGet, their
--     Transfer/Spec, Refine  short forms and stops; the bounded FIFO and the refinement of it
--     Transfer/Waits, Stop   the calls that wait, and what the status does to them
--   CircularQueue/Create     the creation of a region
--   CircularQueue/PosixShm   cpplibrary/circularqueue/include/circularqueue/cl_posixshm_circular_queue.hpp;
--     Sharing, Opening, Refine  a creator and a client that open the queue by one name
--   BinarySearch, its parts  cppfoundation/include/cppfoundation/cf_binary_search.hpp
--   Network/Segment          SendSegmentAsync and RecvSegmentAsync of cppfoundation/src/class/cf_network.cpp;
--     Blocking and its parts SendSegmentSync and RecvSegmentSync of the same file
--     Accept, Accept/Laws    AcceptAsync
--     Setup and its parts    the making of sockets, and which descriptors stay open
--     Rights, Passing        SendFds and RecvFds
--   Epoll                    class Epoll of cppfoundation/src/class/cf_epoll.cpp;
--     Epoll/Mirror           its map against the interest list of the system
--   ConcurrencyQueue         class RawQueue of cppfoundation/include/cppfoundation/cf_concurrency_queue.hpp;
--     System, Sound          threads on one such queue;
--     FastFind and its parts class RawFastFindQueue of the same file
--   Containers/OrderedSet    `std::set`, as the containers use it, and its laws
--     Sets and its parts     RawSet and RawNotifySet of cf_concurrency_set.hpp beside it
--     Map, Map/Laws          RawMap of cf_concurrency_map.hpp
--   Locks                    cppfoundation/src/class/cf_lock.cpp and RWMutex of cf_lock.hpp;
--     Exclusion, File        guards of threads on a read-write lock, and locks on a file
--     Guard                  the guards of a block, of cf_lock_guard.hpp
--   Ipc, its parts           cppfoundation/src/class/cf_ipc.cpp and cf_ipc.hpp: PosixShM (SharedMemory),
--                            MemMappedFile (MemMapped), SysVShM (SysvMemory), SysVMsgQ (SysvQueue),
--                            PosixMsgQ (PosixQueue) and SocketpairPipe (Pipe)
--   Threads, Live, Pool      Thread and ThreadPool of cppfoundation/src/class/cf_thread.cpp
--   SystemStub               the pointers and results that cppfoundation/src/stub/cf_system_stub.c looks at;
--     Io, Ipc, Text, Process its guarded calls, by what they are for
--     Calling, Nulls         programs of such calls, and the null pointers that a system never sees
--   Utility/Text, Decode     the hexadecimal dumps of cf_utility_string.hpp
--     Program, Slash, Parts  the parts of a path, of cf_utility_program.hpp
--     Daemon                 SetProcessDaemon and IgnoreSignals, of cf_utility_program.cpp
--   LogCache, Message        cpplibrary/log/src/cl_log_cache.cpp
--   LogNonCache, Line        cpplibrary/log/include/log/cl_log.hpp
--   NetServer/Buffer         ReadBuffer, WriteBuffer and BufferPool of cpplibrary/netserver, cl_buffer.hpp
--                            and src/cl_buffer.cpp;
--   NetServer/EventHandler   class EventHandler of cpplibrary/netserver/src/cl_event_handler.cpp;
--     EventHandler/Chains    OnRead and OnWrite
--     EventHandler/Delivery  the bytes that OnRead moves
--     EventHandler/Sending   the bytes that OnWrite moves, with Buffer/Unsent
--     EventHandler/Closing   the end of a connection, and AddNewConn
--     Clients, Balance, Rules, Handlers  what each handler does to the counts of the listeners
--   NetServer/EventLoop      class EventLoop of cppfoundation/include/cppfoundation/cf_event_loop.hpp;
--     EventLoop/Balance      those counts through its rounds
--   NetServer/TcpServer      Server and TcpServer of cpplibrary/netserver/include/netserver/cl_server.hpp
-- Each has a module of tests, Tests, beside it or below it.
--
-- An object is a record, a method a function from it to it, and an exception a value: a result,
-- or an action that returns the object as the exception leaves it. `cf_uint64` and `cf_uint32`
-- sums wrap where they are written with add64 and add32. The waits of the queue take a list of
-- wake-ups, which say how each wait ends and what the region is when the lock is held again; a
-- call whose list is spent is waiting. The event loop takes a list of what its tests of the stop
-- flag read. The loops over a socket run on fuel, as much as there are bytes to move, and a round
-- that goes on moves at least one. AcceptAsync is given fuel, of which one round more than there
-- are connections is enough. The other loops recur on their lists.
--
-- What is not under the repository is a parameter: the compiler's layout of the two structures of
-- the queue (IsLayout), `send` and `recv` (IsSink, IsSource), `epoll_ctl` (IsEpollCtl), the
-- clock, and the functions that a server overrides. The laws are those of the C standard and of
-- the manual, as records with an instance in the tests; the other system calls are parameters of
-- the same kind. The event handler takes its demultiplexer and its sessions as interfaces; the
-- laws it asks of a session are IsStream and IsDrain. A write over the end of a buffer is an outcome of
-- its own, behind which nothing is said.
--
-- `shm_open` and `mmap`, the message queues, `shmat` and `shmdt`, pthreads, `close`, and the calls
-- behind a daemon are parameters too, with the laws of the manual (IsPosix, IsQueue, IsAttaching,
-- IsPthread, IsClose, IsProcess). An address of mapped memory is a number, at which a memory keeps
-- the region, so that two objects mapped to one name work on one region.
--
-- Not modelled: the recovery of a lock whose owner died, the creation and destruction of locks, the
-- sequence container, the functions of the stub that only pass their arguments on, applications and
-- the tasks that they run, the demultiplexers of other systems, compression and serialization, and
-- Redis; nor `TryGet` of RawQueue, which does not compile when it is used. The calls on a shared queue
-- come one after another, and none waits for another process. The stops of the sets and of
-- RawFastFindQueue, which take no lock, stand between the other calls; those of RawQueue are taken
-- statement by statement. A failure to allocate memory, messages of exceptions and printed lines are
-- left out of what is modelled.
pub mod LogCache
pub mod Locks
pub mod Containers
pub mod Utility
pub mod Prelude
pub mod Memory
pub mod CircularQueue
pub mod BinarySearch
pub mod Network
pub mod Epoll
pub mod ConcurrencyQueue
pub mod NetServer
pub mod Ipc
pub mod SystemStub
pub mod Threads
pub mod LogNonCache
