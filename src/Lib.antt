-- ===== src/Lib.antt =====
-- The CXK server framework (cxk/): a C++17 library of a byte buffer, caches, timers, encodings,
-- stream helpers, load balancing, a servlet dispatcher and WebSocket frames under a coroutine
-- scheduler. The modules below model parts of it that decide something by themselves; each file
-- names the source that it models. Bytes are numbers below 256, strings are lists of bytes, machine
-- integers are numbers with their wrap-around written out, and size_t quantities are plain numbers
-- where the code only adds to them or where the invariant shows that its differences are exact.
--
-- - Prelude: the shared names, Boolean tests, lists over the native numbers, and laws of the bit
--   operations.
-- - ByteArray: cxk/bytearray.cpp, cxk/bytearray.h, cxk/endian.h. The list of nodes from m_root is
--   before ++ after, and m_cur is the head of after; an outcome is a return, std::out_of_range or
--   an access through the null pointer. Fixed, Varint, Text and Buffers hold the methods for
--   integers, strings and scatter lists; Invariant says what a valid buffer is; WriteLoop and
--   ReadLoop hold the lemmas on the loops over the nodes, against one flat list of bytes; Grow,
--   Write, Read and Seek lift that to the methods; RoundTrip, FixedTrip, VarintTrip, IntTrip and
--   Zigzag are about reading what was written. The encoding loop of writeUint32 has fuel for the 5
--   bytes of tmp, that of writeUint64 for 10. The byte order of the host is a parameter. The bytes
--   of a new node are indeterminate in C++ and 0 in the model; no theorem but those about the whole
--   memory depends on them.
-- - Encoding: the text codecs of cxk/util/hash_util.cpp. Hex has hexstring_from_data and
--   data_from_hexstring with std::invalid_argument as a value; Base64 has base64encode and
--   base64decode, where the empty text that the decoder returns for bad input is a failure inside
--   the loops. Base64Trip is about its round trip.
-- - Encoding, Split: both split functions; the loop has fuel above the length of the text, and each
--   round takes a character.
-- - Timer: cxk/timer.cpp and cxk/timer.h. The set m_timers is a sorted list of addresses, and the
--   objects stand in a heap by address, since callers share them; a callback is a number, and an
--   address without a timer has none. Time is an argument of the operations. The lock is released
--   once inside listExpiredCb: what other threads do there is an argument. Order has the set
--   operations on sorted lists, Invariant the invariant and its change by one timer, Change the
--   operations on one timer, Due the search for the expired timers, Fire the loop over them, Expire
--   the whole, Wait getNextTimer.
-- - LruCache: cxk/ds/lru_cache.h and cxk/ds/cache_status.h. A node of the list m_keys has an
--   identity, which is what the iterators in m_cache hold; none is a step through an iterator
--   without a node. The loop of prune takes an element each round, so that fuel of the size of the
--   cache is enough. Keys has the list and its iterators, Invariant what map and list promise each
--   other, Prune the loop, Refine the operations against a list of pairs in the order of use, Laws
--   what follows, Hashed the cache of several buckets.
-- - IoManager: cxk/iomanager.cpp and cxk/iomanager.h. The table m_fdContexts is a list, and the
--   contexts that contextResize drops stand beside it; an event set is two Booleans; schedule is
--   recorded with its scheduler and task, and so is what the last epoll_ctl that succeeded asked
--   for at each descriptor. epoll_ctl is a parameter that returns a number. The manager that other
--   threads leave between the two locks of addEvent is an argument. Loop has what is triggered and
--   the loop of idel, Counts the number of events that wait, Context one context, Invariant the
--   table, Steps delEvent and cancelEvent, Fires cancelAll and the body of the loop, Rounds the
--   loop, Adds addEvent alone, Race what it does where another thread has grown the table
--   meanwhile, Reach the managers that the operations reach.
-- - Stream: cxk/stream.cpp and cxk/stream.h. The virtual read and write are functions of a state;
--   an int is a pattern of 32 bits and a size_t one of 64. Each round of a loop moves a byte or
--   ends it, so that fuel of the length is enough where nothing fails. Pipe has the interface of a
--   stream that moves bytes, and the loops over it; OneByte a stream of this kind, Refused what
--   writeFixSize does where write fails.
-- - WebSocket: cxk/http/ws_session.cpp and cxk/http/ws_session.h, over the streams of Stream. A
--   header is a record, laid out in two bytes from the lowest bit on. The fuel of the receiver
--   bounds the number of frames. Frame has the header, the length and the mask, Trip whole
--   messages.
-- - Servlet: cxk/http/servlet.cpp and cxk/http/servlet.h. fnmatch is a parameter. Globs has the
--   list of globs, History the dispatcher against the calls that were made.
-- - LoadBalance: cxk/stream/load_balance.cpp and cxk/stream/load_balance.h. What rand() returns is
--   an argument. Each loop has as many rounds as there are items or slots; std::upper_bound is its
--   binary search, on patterns of 32 bits with their sign, with one round for each element at most.
--   Search has the choice by turn, Weights the choice by weight, Stats the slots of the statistics.
-- - Scheduler: cxk/scheduler.cpp and cxk/scheduler.h, with the states of cxk/fiber.h. Pick has the
--   loop over the queue, Moves what each operation does to the queue and the counter of tasks,
--   Reach these under any steps, Stops what stopping says after a run, Turns the rounds of one
--   thread. The end of a run and what is done with its fiber afterwards are two steps, since no
--   lock is held between them.
-- - Hash: the hash functions of cxk/util/hash_util.cpp. Mixing has its steps, Seeds the murmur3
--   hashes of the same memory, Quick the quick hash of memory.
-- - Paths: Dirname, Basename and Mkdir of cxk/util.cpp. lstat, access and mkdir are parameters over
--   a state of the file system. Names has the two parts of a path, Makes what Mkdir leaves.
-- Not modelled: the parsers of HTTP and URI are generated by Ragel. Sockets, fibers, locks,
-- logging, configuration, the databases, digests and start-up are calls of the operating system or
-- of other libraries.
pub mod Prelude
pub mod ByteArray
pub mod Encoding
pub mod Timer
pub mod LruCache
pub mod IoManager
pub mod Stream
pub mod WebSocket
pub mod Servlet
pub mod LoadBalance
pub mod Scheduler
pub mod Hash
pub mod Paths
