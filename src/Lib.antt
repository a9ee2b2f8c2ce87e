-- ===== src/Lib.antt =====
-- A verification library of yeyjTcpServer, a TCP server with worker threads.
--
-- The parts of the program. An acceptor takes connections and hands each to a worker, which the
-- server picks by a load balancing rule. A worker waits for events on its connections, which it
-- keeps in a hash table by their number, and evicts inactive ones. A connection has a read buffer
-- and a write buffer, frames messages, and calls the functions that the user has set. Lines of the
-- log go to a thread of their own.
--
-- The files. Base holds what the others share: Boolean tests, lists, integers that may be negative,
-- and Run, the outcome of C++ code: a value or the fault that ends it (an assert that fails, an
-- overflow of int, an index out of range, a loop without end). Each file says which code it models.
--   Buffer (buffer.h): the ring of bytes; a method is the function of its name in snake_case. Its
--     children: Ring (the bytes held, and the invariant IsValid), Read, Write, Peek (numbers at the
--     front), Queue (the contract as a bounded queue), Making, Faults.
--   Text (utilities.cpp): trimming, splitting, and the format of framed messages. Its children:
--     Decimal (digits), Split, Trim.
--   Connection (tcpConnection.h, tcpConnection.cpp): the connection with its two buffers. Its
--     children: Frame (messages), Ready (the two socket events).
--   HashTable (hash.h): Chains (buckets, and the parameters of the template), Table (the two tables,
--     nextPower, expand), Rehash (incremental rehashing), Methods, Random. The children with proofs:
--     Valid (the invariant IsValid, and view, the dictionary as a map), Skipping, Filling, Moves,
--     Rounds and Steps (rehash), Lookup (exist), Unlinking and Removal (erase), Sizes (nextPower),
--     Expansion, Placing and Insertion (insert),
--     Assigning, Entering (insertRaw) and Subscript (operator[]), Drawing and Chances (getRandomEntry),
--     Replacing (replace), Milliseconds (rehashMilliseconds), Maps (the dictionary as a quotient).
--   Logging (asyncLogging.h, asyncLogging.cpp): the logger with its thread and files; Step is what one
--     of the threads may do next, Reach what may come about. Its children: Account and Conserved
--     (where the accepted lines are), Stopping, Late, Rolls (the files).
--   Server (tcpServer.h, tcpServer.cpp): Balance (the rules that pick a worker), Integers (numbers of
--     the configuration), Config and Load (its entries, and loadConfig); with the proofs in Units,
--     Keys, Reading and Entries. Serving (start, newConnection, checkMaxMemory, log), with the proofs in
--     Queueing, Accepting and Shares.
--   Acceptor (acceptor.cpp): the accept loop, over any connection callback.
--   Condition (condition.h): the time that waitForSeconds waits for.
--   Worker (worker.h, worker.cpp): a worker with its queue, its pool, and the objects and sockets that
--     it refers to by address and descriptor; work_round is a round of workFunction. Its children:
--     Pool (the pool as a map), Names, Visiting and Handling (events), Registering, Evicting. Service is
--     the interface to the callbacks of the user; over it stand Tending (events), Welcoming
--     (registering), Leaving and Culling (evictions), Tended (between two rounds) and Rounds.
--   Mutex (mutex.h): the lock and its guard, with the queue of a worker; Step is what a thread may do
--     next. Its children: Guarding (what the lock keeps true) and Turns.
--   Clock (utilities.cpp, tcpServer.cpp): the date and the time as text. Its children: Padding, Dates.
--   Address (inetSockAddr.h): the address of a peer.
--   Example (main.cpp): the server that sends back what it receives. Its children: Echoing (onMessage)
--     Serving (the callbacks fill Service, for the connections that the server makes), and Admitting
--     (newConnection with these).
--   Tests: runs, and the theorems at concrete inputs.
--
-- Choices. An int that the code keeps from falling below zero is a natural number; sums and products
-- that may leave the range of int go through checked operations, which fault. _end of a buffer is an
-- integer, since skipTail may make it negative. _growFactor is the function that gives the int stored
-- by newSize *= _growFactor; Grows is what the proofs ask of it, and three_halves is the default
-- factor where the product is exact in float. Theorems on writes take sizes up to 1 GiB, so that sums
-- of two positions stay in the range of int. A conversion of an unsigned value to int keeps its last
-- 32 bits (as_int): size() of the hash table is such a bit pattern, and insertRaw has the index of a
-- bucket in an int, so a dictionary is valid (IsValid) only with tables of at most 2^31 buckets;
-- theorems on inserting take up to 2^30 entries, for which it grows no further than that. Of the two
-- functions that flow off their end, getChar, whose value is used, faults; LogFile::operator=, whose
-- result no caller uses, is taken to do its work.
-- Rounds. The loop of grow gets capacity + 1 rounds, enough because the size grows in each; the loops
-- over read and write of a socket get one more than the bytes asked for, enough because each round
-- that goes on moves a byte; digits of n get n + 1 rounds; nextPower gets 62 doublings from 4; split
-- and loadConfig get one round more than the bytes of their text, enough because each round but the
-- last takes a delimiter.
-- Threads. The log is a step relation: a step of its thread is what no other thread can get into, so
-- the test of _running in append, which is made without the lock, and the pushing of the line are two
-- steps. Behind its loop the thread reads the buffer without the lock: a push of that time is a race
-- on a std::vector, and faults (push_step). The queue of a worker is read and written in two steps in Mutex, with a lock around them; in
-- Worker it is filled between two rounds.
-- Parameters. A socket, the callbacks, the clock, the date, the mutex of the system, epoll_wait,
-- accept, htons, htonl, inet_ntoa, std::hash and the
-- results of random() and rand() stand for code outside of the repository; the laws of a socket are
-- those of read and write of POSIX on positive results.
-- Random numbers. A run on a list of results of random() may use the list up, which Safe allows for;
-- get_random_entry-returns says that there is always a result that ends the drawing.
-- Not modelled: output to the terminal, the reader of /proc, the set-up of the listening socket, the
-- starting and joining of threads, and the calls of pthread behind Condition.
pub mod Base
pub mod Buffer
pub mod Text
pub mod Connection
pub mod Clock
pub mod Example
pub mod Mutex
pub mod HashTable
pub mod Server
pub mod Logging
pub mod Tests
pub mod Worker
pub mod Acceptor
pub mod Address
pub mod Condition
