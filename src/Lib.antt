-- ===== src/Lib.antt =====
-- K23 search: a library of containers and string distances, and an engine that matches documents
-- against keyword queries, exactly, by Hamming distance or by edit distance.
--
-- The engine (src/core.cpp) keeps the keywords of the active queries in BK-trees
-- (include/qs/bk_tree.hpp), one for edit distance and one for each word length for Hamming distance,
-- and the words of exact queries in a hash table (include/qs/hash_table.hpp). The distances are in
-- src/lib/distances.cpp. A BK-tree keeps the children of a node in a skip list, and scans with a
-- vector (include/qs/vector.hpp) as its stack. Queries and documents are cut into words by
-- `parse_string` (include/qs/parser.hpp), over `string_view::split`.
--
-- Files, each with child modules for its proofs and runs:
--   Prelude      shared names, Boolean tests, lists by native indices, a predicate on all items.
--   Distances    src/lib/distances.cpp: `hamming_distance` and `edit_distance`, with each loop a
--                function of the rounds left and each array access checked.
--   Vector       include/qs/vector.hpp: `maybe_resize`, `push`, `set` and `at`.
--   BkTree       include/qs/bk_tree.hpp: `insert`, the range constructor, `match` and `find`; the
--                skip list of children as the sequence it is iterated in.
--   StringView   include/qs/string_view.h and src/lib/string_view.cpp, a view as its list of bytes.
--   Parser       include/qs/parser.hpp: `parse_string`, with the tokens as its result.
--   String       include/qs/string.h and src/lib/string.cpp: `qs::string`, with its buffer; Memory has
--                the calls of the C library on buffers.
--   Hash         src/lib/hash.cpp: `djb2`, `sdbm` and `hash_i`, modulo 2 ^ 64.
--   Bloom        src/lib/bloom.cpp: `add`, `lookup` and `merge` over the bytes of the bit field.
--   HashTable    include/qs/hash_table.hpp: probing, insertion with its rehash, lookup and removal.
--   HashSet      include/qs/hash_set.hpp: the set of keys over a hash table.
--   CyclicBuffer include/qs/cyclic_buffer.hpp: `push` and `pop` of one thread.
--   Search       include/qs/search.hpp: `binary_search`.
--   LinkedList   include/qs/list.hpp: the doubly linked list, with the heap of its nodes.
--   Queue        include/qs/queue.hpp: the queue over the linked list.
--   ConcurrentQueue include/qs/queue.hpp: the queue that threads share.
--   Worker       include/qs/scheduler.hpp: one worker, as steps of its thread and of the others.
--                Signals adds the condition variable of its queue in include/qs/queue.hpp: which
--                thread sleeps, and which one a signal wakes, for the worker and one client thread.
--   Engine       src/core.cpp: the globals as a record. Add has the jobs that add to an index, Start
--                `StartQuery`, Results the results of a document, Documents the jobs, `EndQuery`,
--                `MatchDocument` and `GetNextAvailRes`. Documents/Serving, Delivered, Ended, Shown and
--                Reached have the engine between two calls, after any calls before; Results/Hits and its siblings what a document collects.
--
-- Conventions: `none` is a fault, which is an exception, an access outside an array, a division by 0
-- or a loop that does not end. A `while` whose end is not a count takes fuel. The fuel is the number
-- of nodes in the loops of the BK-tree, the length of the text plus one in `parse_string`, the
-- capacity plus one in a probe, the size plus one in the binary search, and the length of the string
-- plus one for a byte of `sanitize`: each round takes one of these. `insert` resizes at most once, so two levels of fuel serve its call from `resize`.
-- Loops over a table and over a list take its capacity, or its size, as fuel; `wait_all_finish` takes
-- the number of jobs, since a job submits none to the scheduler that runs it. Allocation does not
-- fail. In Bloom, Hash, LinkedList and Engine a `std::size_t` or an `int` that the code changes wraps
-- around, and in Search an `int` that does not hold a number is a fault; elsewhere the numbers are
-- unbounded, and the casts and the floating point of the sources are exact on the ranges that each
-- file names. Thresholds of queries are far below 2 ^ 31 (core.h allows 0 to 3), so their cast to
-- `int` in the engine and their sum with a distance in BkTree are exact.
--
-- How the parts of the engine meet: `StartQuery` submits jobs, one for each word, which the workers
-- run. In Engine a job runs as a whole, and `picks` says which job is next: the jobs that add to an
-- index hold its lock from start to end, so this is the order in which they get it. Worker has the
-- finer steps of one thread, its queue and those that enqueue; Worker/Signals is for one client
-- thread, which both submits and waits, as the thread that calls the engine does. A signal wakes one
-- thread that sleeps, if one does, and a thread may wake without a signal. A document in `docs` and a query are
-- named by a number, as their address; `qsort` is a parameter.
--
-- Not modelled: several workers at once and the round robin of `submit_job`, several client threads
-- that share the condition variable of a queue, the creation of threads,
-- `thread_safe_container`, the three jobs of a word of a document as jobs that run at the same time
-- (they run in the order in which they are submitted), a match job that runs beside a job that adds
-- to an index, the concurrent cyclic buffer, the iterators of the strings and their comparison
-- with a `const char *`, `calculate_k` of the Bloom filter, the levels of the skip list, copies of the
-- containers, and memory management. A skip list of children is the sequence of its bottom level. The
-- sessions of calls await the workers after each call, and start each query with an id of its own.
pub mod Prelude
pub mod Distances
pub mod Vector
pub mod BkTree
pub mod StringView
pub mod Parser
pub mod HashTable
pub mod Hash
pub mod Bloom
pub mod HashSet
pub mod Search
pub mod CyclicBuffer
pub mod Engine
pub mod LinkedList
pub mod Queue
pub mod ConcurrentQueue
pub mod Worker
pub mod String
