-- ===== src/Lib.antt =====
-- mini_leveldb: the log, the memtable over its skip list, the filters and the codings of the store.
--
-- The program is the lower half of a LevelDB-like store. Keys, values and log records are byte
-- strings (include/slice.h); comparators (include/comparator.h, util/comparator.cc) order them; the
-- codings (util/coding.h, util/coding.cc) write numbers and strings into bytes and read them back;
-- the log (db/log_format.h, db/log_writer.cc, db/log_reader.cc) cuts records into fragments of blocks
-- of 32 KiB, each under a masked CRC (util/crc32c.h), and reads them back; a status
-- (include/status.h, util/status.cc) carries the outcome of an operation.
--
--   Base        lists, tests, bits and text over the native numbers, shared by all parts
--   Slice       include/slice.h: a slice is the list of its bytes; `compare`, `slice_eq`, `starts_with`
--   Comparator  the interface `Comparator` and the bytewise comparator
--   Coding      the fixed and variable-length codings; a decoder takes the input and returns the
--               value and what is left of the input, or none for a null pointer or false
--   Status      a status is none for OK or the bytes of its state array
--   Crc32c      util/crc32c.h and util/crc32c.cc: the mask, and the interface `Checksum` of the checksum
--               that the log uses; Extend and Tables are the function `Extend` and its tables, Bitwise,
--               TableValues, Steps, Partial and Agrees compare it with CRC-32C digit by digit, and
--               `crc32c` fills the interface with it
--   Env         the interfaces of the files that the log appends to and reads from
--   PosixFile   util/env_posix.cc: the buffered file, over the calls of the operating system, which are an
--               argument of it
--   FilterPolicy  the interface of include/filter_policy.h
--   Bloom       util/bloom.cc: the Bloom filter policy; Hash is util/hash.cc
--   DbFormat    db/dbformat.h and db/dbformat.cc: internal keys, their comparator over the user's, their
--               filter policy over the user's, and lookup keys
--   SkipList    db/skiplist.h: `Node` and `SkipList` are its nodes in a store, the searches, `insert`,
--               `contains` and the iterator; Chain, Walk, Find and Search are about the searches, Links,
--               Placed and Insert about the pointers that `insert` sets, Spec and Cursor about the list
--               as a sorted list of keys
--   MemTable    db/memtable.h and db/memtable.cc: the entries, their order, `add` into the skip list and
--               `mem_get` by its seek; History is a memtable after a sequence of `add`s
--   Cache       include/cache.h and util/cache.cc: the entries and the hash table, with Table, Buckets,
--               Flat, Resize, Count and Map about what it finds; Lru is a shard, Ring its two rings of entries,
--               Erased, Evict and Prune about eviction, and Sharded the sixteen shards
--   Arena       util/arena.h and util/arena.cc: regions are addresses with a number of bytes
--   Iterator    include/iterator.h and table/iterator.cc
--   Random      util/random.h; Logging is util/logging.cc
--   Log         the writer (`Writer`, `add_record`) and the reader (`Reader`, `read_record`)
--   Examples    concrete files, and the theorems at concrete inputs
--
-- Bytes are the numbers below 256, a uint32 or uint64 is a number with its reduction modulo 2^32 or
-- 2^64 written out, and a machine is assumed to be little-endian with a signed char. A stateful
-- method takes its object and returns it with the result.
--
-- Fuel. The do-while loop of `AddRecord` is given two turns more than the record has bytes: a turn
-- writes at least one byte, except for a first one that finds no room behind its header. The loop of
-- `ReadPhysicalRecord` is given two turns, since a turn that fills the buffer ends the file or leaves
-- a header. The loop of `ReadRecord` and that of the writes of a buffered file take their fuel from the
-- caller. A search of the skip list is given as many rounds as there are nodes and levels, since a round
-- leaves a node or a level behind. The loops of the cache that evict entries are given as many rounds as there ever were entries, and
-- the doubling of its hash table 32 rounds, which is enough for 2^31 entries. The loop of `Extend` over
-- swaths is given as many rounds as there are bytes, and so is that over words; a round takes sixteen or four of them.
-- A bucket of the hash table is the list of its chain, so that a write to a `next_hash` is a change of that list.
--
-- Parameters. The files are records of operations over a type of file states; `IsAppending` and
-- `IsStreaming` say that a file never fails and appends or reads its bytes in order, as the comments of
-- include/env.h promise. The log takes the checksum as a record of a function with two laws: it fits
-- 32 bits, and extending by one string and then by another is extending by both; `crc32c` is that record for
-- `Extend`. A user comparator is three-way (`IsThreeWay`) where a theorem says so: it answers zero exactly
-- on equal keys, which include/comparator.h documents, and which `Slice::compare`, and so the bytewise
-- comparator, does not do. The comparison of a skip list is a total order (`IsOrder`). `operator new` is an argument of the arena;
-- `IsAllocator` says that it returns aligned memory outside the blocks that are alive. The calls of the
-- operating system are an argument of the buffered file; `IsWriting` says that `write` writes some bytes
-- of a buffer or is interrupted, and is interrupted a finite number of times.
--
-- Not modelled: the concurrent readers of the skip list, so that an atomic pointer is a pointer, and
-- the mutexes of the cache, one operation of which runs at a time; the static flag of `Extend`,
-- whose initialisation calls `Extend` again, so that what is modelled is the path behind it; the other files of util/env_posix.cc, locks and
-- loggers, which are calls of the operating system; the release of memory; and the assertions, which are compiled
-- away in a release.
pub mod Base
pub mod Slice
pub mod Comparator
pub mod Cache
pub mod PosixFile
pub mod Coding
pub mod FilterPolicy
pub mod Hash
pub mod Bloom
pub mod DbFormat
pub mod Arena
pub mod MemTable
pub mod Iterator
pub mod SkipList
pub mod Random
pub mod Logging
pub mod Status
pub mod Crc32c
pub mod Env
pub mod Log
pub mod Examples
