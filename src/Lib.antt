-- ===== src/Lib.antt =====
-- PersistX: a storage engine with slotted pages, a write-ahead log, a page cache, transactions,
-- ARIES recovery and a B+ tree index. This library models its page format, its log, the page file
-- and the page cache, transactions but for abort, checkpoints, the three passes of recovery,
-- and the nodes of the index.
--
-- The parts and how they interact. A page (include/page.hpp, src/page.cpp) holds records in a slot
-- directory and carries the LSN of the last change to it. Each change to a page is described by a
-- log record (include/log_record.hpp), which the log manager (src/log_manager.cpp) numbers,
-- buffers and writes to the log file. The buffer manager (src/buffer_manager.cpp) keeps pages of the
-- page file (src/disk_manager.cpp) in frames; it asks the log manager to flush up to a page's LSN
-- before it writes the page, and the replacer (src/replacer.cpp) for the frame to reuse. The
-- transaction manager (src/transaction_manager.cpp) logs the start, the changes and the end of each
-- transaction and flushes the log at a commit. The index (src/btree_index.cpp) maps keys to record
-- identifiers in nodes (src/btree_page.cpp) that are pages as well. A checkpoint
-- (src/checkpoint_manager.cpp) writes the tables of running transactions and dirty
-- pages into a log record; recovery (src/recovery_manager.cpp) reads the log with read_log, builds
-- the two tables from the last checkpoint and the records behind it, and brings pages up to date
-- with redo_insert, update_record and delete_record; abort walks back through the log with
-- read_record_at_lsn.
--
-- Files:
--   Base          Boolean tests, lists measured by native numbers, sums over an index range.
--   Bytes         the memcpy helpers of src/page.cpp: a buffer is a function from addresses to
--                 bytes, integers are little-endian.
--   Types         include/common.hpp.
--   Page          src/page.cpp, one function per method under its name, on the page's buffer.
--                 Page/Valid has the invariant; Page/Init, Insert, Delete, Update, Redo and
--                 Compact are about the methods of those names; Page/Lsn is about the page LSN,
--                 Page/Memory about writes outside the page, Page/Overread about what read_record
--                 reads of a page with any bytes. The others carry lemmas.
--   LogRecord     include/log_record.hpp: serialize, and deserialize as a reader of bytes.
--   LogManager    src/log_manager.cpp: the manager's fields with the file as a list of bytes.
--                 LogManager/Frames reads the file as records, Index is about lsn_index, Contents
--                 has the invariant, append and flush, Reopen is about read_log on the file of an
--                 earlier run, Torn about appending behind a torn record, Lookup about
--                 read_record_at_lsn.
--   Replacer      src/replacer.cpp: the list of evictable frames as nodes with handles, and the map
--                 from frames to handles; Replacer/Lru reads it as a sequence of frames.
--   DiskManager   src/disk_manager.cpp: the page file as the stream shows it; which writes fail, and
--                 what one leaves of its page, are fields. DiskManager/Pages reads it as a map from
--                 identifiers to pages.
--   BufferManager src/buffer_manager.cpp: the frames as functions from frame numbers, with the page
--                 file, the log and the replacer as fields. BufferManager/Frames has the invariant
--                 and what a client sees, Take the choice of a frame, Install its new page; Fetch,
--                 New, Unpin, Delete, Flush and FlushAll are about the methods, Wal and Steps about
--                 the write-ahead rule, Start about a new cache.
--   TransactionManager  src/transaction_manager.cpp: the table of transactions as a list, a
--                 Transaction* as its identifier; begin and commit are begin_txn and commit_txn.
--                 TransactionManager/Chains has the undo chains, Begin, Commit and Update are about
--                 the methods.
--   BtreePage     src/btree_page.cpp: BtreePage/Leaf and BtreePage/Internal have the methods of the
--                 two classes, Keys the order of int64_t keys on their 64-bit patterns. Leaf/Search
--                 is about key_index, Insert, Remove and Lookup about the methods, Map and Forget
--                 about lookup after insert and remove; Internal/Route is about lookup_child,
--                 InsertAfter about the node after insert_after, Search about lookups in it.
--   Checkpoint    src/checkpoint_manager.cpp: serialize_att, serialize_dpt and checkpoint;
--                 Checkpoint/Protocol is about the steps of checkpoint.
--   Recovery      src/recovery_manager.cpp: deserialize_att, deserialize_dpt and analyze, on the
--                 records that read_log returned; Recovery/Analysis describes its tables. Recovery/Redo
--                 has what the loop of redo does to one page, Recovery/Apply is about one record.
--                 Recovery/Undo has the undo pass, with a page for each identifier.
--
-- Numbers are natural numbers; where the source's unsigned arithmetic can wrap, the wrap is written
-- out, and a field keeps the low bits that its width holds. A pin count is the 32 bits of its int32_t. A record handed over as a pointer and a
-- size is its list of bytes. Loops over slots run for the number of slots. The loop of read_log
-- runs on fuel, the length of the file, which is enough because each round that goes on takes four
-- bytes at least; a size below 4, on which it overruns its buffer, gives no result; the binary search of key_index runs for the number of keys. The loop of undo runs
-- on fuel that its caller gives. The tables of a checkpoint have fewer than 2^28 entries, so that
-- the sizes computed in uint32_t do not wrap.
--
-- Not modelled: the bodies of assert; failures to open, write or sync the log file, which the
-- source does not look at either, and to open the page file; DiskManager::flush, which no other part
-- calls; the mutexes, under which each method is one step; abort, the choice of the LSN at which
-- redo starts, the way of redo and undo to a page through the page cache, a bound for the loop of
-- undo, the index over its nodes, and the shell.
pub mod Base
pub mod Bytes
pub mod Types
pub mod Page
pub mod LogRecord
pub mod LogManager
pub mod Replacer
pub mod DiskManager
pub mod BufferManager
pub mod BtreePage
pub mod TransactionManager
pub mod Checkpoint
pub mod Recovery
