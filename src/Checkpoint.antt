-- ===== src/Checkpoint.antt =====
-- src/checkpoint_manager.cpp: the checkpoint, and the tables that a checkpoint record carries, for fewer than 2^28
-- entries, so that the sizes computed in uint32_t do not wrap. An entry is a transaction (8 bytes)
-- or a page (4 bytes) with an LSN.
pub mod RoundTrip
pub mod Protocol
mod Tests
use persist_x.Base.{ℕ, List, [], ◌∷◌, ◌++◌, length, Option, none, some}
use persist_x.Types.{invalid_txn_id, invalid_lsn, checkpoint_begin, checkpoint_end}
use persist_x.Bytes.{le_bytes}
use persist_x.LogRecord.{simple_record, checkpoint_record}
use persist_x.LogManager.{LogManager, append, flush}
use persist_x.BufferManager.{BufferManager, get_dirty_pages, flush_all_pages}
use persist_x.TransactionManager.{TransactionManager, get_att_snapshot}

unfoldable pub table_entries : ℕ → List (ℕ × ℕ) → List ℕ
table_entries w [] = []
table_entries w ((key, lsn) ∷ rest) = le_bytes w key ++ (le_bytes 8 lsn ++ table_entries w rest)

abbrev pub serialize_table : ℕ → List (ℕ × ℕ) → List ℕ
serialize_table w table = le_bytes 4 (length table) ++ table_entries w table

abbrev pub serialize_att : List (ℕ × ℕ) → List ℕ
serialize_att att = serialize_table 8 att

abbrev pub serialize_dpt : List (ℕ × ℕ) → List ℕ
serialize_dpt dpt = serialize_table 4 dpt

-- The log manager of the cache, if it has one.
abbrev pub log_of : Option LogManager → LogManager → LogManager
log_of none other = other
log_of (some log) other = log

-- The cache with the shared log manager, unless it was built without one.
abbrev pub attach : Option LogManager → LogManager → Option LogManager
attach none log = none
attach (some own) log = some log

-- The managers share the log manager: the cache gets it for flush_all_pages and hands it back. A
-- cache without a log stays without, and its pages are written with no flush of the log.
unfoldable pub checkpoint : TransactionManager → BufferManager → TransactionManager × BufferManager
checkpoint m b =
    let (log, begin_lsn) =
      append m.log_manager (simple_record invalid_txn_id invalid_lsn checkpoint_begin) in
    let att = get_att_snapshot m in
    let dpt = get_dirty_pages b in
    let (log', end_lsn) =
      append log (checkpoint_record checkpoint_end (serialize_att att) (serialize_dpt dpt)) in
    let b' = flush_all_pages (record b { log_manager = attach b.log_manager log' }) in
    let flushed = flush (log_of b'.log_manager log') end_lsn in
    (record m { log_manager = flushed }, record b' { log_manager = attach b'.log_manager flushed })
