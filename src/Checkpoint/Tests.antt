-- ===== src/Checkpoint/Tests.antt =====
-- The round trip of a checkpoint's tables at a concrete table each, and a checkpoint of a cache with
-- one dirty page.
use persist_x.Base.{
  ℕ, ◌+◌, ◌^◌, ◌≡◌, ◌≢◌, ◌<◌, refl, arith, List, [], ◌∷◌, some, length, true, false,
}
use persist_x.Bytes.{le_bytes, rd, peek, from_le}
use persist_x.Types.{invalid_page_id, checkpoint_end}
use persist_x.LogRecord.{set_lsn, checkpoint_record, total_size}
use persist_x.LogRecord.RoundTrip.{Fits}
use persist_x.LogManager.{open_log}
use persist_x.LogManager.Contents.{Logs, open_log-Logs}
use persist_x.Page.{get_page_lsn}
use persist_x.Replacer.{new_replacer, record_access, set_evictable}
use persist_x.DiskManager.{open_disk, byte_at, read_page}
use persist_x.DiskManager.Pages.{SamePage, disk_page}
use persist_x.BufferManager.{
  BufferManager, new_buffer, fetch_page, take_frame, install, unpin_page, get_dirty_pages,
  dirty_from,
}
use persist_x.BufferManager.Start.{new_buffer-IsValid}
use persist_x.BufferManager.Frames
use persist_x.BufferManager.Frames.{SameViews}
use persist_x.BufferManager.Fetch.{fetch_page-view}
use persist_x.BufferManager.Unpin.{unpin_page-IsValid}
use persist_x.TransactionManager.{
  TransactionManager, new_transaction_manager, get_att_snapshot, snapshot,
}
use persist_x.Checkpoint.{table_entries, serialize_att, serialize_dpt, checkpoint}
use persist_x.Checkpoint.Protocol.{SharesLog, checkpoint_records, checkpoint-durable}
use persist_x.Checkpoint.RoundTrip.{deserialize_att-serialize_att}
use persist_x.Recovery.{deserialize_att, deserialize_dpt}

abbrev running : List (ℕ × ℕ)
running = (3, 5) ∷ []

abbrev dirty : List (ℕ × ℕ)
dirty = (7, 9) ∷ (8, 0xffff_ffff_ffff_ffff) ∷ []

running_size : length (serialize_att running) ≡ 20
unfolding table_entries le_bytes
running_size = refl

dirty_size : length (serialize_dpt dirty) ≡ 28
unfolding table_entries le_bytes
dirty_size = refl

deserialize_att-serialize_att_example :
    (deserialize_att (serialize_att running) ≡ some running)
    × (deserialize_dpt (serialize_dpt dirty) ≡ some dirty)
deserialize_att-serialize_att_example =
    deserialize_att-serialize_att running dirty ((omega arith, omega arith), tt)
      ((omega arith, omega arith), ((omega arith, omega arith), tt)) (omega arith) (omega arith)

-- ─── a checkpoint ───

abbrev transactions : TransactionManager
transactions = new_transaction_manager (open_log [])

abbrev start : BufferManager
start = new_buffer (open_disk (λ i. 7) 8192 (λ id. true) (λ id old src. src)) (some (open_log [])) 2

abbrev loaded : BufferManager
loaded = (fetch_page start 1).0

start_room : (f : ℕ) → start.page_table 1 ≡ some f → start.pin_count f + 1 < 2 ^ 31
unfolding new_buffer
start_room f m = omega arith

loaded-IsValid : Frames.IsValid loaded
loaded-IsValid =
    (fetch_page-view start 1
      (new_buffer-IsValid (open_disk (λ i. 7) 8192 (λ id. true) (λ id old src. src))
        (some (open_log [])) 2)
      start_room).0

-- A cache with one page, which is dirty.
abbrev cache : BufferManager
cache = (unpin_page loaded 1 true).0

cache-IsValid : Frames.IsValid cache
cache-IsValid = (unpin_page-IsValid loaded 1 true loaded-IsValid (λ f e d c i h. absurd (cc d))).0

-- Opens the cache for a run.
abbrev run : ℕ
unfolding new_buffer open_disk byte_at read_page fetch_page take_frame install unpin_page
    get_dirty_pages dirty_from get_page_lsn rd peek from_le open_log get_att_snapshot snapshot
    new_replacer record_access set_evictable
run = 0

one_dirty : get_dirty_pages cache ≡ (1, 0x0707_0707_0707_0707) ∷ []
unfolding run
one_dirty = refl

cache_writable : (id : ℕ) → cache.disk_manager.writable id ≡ true
unfolding run
cache_writable id = refl

end-Fits : Fits (
    set_lsn
      (checkpoint_record checkpoint_end
        (serialize_att (get_att_snapshot transactions))
        (serialize_dpt (get_dirty_pages cache)))
      (transactions.log_manager.next_lsn + 1))
end-Fits = record {
  lsn = unfold open_log in omega arith;
  txn_id = omega arith;
  prev_lsn = omega arith;
  tag = refl;
  tag_byte = omega arith;
  page_id = omega arith;
  slot_id = omega arith;
  index_key = omega arith;
  undo_next_lsn = omega arith;
  size =
      rw one_dirty
        (unfold get_att_snapshot snapshot total_size table_entries le_bytes in omega arith);
}

checkpoint-durable_example :
    Logs (checkpoint transactions cache).0.log_manager (checkpoint_records 0 transactions cache) []
    × SharesLog cache.log_manager
        (checkpoint transactions cache).0.log_manager
        (checkpoint transactions cache).1.log_manager
    × Frames.IsValid (checkpoint transactions cache).1
    × SameViews cache (checkpoint transactions cache).1
    × ((f : ℕ)
        → f < cache.pool_size
        → cache.page_ids f ≢ invalid_page_id
        → ((checkpoint transactions cache).1.dirty f ≡ false)
          × (cache.dirty f ≡ true
              → SamePage
                  (disk_page (checkpoint transactions cache).1.disk_manager (cache.page_ids f))
                  (cache.pages f)))
checkpoint-durable_example =
    checkpoint-durable transactions cache [] [] open_log-Logs cache-IsValid cache_writable
      (unfold open_log in omega arith) end-Fits
