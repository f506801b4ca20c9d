-- ===== src/BufferManager/Tests.antt =====
-- A cache of two frames over a file of two pages, with two records in the log.
use persist_x.Base.{
  ℕ, ◌+◌, ◌*◌, ◌^◌, ◌≡◌, ◌<◌, refl, arith, true, inr, ltb, if◌then◌else◌, [], ◌∷◌, some,
}
use persist_x.Bytes.{rd, rd_cong, peek, from_le}
use persist_x.Types.{page_size, begin}
use persist_x.LogRecord.{LogRecord, simple_record, set_lsn}
use persist_x.LogRecord.RoundTrip.{Fits}
use mathlib.Core.Path.{subst}
use persist_x.LogManager.{LogManager, open_log, append, flush_all}
use persist_x.LogManager.Contents.{Logs, open_log-Logs, append-Logs, flush_all-Logs}
use persist_x.Page.{Page, get_page_lsn}
use persist_x.DiskManager.{DiskManager, open_disk, byte_at}
use persist_x.DiskManager.Pages.{disk_page}
use persist_x.TransactionManager.Begin.{simple-Fits}
use persist_x.BufferManager.{
  BufferManager, new_buffer, fetch_page, new_page, unpin_page, flush_page, delete_page,
}
use persist_x.BufferManager.Start.{new_buffer-IsValid}
use persist_x.BufferManager.Frames.{IsValid}
use persist_x.BufferManager.Fetch.{Fetched, fetch_page-view}
use persist_x.BufferManager.New.{Created, new_page-view}
use persist_x.BufferManager.Unpin.{Unpinned, unpin_page-IsValid}
use persist_x.BufferManager.Delete.{Deleted, delete_page-IsValid}
use persist_x.BufferManager.Flush.{Flushed, flush_page-disk}
use persist_x.BufferManager.Wal.{WalRule, KeepsLsn}
use persist_x.BufferManager.Steps.{fetched, Step-WalRule}

-- A failed write gets the first half of the page to the disk.
abbrev half_written : ℕ → Page → Page → Page
half_written id old src i = if ltb i 2048 then src i else old i

abbrev disk : DiskManager
disk = open_disk (λ i. 7) (2 * page_size) (λ id. true) half_written

abbrev first : LogRecord
first = simple_record 3 9 begin

abbrev one_durable : LogManager
one_durable = flush_all (append (open_log []) first).0

abbrev log : LogManager
log = (append one_durable first).0

abbrev start : BufferManager
start = new_buffer disk (some log) 2

start-IsValid : IsValid start
start-IsValid = new_buffer-IsValid disk (some log) 2

start_room : (f : ℕ) → start.page_table 1 ≡ some f → start.pin_count f + 1 < 2 ^ 31
unfolding new_buffer
start_room f m = omega arith

fetch_page-view_example : Fetched start 1 (fetch_page start 1)
fetch_page-view_example = fetch_page-view start 1 start-IsValid start_room

abbrev loaded : BufferManager
loaded = (fetch_page start 1).0

loaded-IsValid : IsValid loaded
loaded-IsValid = (fetch_page-view start 1 start-IsValid start_room).0

new_page-view_example : Created start (new_page start)
unfolding new_buffer
new_page-view_example = new_page-view start start-IsValid refl

unpin_page-IsValid_example : Unpinned loaded 1 (unpin_page loaded 1 true)
unpin_page-IsValid_example =
    unpin_page-IsValid loaded 1 true loaded-IsValid (λ f e d c i h. absurd (cc d))

abbrev unpinned_page : BufferManager
unpinned_page = (unpin_page loaded 1 true).0

unpinned_page-IsValid : IsValid unpinned_page
unpinned_page-IsValid =
    (unpin_page-IsValid loaded 1 true loaded-IsValid (λ f e d c i h. absurd (cc d))).0

flush_page-disk_example : Flushed unpinned_page 1 (flush_page unpinned_page 1)
flush_page-disk_example = flush_page-disk unpinned_page 1 unpinned_page-IsValid

delete_page-IsValid_example : Deleted unpinned_page 1 (delete_page unpinned_page 1)
delete_page-IsValid_example = delete_page-IsValid unpinned_page 1 unpinned_page-IsValid

-- ─── the write-ahead rule ───

-- A file without bytes: every page has LSN 0, whose record is durable.
abbrev empty_disk : DiskManager
empty_disk = open_disk (λ i. 0) 0 (λ id. true) half_written

empty_lsn : (id : ℕ) → get_page_lsn (disk_page empty_disk id) ≡ 0
unfolding get_page_lsn open_disk byte_at rd peek from_le
empty_lsn id = rd_cong 8 (disk_page empty_disk id) (λ i. 0) 13 (λ k lo hi. ground arith)

abbrev cached : BufferManager
cached = new_buffer empty_disk (some log) 2

log-Logs : Logs log (set_lsn first 0 ∷ []) (set_lsn first 1 ∷ [])
log-Logs =
    let fits : (n : ℕ) → n < 2 ^ 64 → Fits (set_lsn first n) = λ n h.
      simple-Fits n 3 9 begin refl (omega arith) refl h (omega arith) (omega arith) refl refl in
    let zero_lsn : (open_log []).next_lsn ≡ 0 = open_log-Logs.next_lsn in
    let a =
      append-Logs (open_log []) [] [] first open_log-Logs
        (fits (open_log []).next_lsn (omega (arith, zero_lsn))) (omega (arith, zero_lsn)) in
    let d =
      flush_all-Logs (append (open_log []) first).0 [] (set_lsn first (open_log []).next_lsn ∷ [])
        a.0 in
    let one : one_durable.next_lsn ≡ 1 = d.next_lsn in
    let b =
      append-Logs one_durable (set_lsn first (open_log []).next_lsn ∷ []) [] first d
        (fits one_durable.next_lsn (omega (arith, one))) (omega (arith, one)) in
    subst (λ k. Logs log (set_lsn first k ∷ []) (set_lsn first 1 ∷ [])) zero_lsn
      (subst (λ k. Logs log (set_lsn first (open_log []).next_lsn ∷ []) (set_lsn first k ∷ [])) one
        b.0)

cached-WalRule : WalRule (some log) empty_disk (set_lsn first 0 ∷ (set_lsn first 1 ∷ []))
cached-WalRule = record {
  log = log;
  durable = set_lsn first 0 ∷ [];
  pending = set_lsn first 1 ∷ [];
  present = refl;
  logs = log-Logs;
  all = refl;
  ahead = λ id h. let e = empty_lsn id in omega (arith, e);
}

cached-KeepsLsn : KeepsLsn cached.disk_manager
unfolding new_buffer open_disk get_page_lsn
cached-KeepsLsn id old src =
    inr (rd_cong 8 (half_written id old src) src 13 (λ k lo hi. ground (arith, hi)))

Step-WalRule_example :
    WalRule
      (fetch_page cached 0).0.log_manager
      (fetch_page cached 0).0.disk_manager
      (set_lsn first 0 ∷ (set_lsn first 1 ∷ []))
    × KeepsLsn (fetch_page cached 0).0.disk_manager
unfolding new_buffer
Step-WalRule_example =
    Step-WalRule (set_lsn first 0 ∷ (set_lsn first 1 ∷ [])) cached (fetch_page cached 0).0
      (fetched cached 0) cached-KeepsLsn cached-WalRule
