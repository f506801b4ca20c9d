-- ===== src/BufferManager.antt =====
-- include/buffer_manager.hpp and src/buffer_manager.cpp: the page cache over the page file, the log
-- and the replacer. A `Page*` is the number of its frame; what a client writes through it is a
-- change of `pages`. The arrays are functions from frames. A pin count is the 32 bits of its int32_t;
-- that it does not run over, which C++ leaves undefined, is a part of the invariant.
pub mod Frames
pub mod Take
pub mod Install
pub mod Fetch
pub mod New
pub mod Unpin
pub mod Delete
pub mod Flush
pub mod FlushAll
pub mod Wal
pub mod Steps
pub mod Start
mod Tests
use persist_x.Base.{
  ℕ, zero, suc, ◌+◌, ◌-◌, ◌%◌, ◌^◌, Bool, true, false, not, ◌&&◌, List, [], ◌∷◌, ◌++◌, Option, none,
  some, ltb, ◌==◌, if◌then◌else◌, update,
}
use persist_x.Types.{invalid_page_id, invalid_lsn, data_page}
use persist_x.Page.{Page, get_page_lsn, init, clear}
use persist_x.LogManager.{LogManager, flush}
use persist_x.DiskManager.{DiskManager, read_page, write_page, allocate_page}
use persist_x.Replacer.{
  Replacer, new_replacer, evict, record_access, remove_from_replacer, set_evictable,
}

-- `log_manager` is `none` without a log.
pub record BufferManager : Type 0 where
  pub disk_manager : DiskManager
  pub log_manager : Option LogManager
  pub pool_size : ℕ
  pub dirty : ℕ → Bool
  pub pin_count : ℕ → ℕ
  pub page_ids : ℕ → ℕ
  pub pages : ℕ → Page
  pub page_table : ℕ → Option ℕ
  pub replacer : Replacer
  pub free_list : List ℕ

-- The frames from `i` on, `n` of them.
abbrev pub frames_from : ℕ → ℕ → List ℕ
frames_from i zero = []
frames_from i (suc n) = i ∷ frames_from (i + 1) n

-- The constructors, and init_pool.
unfoldable pub new_buffer : DiskManager → Option LogManager → ℕ → BufferManager
new_buffer disk log pool_size = record {
  disk_manager = disk;
  log_manager = log;
  pool_size = pool_size;
  dirty = λ _. false;
  pin_count = λ _. 0;
  page_ids = λ _. invalid_page_id;
  pages = λ _. clear (λ _. 0);
  page_table = λ _. none;
  replacer = new_replacer pool_size;
  free_list = frames_from 0 pool_size;
}

-- The log flushed up to an LSN, if there is a log.
abbrev pub flush_log : Option LogManager → ℕ → Option LogManager
flush_log none lsn = none
flush_log (some log) lsn = some (flush log lsn)

unfoldable pub enforce_wal : BufferManager → ℕ → BufferManager
enforce_wal b frame = record b {
  log_manager = flush_log b.log_manager (get_page_lsn (b.pages frame));
}

-- enforce_wal and the write of a frame's page, with the result of the write.
unfoldable pub write_frame : BufferManager → ℕ → ℕ → BufferManager × Bool
write_frame b page_id frame =
    let b' = enforce_wal b frame in
    let (disk, ok) = write_page b'.disk_manager page_id (b'.pages frame) in
    (record b' { disk_manager = disk }, ok)

-- The end of an eviction: the victim's page leaves the table.
unfoldable pub unmap : BufferManager → ℕ → BufferManager
unmap b frame = record b { page_table = update b.page_table (b.page_ids frame) none }

unfoldable pub clean_frame : BufferManager → ℕ → BufferManager
clean_frame b frame = record b { dirty = update b.dirty frame false }

-- The frame that fetch_page and new_page use: a free one, else a victim, whose page is written
-- first if it is dirty. `none` where they return nullptr.
unfoldable pub take_frame : BufferManager → BufferManager × Option ℕ
take_frame b = elim b.free_list [
  | frame ∷ rest ↦ (record b { free_list = rest }, some frame)
  | [] ↦
      let (victim, replacer) = evict b.replacer in
      elim victim [
        | none ↦ (record b { replacer = replacer }, none)
        | some frame ↦
            let e = record b { replacer = replacer } in
            let (w, ok) = write_frame e (e.page_ids frame) frame in
            if e.dirty frame
            then (if ok then (unmap (clean_frame w frame) frame, some frame) else (w, none))
            else (unmap e frame, some frame)
      ]
]

-- The frame takes its new page, pinned once.
unfoldable pub install : BufferManager → ℕ → ℕ → Page → BufferManager
install b frame page_id page = record b {
  pages = update b.pages frame page;
  page_ids = update b.page_ids frame page_id;
  page_table = update b.page_table page_id (some frame);
  pin_count = update b.pin_count frame 1;
  dirty = update b.dirty frame false;
  replacer = set_evictable (record_access b.replacer frame) frame false;
}

-- `> 0` on int32_t: a pin count is kept as its 32 bits.
abbrev pub positive : ℕ → Bool
positive pins = ltb 0 pins && ltb pins (2 ^ 31)

unfoldable pub fetch_page : BufferManager → ℕ → BufferManager × Option ℕ
fetch_page b page_id = elim (b.page_table page_id) [
  | some frame ↦ (
    record b {
      pin_count = update b.pin_count frame ((b.pin_count frame + 1) % 2 ^ 32);
      replacer = record_access (set_evictable b.replacer frame false) frame;
    },
    some frame,
  )
  | none ↦
      let (t, taken) = take_frame b in
      elim taken [
        | none ↦ (t, none)
        | some frame ↦
            (install t frame page_id (read_page t.disk_manager page_id (t.pages frame)), some frame)
      ]
]

unfoldable pub unpin_page : BufferManager → ℕ → Bool → BufferManager × Bool
unpin_page b page_id is_dirty = elim (b.page_table page_id) [
  | none ↦ (b, false)
  | some frame ↦
      if not (positive (b.pin_count frame))
      then (b, false)
      else (let left = b.pin_count frame - 1 in
          (
            record b {
              pin_count = update b.pin_count frame left;
              dirty = if is_dirty then update b.dirty frame true else b.dirty;
              replacer = if left == 0 then set_evictable b.replacer frame true else b.replacer;
            },
            true,
          ))
]

unfoldable pub flush_page : BufferManager → ℕ → BufferManager × Bool
flush_page b page_id = elim (b.page_table page_id) [
  | none ↦ (b, false)
  | some frame ↦
      let (w, ok) = write_frame b page_id frame in
      if ok then (clean_frame w frame, true) else (w, false)
]

-- One round of flush_all_pages, which does not look at the result of the write.
unfoldable pub flush_frame : BufferManager → ℕ → BufferManager
flush_frame b i =
    let (w, ok) = write_frame b (b.page_ids i) i in
    if not (b.page_ids i == invalid_page_id) && b.dirty i then clean_frame w i else b

-- The rounds from frame `i` on, `n` of them.
unfoldable pub flush_from : BufferManager → ℕ → ℕ → BufferManager
flush_from b i zero = b
flush_from b i (suc n) = flush_from (flush_frame b i) (i + 1) n

unfoldable pub flush_all_pages : BufferManager → BufferManager
flush_all_pages b = flush_from b 0 b.pool_size

-- The new page's identifier is the second result, `none` where the source returns nullptr.
unfoldable pub new_page : BufferManager → BufferManager × Option (ℕ × ℕ)
new_page b =
    let (t, taken) = take_frame b in
    elim taken [
      | none ↦ (t, none)
      | some frame ↦
          let (disk, page_id) = allocate_page t.disk_manager in
          (
            install (record t { disk_manager = disk }) frame page_id
                (init (t.pages frame) page_id data_page),
            some (frame, page_id),
          )
    ]

unfoldable pub delete_page : BufferManager → ℕ → BufferManager × Bool
delete_page b page_id = elim (b.page_table page_id) [
  | none ↦ (b, true)
  | some frame ↦ if positive (b.pin_count frame) then (b, false) else (
    record b {
      page_table = update b.page_table page_id none;
      replacer = remove_from_replacer b.replacer frame;
      page_ids = update b.page_ids frame invalid_page_id;
      dirty = update b.dirty frame false;
      pin_count = update b.pin_count frame 0;
      free_list = b.free_list ++ (frame ∷ []);
    },
    true,
  )
]

-- The dirty pages among the frames from `i` on, `n` of them, with their LSNs.
unfoldable pub dirty_from : BufferManager → ℕ → ℕ → List (ℕ × ℕ)
dirty_from b i zero = []
dirty_from b i (suc n) =
    let rest = dirty_from b (i + 1) n in
    if b.dirty i && not (b.page_ids i == invalid_page_id)
    then (b.page_ids i, get_page_lsn (b.pages i)) ∷ rest
    else rest

unfoldable pub get_dirty_pages : BufferManager → List (ℕ × ℕ)
get_dirty_pages b = dirty_from b 0 b.pool_size

pub record FrameInfo : Type 0 where
  pub frame_id : ℕ
  pub page_id : ℕ
  pub pin_count : ℕ
  pub dirty : Bool
  pub page_lsn : ℕ

unfoldable pub info_from : BufferManager → ℕ → ℕ → List FrameInfo
info_from b i zero = []
info_from b i (suc n) =
    let info : FrameInfo = record {
      frame_id = i;
      page_id = b.page_ids i;
      pin_count = b.pin_count i;
      dirty = b.dirty i;
      page_lsn =
          if not (b.page_ids i == invalid_page_id) then get_page_lsn (b.pages i) else invalid_lsn;
    } in
    info ∷ info_from b (i + 1) n

unfoldable pub get_frame_info : BufferManager → List FrameInfo
get_frame_info b = info_from b 0 b.pool_size
