-- ===== src/DiskManager.antt =====
-- include/disk_manager.hpp and src/disk_manager.cpp: the page file. `bytes` and `file_size` are the
-- file as the stream sees it; opening it and syncing it succeed. `writable` says at which pages a
-- write goes through, and `after_failure` what one that does not leaves of the page, which may be a
-- part of the write: from the page on disk and the new bytes.
pub mod Pages
mod Tests
use persist_x.Base.{
  ℕ, ◌+◌, ◌-◌, ◌*◌, ◌/◌, ◌%◌, ◌^◌, Bool, true, false, ◌&&◌, ltb, leb, if◌then◌else◌,
}
use persist_x.Types.{page_size}
use persist_x.Page.{Page}

pub record DiskManager : Type 0 where
  pub bytes : ℕ → ℕ
  pub file_size : ℕ
  pub writable : ℕ → Bool
  pub after_failure : ℕ → Page → Page → Page
  pub next_page_id : ℕ

-- The constructor, on a file with the given bytes.
unfoldable pub open_disk : (ℕ → ℕ) → ℕ → (ℕ → Bool) → (ℕ → Page → Page → Page) → DiskManager
open_disk bytes file_size writable after_failure = record {
  bytes = bytes;
  file_size = file_size;
  writable = writable;
  after_failure = after_failure;
  next_page_id = file_size / page_size % 2 ^ 32;
}

-- The byte at a file offset; behind the end of the file the buffer is filled with zeros.
unfoldable pub byte_at : DiskManager → ℕ → ℕ
byte_at d i = if ltb i d.file_size then d.bytes i else 0

-- `dest` after the read.
unfoldable pub read_page : DiskManager → ℕ → Page → Page
read_page d page_id dest =
    λ i. if ltb i page_size then byte_at d (page_id * page_size + i) else dest i

-- The bytes between the old end of the file and the page written become zeros. A failed write may
-- leave the file shorter than this says; what it lacks reads as zeros then.
unfoldable pub write_page : DiskManager → ℕ → Page → DiskManager × Bool
write_page d page_id src =
    let offset = page_id * page_size in
    let left =
      if d.writable page_id
      then src
      else d.after_failure page_id (λ i. byte_at d (offset + i)) src in
    (
      record d {
        bytes = λ i.
            if leb offset i && ltb i (offset + page_size) then left (i - offset) else byte_at d i;
        file_size =
            if ltb d.file_size (offset + page_size) then offset + page_size else d.file_size;
      },
      d.writable page_id,
    )

unfoldable pub allocate_page : DiskManager → DiskManager × ℕ
allocate_page d = (record d { next_page_id = (d.next_page_id + 1) % 2 ^ 32 }, d.next_page_id)

unfoldable pub get_num_pages : DiskManager → ℕ
get_num_pages d = d.next_page_id

unfoldable pub set_num_pages : DiskManager → ℕ → DiskManager
set_num_pages d n = if ltb d.next_page_id n then record d { next_page_id = n } else d
