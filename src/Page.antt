-- ===== src/Page.antt =====
-- include/page.hpp and src/page.cpp: the slotted page. A page is its 4096-byte buffer, read and
-- written through the little-endian helpers of Bytes, header at the front, records growing up
-- from byte 21 and the slot directory growing down from byte 4096. `size` is the length of the
-- list of bytes that the source takes as a pointer and a size. The bodies of `assert` are not run.
mod Frame
pub mod Valid
mod Placed
mod Writes
mod Counters
mod Place
mod Freed
mod Buried
mod Replay
mod FreeSlot
pub mod Init
pub mod Insert
pub mod Delete
mod Overwrite
pub mod Update
pub mod Redo
pub mod Lsn
pub mod Compact
pub mod Memory
pub mod Overread
mod Tests
use persist_x.Base.{
  ℕ, zero, suc, ◌+◌, ◌-◌, ◌*◌, ◌%◌, ◌^◌, ◌≡◌, Bool, true, false, not, ◌&&◌, ◌||◌, List, Option,
  none, some, ltb, leb, ◌==◌, if◌then◌else◌, length,
}
use persist_x.Types.{page_size, invalid_slot_id, PageType, page_type_tag}
use persist_x.Bytes.{Buffer, put, peek, rd, wr}

abbrev pub Page : Type 0
Page = Buffer

abbrev pub slot_tombstone : ℕ
slot_tombstone = 0xffff_ffff

abbrev pub slot_bytes : ℕ
slot_bytes = 6

abbrev pub page_header_size : ℕ
page_header_size = 21

-- ─── header fields ───

unfoldable pub get_page_id : Page → ℕ
get_page_id p = rd 4 p 0

unfoldable pub get_page_type : Page → ℕ
get_page_type p = rd 1 p 4

unfoldable pub get_slot_count : Page → ℕ
get_slot_count p = rd 2 p 5

unfoldable pub get_tombstone_count : Page → ℕ
get_tombstone_count p = rd 2 p 7

unfoldable pub get_free_space_ptr : Page → ℕ
get_free_space_ptr p = rd 4 p 9

unfoldable pub get_page_lsn : Page → ℕ
get_page_lsn p = rd 8 p 13

unfoldable pub set_page_id : Page → ℕ → Page
set_page_id p v = wr 4 p 0 v

unfoldable pub set_page_type : Page → PageType → Page
set_page_type p t = wr 1 p 4 (page_type_tag t)

unfoldable pub set_slot_count : Page → ℕ → Page
set_slot_count p v = wr 2 p 5 v

unfoldable pub set_tombstone_count : Page → ℕ → Page
set_tombstone_count p v = wr 2 p 7 v

unfoldable pub set_free_space_ptr : Page → ℕ → Page
set_free_space_ptr p v = wr 4 p 9 v

unfoldable pub set_page_lsn : Page → ℕ → Page
set_page_lsn p v = wr 8 p 13 v

-- `memset(buffer_, 0, PAGE_SIZE)` leaves the memory behind the page alone.
unfoldable pub clear : Page → Page
clear p = λ i. if ltb i page_size then 0 else p i

-- `from_raw` into the memory of the new page object.
unfoldable pub from_raw : Page → Buffer → Page
from_raw p src = λ i. if ltb i page_size then src i else p i

unfoldable pub init : Page → ℕ → PageType → Page
init p page_id t =
    set_page_lsn
      (set_free_space_ptr
        (set_tombstone_count (set_slot_count (set_page_type (set_page_id (clear p) page_id) t) 0) 0)
        page_header_size)
      0

-- ─── slot directory ───

pub record SlotEntry : Type 0 where
  pub offset : ℕ
  pub length : ℕ

-- PAGE_SIZE - (sid + 1) * SLOT_BYTES in uint32_t
unfoldable pub slot_offset : ℕ → ℕ
slot_offset sid = (page_size + 2 ^ 32 - (sid + 1) * slot_bytes % 2 ^ 32) % 2 ^ 32

unfoldable pub slot_dir_start : Page → ℕ
slot_dir_start p = let n = get_slot_count p in if n == 0 then page_size else slot_offset (n - 1)

unfoldable pub read_slot : Page → ℕ → SlotEntry
read_slot p sid = record {
  offset = rd 4 p (slot_offset sid);
  length = rd 2 p (slot_offset sid + 4);
}

unfoldable pub write_slot : Page → ℕ → ℕ → ℕ → Page
write_slot p sid offset len = wr 2 (wr 4 p (slot_offset sid) offset) (slot_offset sid + 4) len

unfoldable pub mark_tombstone : Page → ℕ → Page
mark_tombstone p sid = write_slot p sid slot_tombstone 0

-- The scan from slot `s` on, with `n` slots left.
unfoldable pub find_free_from : Page → ℕ → ℕ → ℕ
find_free_from p s zero = invalid_slot_id
find_free_from p s (suc n) =
    let rest = find_free_from p (s + 1) n in
    if rd 4 p (slot_offset s) == slot_tombstone then s else rest

unfoldable pub find_free_slot : Page → ℕ
find_free_slot p = find_free_from p 0 (get_slot_count p)

-- ─── space accounting ───

unfoldable pub free_space : Page → ℕ
free_space p =
    let fsp = get_free_space_ptr p in
    let dir_top = slot_dir_start p in if leb fsp dir_top then dir_top - fsp else 0

unfoldable pub can_insert : Page → ℕ → Bool
can_insert p record_len =
    leb ((if get_tombstone_count p == 0 then 2 + record_len + slot_bytes else 2 + record_len))
      (free_space p)

-- ─── record operations ───

-- `if (lsn > get_page_lsn()) set_page_lsn(lsn);`
unfoldable pub stamp : Page → ℕ → Page
stamp p lsn = if ltb (get_page_lsn p) lsn then set_page_lsn p lsn else p

-- [size prefix][payload] at free_space_ptr, and the pointer moved past it.
unfoldable pub append_data : Page → List ℕ → Page
append_data p xs =
    let offset = get_free_space_ptr p in
    set_free_space_ptr (put (wr 2 p offset (length xs)) (offset + 2) xs) (offset + 2 + length xs)

-- Step 2 of insert_record: the lowest tombstone if there is one, else a new slot.
unfoldable pub assign_slot : Page → Page × ℕ
assign_slot p =
    if ltb 0 (get_tombstone_count p)
    then (set_tombstone_count p (get_tombstone_count p - 1), find_free_slot p)
    else (set_slot_count p (get_slot_count p + 1), get_slot_count p)

unfoldable pub insert_record : Page → List ℕ → ℕ → Page × ℕ
insert_record p xs lsn =
    if can_insert p (length xs)
    then (let (q, sid) = assign_slot (append_data p xs) in
        (stamp (write_slot q sid (get_free_space_ptr p) (length xs)) lsn, sid))
    else (p, invalid_slot_id)

-- The guard of redo_insert against a page that was never flushed.
unfoldable pub raise_free_space_ptr : Page → Page
raise_free_space_ptr p =
    if ltb (get_free_space_ptr p) page_header_size then set_free_space_ptr p page_header_size else p

-- Step 2 of redo_insert. `-` on uint16_t wraps.
unfoldable pub claim_slot : Page → ℕ → Page
claim_slot p target =
    if leb (get_slot_count p) target
    then set_slot_count p (target + 1)
    else (if (read_slot p target).offset == slot_tombstone
        then set_tombstone_count p (get_tombstone_count p + 2 ^ 16 - 1)
        else p)

-- The page; the slot returned is always the one given.
unfoldable pub redo_insert : Page → ℕ → List ℕ → ℕ → Page
redo_insert p target xs lsn =
    let p' = raise_free_space_ptr p in
    let q = claim_slot (append_data p' xs) target in
    stamp (write_slot q target (get_free_space_ptr p') (length xs)) lsn

-- The checks of read_record on an entry; the sum is computed in uint32_t.
unfoldable pub in_page : SlotEntry → Bool
in_page e = leb page_header_size e.offset && leb ((e.offset + 2 + e.length) % 2 ^ 32) page_size

-- `none` is the result false.
unfoldable pub read_record : Page → ℕ → Option (List ℕ)
read_record p sid =
    let e = read_slot p sid in
    if ltb sid (get_slot_count p)
      && not (e.offset == slot_tombstone)
      && in_page e
      && rd 2 p e.offset == e.length
    then some (peek p (e.offset + 2) e.length)
    else none

unfoldable pub delete_record : Page → ℕ → ℕ → Page × Bool
delete_record p sid lsn =
    if leb (get_slot_count p) sid || (read_slot p sid).offset == slot_tombstone
    then (p, false)
    else (let q = mark_tombstone p sid in
        (stamp (set_tombstone_count q (get_tombstone_count q + 1)) lsn, true))

unfoldable pub update_record : Page → ℕ → List ℕ → ℕ → Page × Bool
update_record p sid xs lsn =
    let e = read_slot p sid in
    if leb (get_slot_count p) sid || e.offset == slot_tombstone || not (length xs == e.length)
    then (p, false)
    else (stamp (put p (e.offset + 2) xs) lsn, true)

-- ─── compaction ───

-- One round of the loop of compact: slot `s` of the snapshot goes to slot `s` of the page.
unfoldable pub compact_slot : Page → Page → ℕ → Page
compact_slot snapshot p s =
    let old = read_slot snapshot s in
    let new_sid = get_slot_count p in
    let q = set_slot_count p (new_sid + 1) in
    if old.offset == slot_tombstone
    then (let r = mark_tombstone q new_sid in set_tombstone_count r (get_tombstone_count r + 1))
    else (let new_off = get_free_space_ptr q in
        let r =
          put (wr 2 q new_off old.length) (new_off + 2)
            (peek snapshot (old.offset + 2) old.length) in
        write_slot (set_free_space_ptr r (new_off + 2 + old.length)) new_sid new_off old.length)

unfoldable pub compact_loop : Page → Page → ℕ → ℕ → Page
compact_loop snapshot p s zero = p
compact_loop snapshot p s (suc n) = compact_loop snapshot (compact_slot snapshot p s) (s + 1) n

unfoldable pub compact : Page → Page
compact p =
    compact_loop p
      (set_free_space_ptr (set_tombstone_count (set_slot_count p 0) 0) page_header_size) 0
      (get_slot_count p)
