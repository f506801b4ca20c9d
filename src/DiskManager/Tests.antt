-- ===== src/DiskManager/Tests.antt =====
-- A file of one page, in which a write to page 4 or behind fails half way: reading behind its end, a write there, and identifiers.
use persist_x.Base.{ℕ, ltb, if◌then◌else◌, ◌≡◌, refl}
use persist_x.Types.{page_size}
use persist_x.DiskManager.{
  DiskManager, open_disk, byte_at, read_page, write_page, allocate_page, get_num_pages,
  set_num_pages,
}

abbrev disk : DiskManager
disk =
    open_disk (λ i. 7) page_size (λ id. ltb id 4)
      (λ id old src i. if ltb i 2048 then src i else old i)

-- Opens the file for a run.
abbrev file : ℕ
unfolding open_disk byte_at read_page write_page allocate_page get_num_pages set_num_pages
file = 0

behind_end : read_page disk 3 (λ i. 9) 10 ≡ 0
unfolding file
behind_end = refl

gap_is_zero : read_page (write_page disk 3 (λ i. 9)).0 2 (λ i. 1) 10 ≡ 0
unfolding file
gap_is_zero = refl

written_byte : read_page (write_page disk 3 (λ i. 9)).0 3 (λ i. 1) 10 ≡ 9
unfolding file
written_byte = refl

next_identifier : (allocate_page disk).1 ≡ 1
unfolding file
next_identifier = refl

raised : get_num_pages (set_num_pages disk 5) ≡ 5
unfolding file
raised = refl

not_lowered : get_num_pages (set_num_pages disk 0) ≡ 1
unfolding file
not_lowered = refl

half_written : read_page (write_page disk 4 (λ i. 9)).0 4 (λ i. 1) 10 ≡ 9
unfolding file
half_written = refl

half_missing : read_page (write_page disk 4 (λ i. 9)).0 4 (λ i. 1) 3000 ≡ 0
unfolding file
half_missing = refl
