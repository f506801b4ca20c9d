-- ===== src/Page/Tests.antt =====
-- Runs of the page operations on concrete pages, and the page's theorems at concrete inputs.
use persist_x.Base.{
  ℕ, zero, suc, ◌+◌, ◌*◌, ◌^◌, ◌≡◌, ◌≢◌, ◌≤◌, ◌<◌, ◌↔◌, ◌⊎◌, refl, sym, arith, List, [], ◌∷◌,
  length, true, false, some, none, update, update_elsewhere, is_some, if◌then◌else◌, ◌==◌,
  sum_below,
}
use persist_x.Types.{page_size, invalid_slot_id, data_page}
use persist_x.Bytes.{rd, wr, put, peek}
use persist_x.Page.{
  Page, SlotEntry, get_page_id, get_page_type, get_slot_count, get_tombstone_count,
  get_free_space_ptr, get_page_lsn, set_page_id, set_page_type, set_slot_count, set_tombstone_count,
  set_free_space_ptr, set_page_lsn, clear, init, slot_offset, slot_dir_start, read_slot, write_slot,
  mark_tombstone, find_free_from, find_free_slot, free_space, can_insert, stamp, append_data,
  slot_tombstone, assign_slot, insert_record, raise_free_space_ptr, claim_slot, redo_insert,
  in_page, read_record, delete_record, update_record, compact_slot, compact_loop, compact,
}
use persist_x.Page.Valid.{IsValid, extent}
use persist_x.Page.Init.{init-IsValid}
use persist_x.Page.Insert.{
  insert_record-read, insert_record-IsValid, insert_record-slot, can_insert_lem,
}
use persist_x.Page.FreeSlot.{Finds}
use persist_x.Page.Overread.{read_record-confined}
use persist_x.Page.Delete.{delete_record-read}
use persist_x.Page.Update.{update_record-read}
use persist_x.Page.Redo.{redo_insert-read}
use persist_x.Page.Lsn.{insert_record-Stamped}
use persist_x.Page.Compact.{compact-read}
use persist_x.Page.Memory.{operations-behind, redo_insert-overrun}

-- Opens every function of the page for a run.
abbrev runs : ℕ
unfolding rd wr put peek get_page_id get_page_type get_slot_count get_tombstone_count
    get_free_space_ptr get_page_lsn set_page_id set_page_type set_slot_count set_tombstone_count
    set_free_space_ptr set_page_lsn clear init slot_offset slot_dir_start read_slot write_slot
    mark_tombstone find_free_from find_free_slot free_space can_insert stamp append_data assign_slot
    insert_record raise_free_space_ptr claim_slot redo_insert in_page read_record delete_record
    update_record compact_slot compact_loop compact
runs = 0

abbrev fresh : Page
fresh = init (λ _. 0) 3 data_page

-- Two records, LSNs 5 and 6.
abbrev one : Page
one = (insert_record fresh (7 ∷ 8 ∷ []) 5).0

abbrev two : Page
two = (insert_record one (9 ∷ []) 6).0

fresh-IsValid : IsValid fresh
fresh-IsValid = (init-IsValid (λ _. 0) 3 data_page (omega arith)).0

two-IsValid : IsValid two
two-IsValid =
    insert_record-IsValid one (9 ∷ []) 6 (insert_record-IsValid fresh (7 ∷ 8 ∷ []) 5 fresh-IsValid)

two_reads : read_record two 0 ≡ some (7 ∷ 8 ∷ [])
unfolding runs
two_reads = refl

two_count : get_slot_count two ≡ 2
unfolding runs
two_count = refl

-- Slot 0 deleted; the next record takes its place.
abbrev holed : Page
holed = (delete_record two 0 7).0

holed_slot : (insert_record holed (1 ∷ 2 ∷ 3 ∷ []) 8).1 ≡ 0
unfolding runs
holed_slot = refl

holed-compact : get_free_space_ptr (compact holed) ≡ 24
unfolding runs
holed-compact = refl

holed-IsValid : IsValid holed
holed-IsValid = (delete_record-read two 0 7 two-IsValid).0

insert_record-read_example :
    ((can_insert holed 3 ≡ true)
      × IsValid (insert_record holed (1 ∷ 2 ∷ 3 ∷ []) 8).0
      × (read_record holed (insert_record holed (1 ∷ 2 ∷ 3 ∷ []) 8).1 ≡ none)
      × (read_record (insert_record holed (1 ∷ 2 ∷ 3 ∷ []) 8).0
          ≡ update
              (read_record holed)
              (insert_record holed (1 ∷ 2 ∷ 3 ∷ []) 8).1
              (some (1 ∷ 2 ∷ 3 ∷ []))))
    ⊎ ((can_insert holed 3 ≡ false)
        × (insert_record holed (1 ∷ 2 ∷ 3 ∷ []) 8 ≡ (holed, invalid_slot_id)))
insert_record-read_example = insert_record-read holed (1 ∷ 2 ∷ 3 ∷ []) 8 holed-IsValid

insert_record-slot_example :
    ((get_tombstone_count holed ≡ 0)
      × ((insert_record holed (1 ∷ 2 ∷ 3 ∷ []) 8).1 ≡ get_slot_count holed))
    ⊎ ((0 < get_tombstone_count holed) × Finds holed 0 (insert_record holed (1 ∷ 2 ∷ 3 ∷ []) 8).1)
unfolding runs
insert_record-slot_example = insert_record-slot holed (1 ∷ 2 ∷ 3 ∷ []) 8 holed-IsValid refl

can_insert_lem_example : (can_insert two 4050 ≡ true) ↔ (
    get_free_space_ptr two
      + 4052
      + 6 * (get_slot_count two + (if get_tombstone_count two == 0 then 1 else 0))
    ≤ page_size)
can_insert_lem_example = can_insert_lem two 4050 two-IsValid

delete_record-read_example :
    IsValid holed
    × ((delete_record two 0 7).1 ≡ is_some (read_record two 0))
    × (read_record holed ≡ update (read_record two) 0 none)
    × (((delete_record two 0 7).1 ≡ true) ⊎ (delete_record two 0 7 ≡ (two, false)))
delete_record-read_example = delete_record-read two 0 7 two-IsValid

update_record-read_example :
    ((old : List ℕ) × (read_record two 1 ≡ some old)
      × (length old ≡ 1)
      × ((update_record two 1 (4 ∷ []) 9).1 ≡ true)
      × IsValid (update_record two 1 (4 ∷ []) 9).0
      × (read_record (update_record two 1 (4 ∷ []) 9).0
          ≡ update (read_record two) 1 (some (4 ∷ []))))
    ⊎ (((old : List ℕ) → read_record two 1 ≡ some old → length old ≢ 1)
        × (update_record two 1 (4 ∷ []) 9 ≡ (two, false)))
update_record-read_example = update_record-read two 1 (4 ∷ []) 9 two-IsValid

redo_insert-read_example :
    IsValid (redo_insert holed 0 (7 ∷ 8 ∷ []) 10)
    × (read_record (redo_insert holed 0 (7 ∷ 8 ∷ []) 10)
        ≡ update (read_record holed) 0 (some (7 ∷ 8 ∷ [])))
unfolding runs
redo_insert-read_example =
    redo_insert-read holed 0 (7 ∷ 8 ∷ []) 10 holed-IsValid (omega arith) (omega arith)

insert_record-Stamped_example : get_page_lsn (insert_record two (4 ∷ []) 9).0 ≡ 9
unfolding runs
insert_record-Stamped_example = insert_record-Stamped two (4 ∷ []) 9 two-IsValid (omega arith) refl

compact-read_example :
    IsValid (compact holed)
    × (read_record (compact holed) ≡ read_record holed)
    × (get_slot_count (compact holed) ≡ get_slot_count holed)
    × (get_free_space_ptr (compact holed)
        ≡ sum_below (λ s. extent (read_slot holed s)) (get_slot_count holed) + 21)
    × (get_free_space_ptr (compact holed) ≤ get_free_space_ptr holed)
compact-read_example = compact-read holed holed-IsValid

-- An entry at the last 32-bit offset but one passes the checks of read_record.
abbrev wild : SlotEntry
wild = record { offset = 0xffff_fffe; length = 16 }

-- The page with other memory behind it.
abbrev moved : Page
moved = update two 5000 9

read_record-confined_example :
    (read_record two 0 ≡ read_record moved 0)
    ⊎ (((read_slot two 0).offset ≢ slot_tombstone)
        × (2 ^ 32 ≤ (read_slot two 0).offset + 2 + (read_slot two 0).length))
read_record-confined_example =
    read_record-confined two moved 0
      (λ i h. sym (update_elsewhere two 5000 9 i (λ e. omega (arith, h, e)))) (omega arith)

in_page-wild : in_page wild ≡ true
unfolding runs
in_page-wild = refl

operations-behind_example :
    ((insert_record two (4 ∷ []) 9).0 5000 ≡ two 5000)
    × ((delete_record two 1 9).0 5000 ≡ two 5000)
    × ((update_record two 1 (4 ∷ []) 9).0 5000 ≡ two 5000)
operations-behind_example = operations-behind two 5000 (4 ∷ []) 1 9 two-IsValid (omega arith)

-- A page whose only record leaves 60 bytes free, and 80 bytes to put back.
abbrev bytes : ℕ → List ℕ
bytes zero = []
bytes (suc n) = n ∷ bytes n

abbrev full : Page
full = (insert_record fresh (bytes 4007) 5).0

redo_insert-overrun_example : redo_insert full 0 (bytes 80) 6 (get_free_space_ptr full + 2 + 70) ≡ 9
unfolding runs
redo_insert-overrun_example =
    redo_insert-overrun full 0 (bytes 80) 6 70
      (insert_record-IsValid fresh (bytes 4007) 5 fresh-IsValid) (omega arith) (omega arith)
      (omega arith)
