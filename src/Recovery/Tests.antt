-- ===== src/Recovery/Tests.antt =====
-- The analysis pass on a short log, in which transaction 3 commits and transaction 4 does not, and
-- the redo and undo passes on a page.
use persist_x.Base.{Option, ℕ, ◌≡◌, ◌++◌, refl, arith, List, [], ◌∷◌, none, some}
use persist_x.Types.{begin, commit, checkpoint_end}
use persist_x.LogRecord.{LogRecord, simple_record, update_log, checkpoint_record, set_lsn}
use persist_x.Bytes.{rd, wr, put, peek}
use persist_x.Base.{update}
use persist_x.Types.{data_page}
use persist_x.Page.{
  clear, init, slot_dir_start, find_free_from, find_free_slot, free_space, can_insert, assign_slot,
  insert_record, set_page_id, set_page_type,
}
use persist_x.Page.Valid.{IsValid}
use persist_x.Page.Init.{init-IsValid}
use persist_x.Page.Insert.{insert_record-IsValid}
use persist_x.Recovery.Apply.{Room, apply_record-read}
use persist_x.Page.{
  Page, get_slot_count, get_tombstone_count, get_free_space_ptr, get_page_lsn, set_slot_count,
  set_tombstone_count, set_free_space_ptr, set_page_lsn, slot_offset, read_slot, write_slot,
  mark_tombstone, stamp, append_data, raise_free_space_ptr, claim_slot, redo_insert, in_page,
  read_record, delete_record, update_record,
}
use persist_x.Recovery.Redo.{overwrite, apply_record, is_for_page, redo_record, redo, redo-restart}
use persist_x.Checkpoint.{serialize_att, serialize_dpt}
use persist_x.Recovery.{
  Tables, no_tables, seed, add_if_missing, analyze_type, scan_forward, analyze,
}
use persist_x.LogManager.{open_log, append}
use persist_x.Recovery.Undo.{
  Undo, restore, restore-apply_record, collect, insert_lsn, follow, undo_update, end_loser,
  undo_record, undo_loop,
}
use persist_x.Recovery.Analysis.{
  last_status, first_change, or_else, first_of, entry, scan_forward-tables, analyze_checkpoint,
}

abbrev log : List LogRecord
log =
    set_lsn (simple_record 3 9 begin) 0
    ∷ set_lsn (update_log 3 0 7 0 [] (1 ∷ []) 5) 1
    ∷ set_lsn (simple_record 4 9 begin) 2
    ∷ set_lsn (update_log 4 2 7 1 [] (1 ∷ []) 6) 3
    ∷ set_lsn (simple_record 3 1 commit) 4
    ∷ []

-- Opens the pass for a run.
abbrev pass : ℕ
unfolding add_if_missing analyze_type scan_forward
pass = 0

committed : (scan_forward no_tables log).att 3 ≡ none
unfolding pass
committed = refl

loser : (scan_forward no_tables log).att 4 ≡ some 3
unfolding pass
loser = refl

first_dirty : (scan_forward no_tables log).dpt 7 ≡ some 1
unfolding pass
first_dirty = refl

scan_forward-tables_example :
    ((tid : ℕ) → (scan_forward no_tables log).att tid ≡ or_else (last_status tid log) none)
    × ((pid : ℕ) → (scan_forward no_tables log).dpt pid ≡ first_of none (first_change pid log))
scan_forward-tables_example = scan_forward-tables no_tables log

-- A checkpoint in the middle of the log, with transaction 3 running and page 7 dirty.
abbrev checkpoint : LogRecord
checkpoint =
    set_lsn
      (checkpoint_record checkpoint_end (serialize_att ((3, 1) ∷ [])) (serialize_dpt ((7, 1) ∷ [])))
      5

abbrev late : List LogRecord
late = set_lsn (simple_record 3 1 commit) 6 ∷ []

analyze_checkpoint_example :
    (u : Tables) × (analyze no_tables (log ++ (checkpoint ∷ late)) ≡ some u)
    × ((tid : ℕ)
        → u.att tid ≡ or_else (last_status tid late) (first_of (entry ((3, 1) ∷ []) tid) none))
    × ((pid : ℕ)
        → u.dpt pid ≡ first_of (first_of (entry ((7, 1) ∷ []) pid) none) (first_change pid late))
analyze_checkpoint_example =
    analyze_checkpoint no_tables log checkpoint late ((3, 1) ∷ []) ((7, 1) ∷ []) refl refl refl
      ((omega arith, omega arith), tt) ((omega arith, omega arith), tt) (omega arith) (omega arith)
      (refl, tt)

-- ─── redo ───

-- A page that was never written, and the log's changes to it: two insertions.
abbrev blank : Page
blank = λ _. 0

abbrev changes : List LogRecord
changes =
    set_lsn (update_log 3 0 7 0 [] (1 ∷ 2 ∷ []) 5) 1
    ∷ set_lsn (update_log 4 2 7 1 [] (9 ∷ []) 6) 3
    ∷ []

abbrev rest : List LogRecord
rest = set_lsn (update_log 4 3 7 0 (1 ∷ 2 ∷ []) (4 ∷ 5 ∷ []) 6) 8 ∷ []

abbrev dirty : ℕ → Option ℕ
dirty = seed (λ _. none) ((7, 1) ∷ [])

-- Opens redo for a run.
abbrev redoing : ℕ
unfolding rd wr put peek get_slot_count get_tombstone_count get_free_space_ptr get_page_lsn
    set_slot_count set_tombstone_count set_free_space_ptr set_page_lsn slot_offset read_slot
    write_slot mark_tombstone stamp append_data raise_free_space_ptr claim_slot redo_insert in_page
    read_record delete_record update_record overwrite apply_record is_for_page redo_record redo seed
redoing = 0

redone : read_record (redo dirty 1 7 (changes ++ rest) blank) 0 ≡ some (4 ∷ 5 ∷ [])
unfolding redoing
redone = refl

redo-restart_example :
    redo dirty 1 7 (changes ++ rest) (redo dirty 1 7 changes blank)
    ≡ redo dirty 1 7 (changes ++ rest) blank
redo-restart_example = redo-restart dirty 1 7 changes rest blank (omega arith, (omega arith, tt))

-- A written page with one record of two bytes, and a record that makes it three bytes long.
abbrev written : Page
written = (insert_record (init blank 7 data_page) (1 ∷ 2 ∷ []) 1).0

abbrev longer : LogRecord
longer = set_lsn (update_log 4 3 7 0 (1 ∷ 2 ∷ []) (4 ∷ 5 ∷ 6 ∷ []) 6) 8

written-IsValid : IsValid written
written-IsValid =
    insert_record-IsValid (init blank 7 data_page) (1 ∷ 2 ∷ []) 1
      (init-IsValid blank 7 data_page (omega arith)).0

written-Room : Room written 0 (4 ∷ 5 ∷ 6 ∷ [])
unfolding redoing clear init slot_dir_start find_free_from find_free_slot free_space can_insert
    assign_slot insert_record set_page_id set_page_type
written-Room = (omega arith, omega arith)

apply_record-read_example :
    IsValid (apply_record longer written)
    × (read_record (apply_record longer written)
        ≡ update (read_record written) 0 (some (4 ∷ 5 ∷ 6 ∷ [])))
apply_record-read_example = apply_record-read longer written written-IsValid written-Room

-- ─── undo ───

changed-Room : Room (apply_record longer written) 0 (1 ∷ 2 ∷ [])
unfolding redoing clear init slot_dir_start find_free_from find_free_slot free_space can_insert
    assign_slot insert_record set_page_id set_page_type
changed-Room = (omega arith, omega arith)

written_before : read_record written 0 ≡ some (1 ∷ 2 ∷ [])
unfolding redoing clear init slot_dir_start find_free_from find_free_slot free_space can_insert
    assign_slot insert_record set_page_id set_page_type
written_before = refl

restore-apply_record_example :
    IsValid (restore longer (apply_record longer written))
    × (read_record (restore longer (apply_record longer written)) ≡ read_record written)
restore-apply_record_example =
    restore-apply_record longer written written-IsValid written-Room changed-Room written_before

-- One loser with one change: the page is restored, and the log ends with a CLR and TXN_END.
abbrev losers : Undo
losers = record {
  to_undo = collect (update (λ _. none) 4 (some 1)) (4 ∷ []);
  att = update (λ _. none) 4 (some 1);
  pages = λ _. written;
  log_manager = open_log [];
}

-- Opens the steps of undo for a run.
abbrev undoing : ℕ
unfolding collect insert_lsn follow undo_update end_loser undo_record undo_loop restore append
    open_log
undoing = 0

next_change : (undo_record losers (update_log 4 0 7 0 [] (1 ∷ 2 ∷ []) 5)).to_undo ≡ 1 ∷ 0 ∷ []
unfolding undoing
next_change = refl

gone : read_record ((undo_record losers (update_log 4 0 7 0 [] (1 ∷ 2 ∷ []) 5)).pages 7) 0 ≡ none
unfolding undoing redoing clear init slot_dir_start find_free_from find_free_slot free_space
    can_insert assign_slot insert_record set_page_id set_page_type
gone = refl

ended : (undo_record losers (simple_record 4 9 begin)).att 4 ≡ none
unfolding undoing
ended = refl
