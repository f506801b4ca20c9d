-- ===== src/Recovery/Undo.antt =====
-- The undo pass of src/recovery_manager.cpp. fetch_page is taken to give the page, as in the redo
-- pass; the set of numbers still to undo is a list in descending order.
use persist_x.Base.{
  ℕ, zero, suc, ◌≡◌, refl, sym, ap, ◌∙◌, arith, Bool, true, false, List, [], ◌∷◌, Option, none,
  some, ltb, ◌==◌, if◌then◌else◌, Bool-cases, inl, inr, update, fun_ext, ==→eq,
}
use persist_x.Types.{invalid_lsn, txn_end, begin, LogRecordType, invalid}
use persist_x.LogRecord.{LogRecord, is_update, is_clr, clr_log, simple_record}
use persist_x.LogManager.{LogManager, is_empty, append, read_record_at_lsn}
use persist_x.Page.{Page, delete_record, redo_insert, read_record, set_page_lsn}
use persist_x.Page.Valid.{IsValid}
use persist_x.Page.Delete.{delete_record-read}
use persist_x.Page.Redo.{redo_insert-read}
use persist_x.Recovery.Redo.{sized, overwrite, apply_record}
use persist_x.Recovery.Apply.{Room, sized_small, update-update, overwrite-read, apply_record-read}

-- The page with the before-image of an UPDATE record.
unfoldable pub restore : LogRecord → Page → Page
restore r p =
    if is_empty r.old_tuple_data
    then (delete_record p r.slot_id 0).0
    else (if is_empty r.new_tuple_data
        then redo_insert p r.slot_id (sized r.old_tuple_data) 0
        else overwrite p r.slot_id r.old_tuple_data 0)

-- What an image says of the slot: an empty one stands for no record.
abbrev pub image : List ℕ → Option (List ℕ)
image bytes = if is_empty bytes then none else some bytes

-- ─── the pass ───

-- The numbers still to undo, the last records of the losers, the pages and the log.
pub record Undo : Type 0 where
  pub to_undo : List ℕ
  pub att : ℕ → Option ℕ
  pub pages : ℕ → Page
  pub log_manager : LogManager

-- `to_undo.insert`.
unfoldable pub insert_lsn : List ℕ → ℕ → List ℕ
insert_lsn [] lsn = lsn ∷ []
insert_lsn (x ∷ rest) lsn =
    if x == lsn then x ∷ rest else (if ltb x lsn then lsn ∷ (x ∷ rest) else x ∷ insert_lsn rest lsn)

-- Insertion of a number that is not INVALID_LSN.
unfoldable pub follow : Undo → ℕ → Undo
follow u lsn = if lsn == invalid_lsn then u else record u { to_undo = insert_lsn u.to_undo lsn }

-- `att_[tid]`, which is 0 for a transaction that is not in the table.
abbrev pub last_lsn : Undo → ℕ → ℕ
last_lsn u tid = elim (u.att tid) [ none ↦ 0 | some lsn ↦ lsn ]

-- The branch of an UPDATE record: the page, its CLR, and the record before it.
unfoldable pub undo_update : Undo → LogRecord → Undo
undo_update u r =
    let clr =
      clr_log r.txn_id (last_lsn u r.txn_id) r.page_id r.slot_id [] r.old_tuple_data r.prev_lsn in
    let (log, clr_lsn) = append u.log_manager clr in
    follow
      (record u {
        log_manager = log;
        att = update u.att r.txn_id (some clr_lsn);
        pages = update u.pages r.page_id (set_page_lsn (restore r (u.pages r.page_id)) clr_lsn);
      })
      r.prev_lsn

-- TXN_END for a transaction that is undone.
unfoldable pub end_loser : Undo → ℕ → Undo
end_loser u tid = record u {
  log_manager = (append u.log_manager (simple_record tid (last_lsn u tid) txn_end)).0;
  att = update u.att tid none;
}

unfoldable pub undo_record : Undo → LogRecord → Undo
undo_record u r =
    if is_update r.type
    then undo_update u r
    else (if is_clr r.type
        then (if r.undo_next_lsn == invalid_lsn
            then end_loser u r.txn_id
            else follow u r.undo_next_lsn)
        else (elim r.type [ begin ↦ end_loser u r.txn_id | _ ↦ follow u r.prev_lsn ]))

abbrev is_invalid : LogRecordType → Bool
is_invalid invalid = true
is_invalid _ = false

-- The loop of the pass on fuel: it ends when nothing is left, and stops at a record that cannot be
-- read. The largest number comes first.
unfoldable pub undo_loop : ℕ → Undo → Option Undo
undo_loop zero u = some u
undo_loop (suc n) u = elim u.to_undo [
  | [] ↦ some u
  | lsn ∷ rest ↦ elim (read_record_at_lsn u.log_manager lsn) [
    | none ↦ none
    | some (r, log) ↦
        let v = record u { to_undo = rest; log_manager = log } in
        elim (is_invalid r.type) [ true ↦ some v | false ↦ undo_loop n (undo_record v r) ]
  ]
]

-- The last LSNs of the losers; the table's keys are given in the order of the map.
unfoldable pub collect : (ℕ → Option ℕ) → List ℕ → List ℕ
collect att [] = []
collect att (tid ∷ tids) =
    let rest = collect att tids in
    elim (att tid) [
      | none ↦ rest
      | some lsn ↦ if lsn == invalid_lsn then rest else insert_lsn rest lsn
    ]

-- ─── restoring a page ───

update_same : (f : ℕ → Option (List ℕ)) (k : ℕ) (a : Option (List ℕ)) → f k ≡ a → update f k a ≡ f
update_same f k a e = fun_ext (λ j. elim (Bool-cases (j == k)) [
  | inl h ↦ rw h (sym e ∙ ap f (sym (==→eq j k h)))
  | inr h ↦ rw h refl
])

pub restore-read :
    (r : LogRecord) (p : Page)
    → IsValid p
    → Room p r.slot_id r.old_tuple_data
    → IsValid (restore r p)
      × (read_record (restore r p) ≡ update (read_record p) r.slot_id (image r.old_tuple_data))
unfolding restore
restore-read r p v room = elim (Bool-cases (is_empty r.old_tuple_data)) [
  | inl e ↦ let d = delete_record-read p r.slot_id 0 v in rw (restore, e) (d.0, d.2)
  | inr e ↦ elim (Bool-cases (is_empty r.new_tuple_data)) [
    | inl g ↦
        rw (restore, e, g, sized_small r.old_tuple_data (omega (arith, room.1)))
          (redo_insert-read p r.slot_id r.old_tuple_data 0 v room.0 room.1)
    | inr g ↦ rw (restore, e, g) (overwrite-read p r.slot_id r.old_tuple_data 0 v room)
  ]
]

-- Undoing a record inverts redoing it: if the slot held the before-image, every slot reads
-- afterwards as it did before the change, whatever the sizes of the images. There has to be room
-- for the new bytes on the page, and for the old ones on the page with the change.
pub restore-apply_record :
    (r : LogRecord) (p : Page)
    → IsValid p
    → Room p r.slot_id r.new_tuple_data
    → Room (apply_record r p) r.slot_id r.old_tuple_data
    → read_record p r.slot_id ≡ image r.old_tuple_data
    → IsValid (restore r (apply_record r p))
      × (read_record (restore r (apply_record r p)) ≡ read_record p)
restore-apply_record r p v room room' before =
    let a = apply_record-read r p v room in
    let b = restore-read r (apply_record r p) a.0 room' in
    (
      b.0,
      b.1
          ∙ ap (λ f. update f r.slot_id (image r.old_tuple_data)) a.1
          ∙ update-update (read_record p) r.slot_id _ (image r.old_tuple_data)
          ∙ update_same (read_record p) r.slot_id (image r.old_tuple_data) before,
    )
