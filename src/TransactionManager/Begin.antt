-- ===== src/TransactionManager/Begin.antt =====
-- What the calls of the transaction manager share: a log record that keeps the chains; and begin.
use persist_x.Base.{
  ℕ, ◌+◌, ◌^◌, ◌≡◌, ◌<◌, refl, sym, ◌∙◌, arith, false, List, [], ◌∷◌, ◌++◌, length, some,
  append_assoc, length-append,
}
use mathlib.Core.Path.{subst}
use persist_x.Types.{LogRecordType, begin, invalid_lsn, type_tag, growing}
use persist_x.LogRecord.{
  LogRecord, set_lsn, simple_record, total_size, type_of_tag, has_images, is_update, is_clr,
}
use persist_x.LogRecord.RoundTrip.{Fits}
use persist_x.LogManager.{append}
use persist_x.LogManager.Contents.{Logs, append-Logs}
use persist_x.TransactionManager.{
  Transaction, TransactionManager, find, assign, begin_txn, new_transaction,
}
use persist_x.TransactionManager.Table.{find-assign_self}
use persist_x.TransactionManager.Chains.{
  Stands, Stands-last, Chain, started, Active, Active-append, Active-assign,
}

-- The manager with the records of its log: what is on stable storage, and what is not yet.
pub record IsValid (m : TransactionManager) (durable pending : List LogRecord) : Type 0 where
  pub logs : Logs m.log_manager durable pending
  pub active : Active (durable ++ pending) m.att m.next_txn_id

-- A record without images fits the format if its numbers do.
pub simple-Fits :
    (lsn txn_id prev_lsn : ℕ) (type : LogRecordType)
    → type_of_tag (type_tag type) ≡ type
    → type_tag type < 256
    → has_images type ≡ false
    → lsn < 2 ^ 64
    → txn_id < 2 ^ 64
    → prev_lsn < 2 ^ 64
    → is_update type ≡ false
    → is_clr type ≡ false
    → Fits (set_lsn (simple_record txn_id prev_lsn type) lsn)
simple-Fits lsn txn_id prev_lsn type tag byte no_images h i j u c = record {
  lsn = h;
  txn_id = i;
  prev_lsn = j;
  tag = tag;
  tag_byte = byte;
  page_id = omega arith;
  slot_id = omega arith;
  index_key = omega arith;
  undo_next_lsn = omega arith;
  size = unfold total_size in rw (no_images, u, c) (omega arith);
}

-- A call of append: the log, and the chains of the table, which nothing shortens.
pub appended-IsValid :
    (m : TransactionManager) (durable pending : List LogRecord) (r : LogRecord)
    → IsValid m durable pending
    → Fits (set_lsn r m.log_manager.next_lsn)
    → m.log_manager.next_lsn + 1 < 2 ^ 64
    → Logs (append m.log_manager r).0 durable (pending ++ (set_lsn r m.log_manager.next_lsn ∷ []))
      × Active (durable ++ (pending ++ (set_lsn r m.log_manager.next_lsn ∷ []))) m.att m.next_txn_id
      × ((append m.log_manager r).1 ≡ length (durable ++ pending))
      × Stands
          (durable ++ (pending ++ (set_lsn r m.log_manager.next_lsn ∷ [])))
          (length (durable ++ pending))
          (set_lsn r m.log_manager.next_lsn)
appended-IsValid m durable pending r v fits room =
    let s = set_lsn r m.log_manager.next_lsn in
    let l = append-Logs m.log_manager durable pending r v.logs fits room in
    let e = append_assoc durable pending (s ∷ []) in
    (
      l.0,
      subst (λ rs. Active rs m.att m.next_txn_id) e
          (Active-append (durable ++ pending) (s ∷ []) m.att m.next_txn_id v.active),
      l.1 ∙ sym (length-append durable pending),
      subst (λ rs. Stands rs (length (durable ++ pending)) s) e
          (Stands-last (durable ++ pending) s),
    )

-- begin writes a BEGIN record at the end of the log and enters the transaction, whose undo chain is
-- that record. The identifier is the next one; everything that was in the log stays.
pub begin_txn-IsValid :
    (m : TransactionManager) (durable pending : List LogRecord)
    → IsValid m durable pending
    → m.log_manager.next_lsn + 1 < 2 ^ 64
    → m.next_txn_id + 1 < 2 ^ 64
    → IsValid (begin_txn m).0 durable (
        pending
        ++ (set_lsn (simple_record m.next_txn_id invalid_lsn begin) m.log_manager.next_lsn ∷ []))
      × ((begin_txn m).1 ≡ m.next_txn_id)
      × ((t : Transaction) × (find (begin_txn m).0.att m.next_txn_id ≡ some t)
          × (t.state ≡ growing)
          × (t.prev_lsn ≡ length (durable ++ pending)))
unfolding begin_txn new_transaction
begin_txn-IsValid m durable pending v room ids =
    let r = simple_record m.next_txn_id invalid_lsn begin in
    let s = set_lsn r m.log_manager.next_lsn in
    let fits =
      simple-Fits m.log_manager.next_lsn m.next_txn_id invalid_lsn begin refl (omega arith) refl
        (omega (arith, room)) (omega (arith, ids)) (omega arith) refl refl in
    let a = appended-IsValid m durable pending r v fits room in
    let t : Transaction = record {
      txn_id = m.next_txn_id;
      state = growing;
      prev_lsn = (append m.log_manager r).1;
    } in
    let rs = durable ++ (pending ++ (s ∷ [])) in
    let chain : Chain rs m.next_txn_id (append m.log_manager r).1 =
      subst (Chain rs m.next_txn_id) (sym a.2)
        (started (length (durable ++ pending)) s a.3 refl refl refl) in
    let later : Active rs m.att (m.next_txn_id + 1) =
      λ id u e. let k = a.1 id u e in (omega (arith, k.0), k.1) in
    (
      record {
        logs = a.0;
        active =
            subst (Active rs (assign m.att t)) (omega (arith, ids))
              (Active-assign rs m.att (m.next_txn_id + 1) t later (omega arith) chain);
      },
      refl,
      (t, find-assign_self m.att t, refl, a.2),
    )
