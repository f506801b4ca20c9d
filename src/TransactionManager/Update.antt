-- ===== src/TransactionManager/Update.antt =====
-- log_update: the record, and the chain it is linked to.
use persist_x.Base.{
  ℕ, ◌+◌, ◌^◌, ◌≡◌, ◌≢◌, ◌<◌, refl, sym, ap, ◌∙◌, arith, List, [], ◌∷◌, ◌++◌, length, some,
  append_assoc,
}
use mathlib.Core.Path.{subst}
use persist_x.LogRecord.{LogRecord, set_lsn, update_log}
use persist_x.LogRecord.RoundTrip.{Fits}
use persist_x.LogManager.{append}
use persist_x.TransactionManager.{Transaction, TransactionManager, find, assign, log_update}
use persist_x.TransactionManager.Table.{find-id, find-assign_self, find-assign_other}
use persist_x.TransactionManager.Chains.{Chain, linked, Chain-append, Chain-lt, Active-assign}
use persist_x.TransactionManager.Begin.{IsValid, appended-IsValid}

update_some :
    (m : TransactionManager) (id page_id slot_id : ℕ) (old new : List ℕ) (key : ℕ) (t : Transaction)
    → find m.att id ≡ some t
    → log_update m id page_id slot_id old new key ≡ (
        let r = update_log t.txn_id t.prev_lsn page_id slot_id old new key in
        some (
          record m {
            log_manager = (append m.log_manager r).0;
            att = assign m.att (record t { prev_lsn = (append m.log_manager r).1 });
          },
          (append m.log_manager r).1,
        ))
unfolding log_update
update_some m id page_id slot_id old new key t e = rw (log_update, e) refl

-- log_update puts an UPDATE record at the end of the log, linked to the last record of its
-- transaction, and answers its number: from then on the undo chain of the transaction starts at the
-- new record. The record has to fit the format, and a number has to be left.
pub log_update-IsValid :
    (m : TransactionManager) (durable pending : List LogRecord) (id page_id slot_id : ℕ)
    (old new : List ℕ) (key : ℕ) (t : Transaction)
    → IsValid m durable pending
    → find m.att id ≡ some t
    → m.log_manager.next_lsn + 1 < 2 ^ 64
    → Fits (
        set_lsn (update_log t.txn_id t.prev_lsn page_id slot_id old new key) m.log_manager.next_lsn)
    → (m' : TransactionManager) × (log_update m id page_id slot_id old new key
        ≡ some (m', length (durable ++ pending)))
      × IsValid m' durable (
          pending
          ++ (set_lsn
                (update_log t.txn_id t.prev_lsn page_id slot_id old new key)
                m.log_manager.next_lsn
              ∷ []))
      × (find m'.att id ≡ some (record t { prev_lsn = length (durable ++ pending) }))
      × ((other : ℕ) → other ≢ id → find m'.att other ≡ find m.att other)
log_update-IsValid m durable pending id page_id slot_id old new key t v e room fits =
    let r = update_log t.txn_id t.prev_lsn page_id slot_id old new key in
    let s = set_lsn r m.log_manager.next_lsn in
    let n = length (durable ++ pending) in
    let rs = durable ++ (pending ++ (s ∷ [])) in
    let t_id : t.txn_id ≡ id = find-id m.att id t e in
    let act = v.active id t e in
    let a = appended-IsValid m durable pending r v fits room in
    let u : Transaction = record t { prev_lsn = n } in
    let old_chain : Chain rs t.txn_id t.prev_lsn =
      subst (λ k. Chain rs k t.prev_lsn) (sym t_id)
        (subst (λ q. Chain q id t.prev_lsn) (append_assoc durable pending (s ∷ []))
          (Chain-append (durable ++ pending) (s ∷ []) id t.prev_lsn act.1)) in
    let chain : Chain rs t.txn_id n =
      linked n s a.3 refl (Chain-lt (durable ++ pending) id t.prev_lsn act.1) old_chain in
    (
      record m { log_manager = (append m.log_manager r).0; att = assign m.att u },
      update_some m id page_id slot_id old new key t e
          ∙ ap
              (λ k. some (
                record m {
                  log_manager = (append m.log_manager r).0;
                  att = assign m.att (record t { prev_lsn = k });
                },
                k,
              ))
              a.2,
      record {
        logs = a.0;
        active = Active-assign rs m.att m.next_txn_id u a.1 (omega (arith, t_id, act.0)) chain;
      },
      ap (find (assign m.att u)) (sym t_id) ∙ find-assign_self m.att u,
      λ other ne. find-assign_other m.att u other (λ q. ne (q ∙ t_id)),
    )
