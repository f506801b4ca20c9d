-- ===== src/TransactionManager/Tests.antt =====
-- A transaction that begins, logs one change and commits.
use persist_x.Base.{ℕ, ◌≡◌, ◌≢◌, ◌<◌, refl, arith, List, [], ◌∷◌, ◌++◌, length, none, some}
use persist_x.Types.{growing, begin, invalid_lsn}
use persist_x.LogRecord.{LogRecord, simple_record, update_log, set_lsn, total_size}
use persist_x.LogRecord.RoundTrip.{Fits}
use persist_x.LogManager.{open_log, append}
use persist_x.LogManager.Contents.{open_log-Logs}
use persist_x.TransactionManager.{
  Transaction, TransactionManager, new_transaction_manager, find, assign, begin_txn, commit_txn,
  log_update, new_transaction, get_att_snapshot, snapshot,
}
use persist_x.TransactionManager.Begin.{IsValid, begin_txn-IsValid}
use persist_x.TransactionManager.Commit.{commit_records, commit_txn-durable}
use persist_x.TransactionManager.Update.{log_update-IsValid}

abbrev start : TransactionManager
start = new_transaction_manager (open_log [])

start-IsValid : IsValid start [] []
unfolding find
start-IsValid = record { logs = open_log-Logs; active = λ id t e. absurd (cc e) }

abbrev begun : TransactionManager
begun = (begin_txn start).0

abbrev begin_record : LogRecord
begin_record = set_lsn (simple_record 0 invalid_lsn begin) 0

begun-IsValid : IsValid begun [] (begin_record ∷ [])
unfolding open_log
begun-IsValid = (begin_txn-IsValid start [] [] start-IsValid (omega arith) (omega arith)).0

abbrev txn : Transaction
txn = record { txn_id = 0; state = growing; prev_lsn = 0 }

found : find begun.att 0 ≡ some txn
unfolding begin_txn append open_log new_transaction find assign
found = refl

commit_txn-durable_example :
    (m' : TransactionManager) × (durable' : List LogRecord) × (pending' : List LogRecord)
    × (commit_txn begun 0 ≡ some m')
    × IsValid m' durable' pending'
    × (durable' ++ pending' ≡ (begin_record ∷ []) ++ commit_records 1 txn)
    × (1 < length durable')
    × (find m'.att 0 ≡ none)
    × ((other : ℕ) → other ≢ 0 → find m'.att other ≡ find begun.att other)
unfolding begin_txn append open_log
commit_txn-durable_example =
    commit_txn-durable begun [] (begin_record ∷ []) 0 txn begun-IsValid found (omega arith)
      (omega arith)

abbrev change : LogRecord
change = set_lsn (update_log 0 0 4 2 [] (65 ∷ []) 7) 1

change-Fits : Fits change
change-Fits = record {
  lsn = omega arith;
  txn_id = omega arith;
  prev_lsn = omega arith;
  tag = refl;
  tag_byte = omega arith;
  page_id = omega arith;
  slot_id = omega arith;
  index_key = omega arith;
  undo_next_lsn = omega arith;
  size = unfold total_size in omega arith;
}

log_update-IsValid_example :
    (m' : TransactionManager) × (log_update begun 0 4 2 [] (65 ∷ []) 7 ≡ some (m', 1))
    × IsValid m' [] (begin_record ∷ (change ∷ []))
    × (find m'.att 0 ≡ some (record txn { prev_lsn = 1 }))
    × ((other : ℕ) → other ≢ 0 → find m'.att other ≡ find begun.att other)
unfolding begin_txn append open_log
log_update-IsValid_example =
    log_update-IsValid begun [] (begin_record ∷ []) 0 4 2 [] (65 ∷ []) 7 txn begun-IsValid found
      (omega arith) change-Fits

-- The snapshot of a running transaction.
snapshot_begun : get_att_snapshot begun ≡ (0, 0) ∷ []
unfolding begin_txn append open_log new_transaction assign get_att_snapshot snapshot
snapshot_begun = refl
