-- ===== src/TransactionManager.antt =====
-- include/transaction.hpp, include/transaction_manager.hpp and src/transaction_manager.cpp: the
-- active transactions and their log records. A `Transaction*` is the identifier of an entry of the
-- table, `none` stands for the use of one that is not there; the order of the entries is one of
-- those that the unordered map may have.
pub mod Table
pub mod Chains
pub mod Begin
pub mod Commit
pub mod Update
mod Tests
use persist_x.Base.{ℕ, ◌+◌, ◌%◌, ◌^◌, Bool, List, [], ◌∷◌, Option, none, some, ◌==◌, if◌then◌else◌}
use persist_x.Types.{TxnState, growing, committed, invalid_lsn, begin, commit, txn_end}
use persist_x.LogRecord.{simple_record, update_log}
use persist_x.LogManager.{LogManager, append, flush}

pub record Transaction : Type 0 where
  pub txn_id : ℕ
  pub state : TxnState
  pub prev_lsn : ℕ

unfoldable pub new_transaction : ℕ → Transaction
new_transaction txn_id = record { txn_id = txn_id; state = growing; prev_lsn = invalid_lsn }

pub record TransactionManager : Type 0 where
  pub log_manager : LogManager
  pub att : List Transaction
  pub next_txn_id : ℕ

abbrev pub new_transaction_manager : LogManager → TransactionManager
new_transaction_manager log = record { log_manager = log; att = []; next_txn_id = 0 }

-- ─── the active transaction table ───

unfoldable pub find : List Transaction → ℕ → Option Transaction
find [] txn_id = none
find (t ∷ rest) txn_id = if t.txn_id == txn_id then some t else find rest txn_id

unfoldable pub assign : List Transaction → Transaction → List Transaction
assign [] txn = txn ∷ []
assign (t ∷ rest) txn = if t.txn_id == txn.txn_id then txn ∷ rest else t ∷ assign rest txn

unfoldable pub erase : List Transaction → ℕ → List Transaction
erase [] txn_id = []
erase (t ∷ rest) txn_id = if t.txn_id == txn_id then erase rest txn_id else t ∷ erase rest txn_id

unfoldable pub snapshot : List Transaction → List (ℕ × ℕ)
snapshot [] = []
snapshot (t ∷ rest) = (t.txn_id, t.prev_lsn) ∷ snapshot rest

unfoldable pub get_att_snapshot : TransactionManager → List (ℕ × ℕ)
get_att_snapshot m = snapshot m.att

-- ─── lifecycle ───

unfoldable pub begin_txn : TransactionManager → TransactionManager × ℕ
begin_txn m =
    let txn_id = m.next_txn_id in
    let (log, begin_lsn) = append m.log_manager (simple_record txn_id invalid_lsn begin) in
    (
      record {
        log_manager = log;
        att = assign m.att (record (new_transaction txn_id) { prev_lsn = begin_lsn });
        next_txn_id = (txn_id + 1) % 2 ^ 64;
      },
      txn_id,
    )

unfoldable pub commit_txn : TransactionManager → ℕ → Option TransactionManager
commit_txn m txn_id = elim (find m.att txn_id) [
  | none ↦ none
  | some txn ↦
      let (log, commit_lsn) = append m.log_manager (simple_record txn.txn_id txn.prev_lsn commit) in
      let log' = flush log commit_lsn in
      let done = record txn { prev_lsn = commit_lsn; state = committed } in
      let (log'', end_lsn) = append log' (simple_record txn.txn_id commit_lsn txn_end) in
      some (record m { log_manager = log''; att = erase (assign m.att done) txn.txn_id })
]

unfoldable pub log_update :
    TransactionManager → ℕ → ℕ → ℕ → List ℕ → List ℕ → ℕ → Option (TransactionManager × ℕ)
log_update m txn_id page_id slot_id old_data new_data index_key = elim (find m.att txn_id) [
  | none ↦ none
  | some txn ↦
      let rec = update_log txn.txn_id txn.prev_lsn page_id slot_id old_data new_data index_key in
      let (log, lsn) = append m.log_manager rec in
      some (record m { log_manager = log; att = assign m.att (record txn { prev_lsn = lsn }) }, lsn)
]
