-- ===== src/Recovery.antt =====
-- src/recovery_manager.cpp: the tables of a checkpoint record, read back, and the analysis pass. A
-- read past the end of a table is `none`; the source does not check for it. The two tables are
-- functions from keys, `none` where the key is missing.
pub mod Analysis
pub mod Redo
pub mod Apply
pub mod Undo
mod Tests
use persist_x.Base.{
  ℕ, zero, suc, Bool, true, false, List, [], ◌∷◌, Option, none, some, ◌==◌, if◌then◌else◌, update,
}
use persist_x.Types.{
  LogRecordType, invalid, begin, commit, abort, txn_end, clr, checkpoint_begin, checkpoint_end,
  other,
}
use persist_x.LogRecord.{LogRecord, Reader, ◌>>=◌, done, read_int}
use persist_x.LogManager.{is_empty}

unfoldable pub read_entries : ℕ → ℕ → Reader (List (ℕ × ℕ))
read_entries w zero = done []
read_entries w (suc count) = do
  key ← read_int w
  lsn ← read_int 8
  rest ← read_entries w count
  done ((key, lsn) ∷ rest)

unfoldable pub read_table : ℕ → Reader (List (ℕ × ℕ))
read_table w = do count ← read_int 4; read_entries w count

unfoldable pub deserialize_table : ℕ → List ℕ → Option (List (ℕ × ℕ))
deserialize_table w bytes =
    if is_empty bytes
    then some []
    else elim (read_table w bytes) [ none ↦ none | some (table, rest) ↦ some table ]

abbrev pub deserialize_att : List ℕ → Option (List (ℕ × ℕ))
deserialize_att bytes = deserialize_table 8 bytes

abbrev pub deserialize_dpt : List ℕ → Option (List (ℕ × ℕ))
deserialize_dpt bytes = deserialize_table 4 bytes

-- ─── analysis ───

pub record Tables : Type 0 where
  pub att : ℕ → Option ℕ
  pub dpt : ℕ → Option ℕ

-- What recover clears the tables to.
abbrev pub no_tables : Tables
no_tables = record { att = λ _. none; dpt = λ _. none }

-- `for (auto &[key, lsn] : entries) table[key] = lsn;`
unfoldable pub seed : (ℕ → Option ℕ) → List (ℕ × ℕ) → ℕ → Option ℕ
seed table [] = table
seed table ((key, lsn) ∷ rest) = seed (update table key (some lsn)) rest

abbrev pub is_checkpoint_end : LogRecordType → Bool
is_checkpoint_end checkpoint_end = true
is_checkpoint_end _ = false

-- The last CHECKPOINT_END and the records behind it.
unfoldable pub last_checkpoint : List LogRecord → Option (LogRecord × List LogRecord)
last_checkpoint [] = none
last_checkpoint (r ∷ rs) = elim (last_checkpoint rs) [
  | some found ↦ some found
  | none ↦ if is_checkpoint_end r.type then some (r, rs) else none
]

unfoldable pub add_if_missing : (ℕ → Option ℕ) → ℕ → ℕ → ℕ → Option ℕ
add_if_missing table key lsn = elim (table key) [
  | none ↦ update table key (some lsn)
  | some found ↦ table
]

-- The switch of the forward scan.
unfoldable pub analyze_type : Tables → LogRecord → LogRecordType → Tables
analyze_type t r begin = record t { att = update t.att r.txn_id (some r.lsn) }
analyze_type t r commit = record t { att = update t.att r.txn_id none }
analyze_type t r txn_end = record t { att = update t.att r.txn_id none }
analyze_type t r LogRecordType.update = record {
  att = update t.att r.txn_id (some r.lsn);
  dpt = add_if_missing t.dpt r.page_id r.lsn;
}
analyze_type t r clr = record {
  att = update t.att r.txn_id (some r.lsn);
  dpt = add_if_missing t.dpt r.page_id r.lsn;
}
analyze_type t r abort = record t { att = update t.att r.txn_id (some r.lsn) }
analyze_type t r _ = t

unfoldable pub scan_forward : Tables → List LogRecord → Tables
scan_forward t [] = t
scan_forward t (r ∷ rs) = scan_forward (analyze_type t r r.type) rs

unfoldable pub seed_tables : Tables → LogRecord → Option Tables
seed_tables t ckpt = elim (deserialize_att ckpt.old_tuple_data) [
  | none ↦ none
  | some att ↦ elim (deserialize_dpt ckpt.new_tuple_data) [
    | none ↦ none
    | some dpt ↦ some (record { att = seed t.att att; dpt = seed t.dpt dpt })
  ]
]

-- The pass over the records that read_log returned.
unfoldable pub analyze : Tables → List LogRecord → Option Tables
analyze t records = elim (last_checkpoint records) [
  | none ↦ some (scan_forward t records)
  | some (ckpt, rest) ↦ elim (seed_tables t ckpt) [
    | none ↦ none
    | some seeded ↦ some (scan_forward seeded rest)
  ]
]
