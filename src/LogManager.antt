-- ===== src/LogManager.antt =====
-- include/log_manager.hpp and src/log_manager.cpp: the write-ahead log. `file` is what is on stable
-- storage and `buffer` what a crash loses. Opening, writing and syncing the file succeed, as the
-- source takes for granted; every method runs under the mutex, so a method is one step. `none` is a
-- record whose body is shorter than its type needs: there the source reads past its buffer.
pub mod Frames
pub mod Index
pub mod Contents
pub mod Reopen
pub mod Torn
pub mod Lookup
mod Tests
use persist_x.Base.{
  ℕ, zero, suc, ◌+◌, ◌-◌, ◌%◌, ◌^◌, Bool, true, false, not, ◌&&◌, List, [], ◌∷◌, ◌++◌, Option, none,
  some, ltb, leb, ◌==◌, if◌then◌else◌, length, take, drop, update,
}
use persist_x.Types.{invalid_lsn}
use persist_x.Bytes.{from_le}
use persist_x.LogRecord.{LogRecord, default_record, set_lsn, serialize, deserialize}

pub record LogManager : Type 0 where
  pub file : List ℕ
  pub buffer : List ℕ
  pub next_lsn : ℕ
  pub flushed_lsn : ℕ
  pub write_offset : ℕ
  pub lsn_index : ℕ → Option ℕ

-- The constructor, on a file with the given bytes.
unfoldable pub open_log : List ℕ → LogManager
open_log file = record {
  file = file;
  buffer = [];
  next_lsn = 0;
  flushed_lsn = invalid_lsn;
  write_offset = length file;
  lsn_index = λ _. none;
}

unfoldable pub append : LogManager → LogRecord → LogManager × ℕ
append m r =
    let assigned_lsn = m.next_lsn in
    (
      record m {
        next_lsn = (assigned_lsn + 1) % 2 ^ 64;
        lsn_index = update m.lsn_index assigned_lsn (some (m.write_offset + length m.buffer));
        buffer = m.buffer ++ serialize (set_lsn r assigned_lsn);
      },
      assigned_lsn,
    )

abbrev pub is_empty : List ℕ → Bool
is_empty [] = true
is_empty (x ∷ xs) = false

unfoldable pub flush_all : LogManager → LogManager
flush_all m = if is_empty m.buffer then m else record m {
  file = m.file ++ m.buffer;
  flushed_lsn = if ltb 0 m.next_lsn then m.next_lsn - 1 else m.flushed_lsn;
  write_offset = m.write_offset + length m.buffer;
  buffer = [];
}

unfoldable pub flush : LogManager → ℕ → LogManager
flush m up_to_lsn =
    if not (m.flushed_lsn == invalid_lsn) && leb up_to_lsn m.flushed_lsn then m else flush_all m

-- The bytes of the next record and the bytes behind it; `some none` where the source stops reading.
-- A size below 4 is `none`: the source then copies the size into a buffer that cannot hold it.
unfoldable pub read_frame : List ℕ → Option (Option (List ℕ × List ℕ))
read_frame bs =
    if ltb (length bs) 4
    then some none
    else (let total_size = from_le (take 4 bs) in
        if ltb total_size 4
        then none
        else (let remaining = total_size - 4 in
            if ltb (length (drop 4 bs)) remaining
            then some none
            else some (some (take 4 bs ++ take remaining (drop 4 bs), drop remaining (drop 4 bs)))))

-- Puts a record in front of what the rest of the scan gave.
abbrev pub scanned :
    Option LogRecord → ℕ → Option (List (LogRecord × ℕ)) → Option (List (LogRecord × ℕ))
scanned none off rest = none
scanned (some r) off none = none
scanned (some r) off (some rest) = some ((r, off) ∷ rest)

-- The loop of read_log: each record with the file offset at which it stands.
unfoldable pub scan : ℕ → ℕ → List ℕ → Option (List (LogRecord × ℕ))
scan zero off bs = some []
scan (suc fuel) off bs = elim (read_frame bs) [
  | none ↦ none
  | some none ↦ some []
  | some (some (buf, rest)) ↦ scanned (deserialize buf) off (scan fuel (off + length buf) rest)
]

-- What read_log notes of a record it has read.
unfoldable pub note : LogManager → List (LogRecord × ℕ) → LogManager
note m [] = m
note m ((r, off) ∷ rest) =
    note
      (record m {
        lsn_index = update m.lsn_index r.lsn (some off);
        next_lsn = if leb m.next_lsn r.lsn then (r.lsn + 1) % 2 ^ 64 else m.next_lsn;
      })
      rest

abbrev pub records : List (LogRecord × ℕ) → List LogRecord
records [] = []
records ((r, off) ∷ rest) = r ∷ records rest

-- Each round takes four bytes at least, so the length of the file is fuel enough.
unfoldable pub read_log : LogManager → Option (List LogRecord × LogManager)
read_log m = elim (scan (length m.file) 0 m.file) [
  | none ↦ none
  | some found ↦ some (records found, note m found)
]

abbrev pub find_lsn : ℕ → List LogRecord → LogRecord
find_lsn target [] = default_record
find_lsn target (r ∷ rest) = if r.lsn == target then r else find_lsn target rest

abbrev pub read_at : List ℕ → Option LogRecord
read_at bs = elim (read_frame bs) [
  | none ↦ none
  | some none ↦ some default_record
  | some (some (buf, rest)) ↦ deserialize buf
]

unfoldable pub read_record_at_lsn : LogManager → ℕ → Option (LogRecord × LogManager)
read_record_at_lsn m target =
    let m' = flush_all m in
    elim (m'.lsn_index target) [
      | some off ↦ elim (read_at (drop off m'.file)) [ none ↦ none | some r ↦ some (r, m') ]
      | none ↦ elim (read_log m') [
        | none ↦ none
        | some (all_records, m'') ↦ some (find_lsn target all_records, m'')
      ]
    ]
