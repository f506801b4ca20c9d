-- ===== src/LogManager/Tests.antt =====
-- The log manager's theorems on a log of two records, the first of them in the file.
use persist_x.Base.{ℕ, ◌^◌, ◌≡◌, ◌<◌, ◌++◌, refl, arith, List, [], ◌∷◌, none, some, length}
use mathlib.Core.List.{map}
use persist_x.Types.{LogRecordType, type_tag, begin, commit}
use persist_x.LogRecord.{LogRecord, simple_record, set_lsn, total_size, type_of_tag}
use persist_x.LogRecord.RoundTrip.{Fits, stored}
use persist_x.LogManager.{
  LogManager, open_log, append, flush, flush_all, read_frame, read_log, read_record_at_lsn, scan,
}
use persist_x.LogManager.Frames.{frames, entries, Torn, length-frames, scan-frames}
use persist_x.LogManager.Index.{Indexed}
use persist_x.LogManager.Contents.{Logs, open_log-Logs, append-Logs, flush_all-Logs, flush-durable}
use persist_x.LogManager.Reopen.{read_log_after_crash, reopen-Logs}
use persist_x.Bytes.{le_bytes, from_le}
use persist_x.LogRecord.{serialize}
use persist_x.LogManager.Torn.{append-behind_torn}
use persist_x.LogManager.Lookup.{read_record_at_lsn-lookup}

abbrev begun : LogRecord
begun = simple_record 3 9 begin

abbrev committed : LogRecord
committed = simple_record 3 0 commit

abbrev first : LogRecord
first = set_lsn begun 0

abbrev second : LogRecord
second = set_lsn committed 1

-- Four zero bytes are the size of no record.
zero_tail : read_log (open_log (0 ∷ 0 ∷ 0 ∷ 0 ∷ [])) ≡ none
unfolding open_log read_log scan read_frame from_le
zero_tail = refl

marker-Fits :
    (prev lsn : ℕ) (t : LogRecordType)
    → prev < 256 ^ 8
    → lsn < 256 ^ 8
    → type_of_tag (type_tag t) ≡ t
    → total_size (set_lsn (simple_record 3 prev t) lsn) ≡ 29
    → type_tag t < 256
    → Fits (set_lsn (simple_record 3 prev t) lsn)
marker-Fits prev lsn t hp hl tag size byte = record {
  lsn = omega arith;
  txn_id = omega arith;
  prev_lsn = omega arith;
  tag = tag;
  tag_byte = omega arith;
  page_id = omega arith;
  slot_id = omega arith;
  index_key = omega arith;
  undo_next_lsn = omega arith;
  size = omega arith;
}

marker_size : (total_size first ≡ 29) × (total_size second ≡ 29)
unfolding total_size
marker_size = (refl, refl)

first-Fits : Fits first
first-Fits = marker-Fits 9 0 begin (omega arith) (omega arith) refl marker_size.0 (omega arith)

second-Fits : Fits second
second-Fits = marker-Fits 0 1 commit (omega arith) (omega arith) refl marker_size.1 (omega arith)

-- An empty log, one record in its buffer, then in its file, then a second in the buffer.
abbrev empty_log : LogManager
empty_log = open_log []

abbrev one_pending : LogManager
one_pending = (append empty_log begun).0

abbrev one_durable : LogManager
one_durable = flush_all one_pending

abbrev mixed : LogManager
mixed = (append one_durable committed).0

one_pending-Logs : Logs one_pending [] (first ∷ [])
unfolding open_log
one_pending-Logs = (append-Logs empty_log [] [] begun open_log-Logs first-Fits (omega arith)).0

one_durable-Logs : Logs one_durable (first ∷ []) []
one_durable-Logs = flush_all-Logs one_pending [] (first ∷ []) one_pending-Logs

next : one_durable.next_lsn ≡ 1
next = one_durable-Logs.next_lsn

second_number : set_lsn committed one_durable.next_lsn ≡ second
second_number = rw next refl

committed-Fits : Fits (set_lsn committed one_durable.next_lsn)
committed-Fits = rw next second-Fits

mixed-Logs : Logs mixed (first ∷ []) (set_lsn committed one_durable.next_lsn ∷ [])
mixed-Logs =
    (append-Logs one_durable (first ∷ []) [] committed one_durable-Logs committed-Fits
      (omega (arith, next))).0

append-Logs_example :
    Logs mixed (first ∷ []) (set_lsn committed one_durable.next_lsn ∷ [])
    × ((append one_durable committed).1 ≡ 1)
append-Logs_example =
    append-Logs one_durable (first ∷ []) [] committed one_durable-Logs committed-Fits
      (omega (arith, next))

flush-durable_example :
    (durable' : List LogRecord) × (pending' : List LogRecord) × Logs
      (flush one_pending 0)
      durable'
      pending'
    × (durable' ++ pending' ≡ first ∷ [])
    × (0 < length durable')
flush-durable_example =
    flush-durable one_pending [] (first ∷ []) 0 one_pending-Logs
      (omega (arith, one_pending-Logs.next_lsn))

-- Three bytes cannot even hold a size.
three_bytes-Torn : Torn (1 ∷ 2 ∷ 3 ∷ [])
unfolding read_frame
three_bytes-Torn = refl

scan-frames_example :
    scan 100 0 (frames (first ∷ second ∷ []) ++ (1 ∷ 2 ∷ 3 ∷ []))
    ≡ some (entries 0 (first ∷ second ∷ []))
scan-frames_example =
    scan-frames 100 0 (first ∷ second ∷ []) (1 ∷ 2 ∷ 3 ∷ []) (first-Fits, (second-Fits, tt))
      three_bytes-Torn
      (omega (arith, length-frames first (second ∷ []), length-frames second [], marker_size))

read_log_after_crash_example :
    (m' : LogManager) × (read_log (open_log (mixed.file ++ (1 ∷ 2 ∷ 3 ∷ [])))
      ≡ some (map stored (first ∷ []), m'))
    × (m'.next_lsn ≡ 1)
    × Indexed m'.lsn_index 0 0 (first ∷ [])
read_log_after_crash_example =
    read_log_after_crash mixed (first ∷ []) (set_lsn committed one_durable.next_lsn ∷ [])
      (1 ∷ 2 ∷ 3 ∷ []) mixed-Logs three_bytes-Torn (omega arith)

reopen-Logs_example :
    (m' : LogManager) × (read_log (open_log one_durable.file) ≡ some (map stored (first ∷ []), m'))
    × Logs m' (first ∷ []) []
reopen-Logs_example = reopen-Logs one_durable (first ∷ []) one_durable-Logs (omega arith)

read_record_at_lsn-lookup_example :
    (read_record_at_lsn mixed 0 ≡ some (stored first, flush_all mixed))
    × Logs (flush_all mixed) (first ∷ set_lsn committed one_durable.next_lsn ∷ []) []
read_record_at_lsn-lookup_example =
    read_record_at_lsn-lookup mixed (first ∷ []) (set_lsn committed one_durable.next_lsn ∷ []) []
      first (set_lsn committed one_durable.next_lsn ∷ []) mixed-Logs refl

-- A file that holds the size 100 and three bytes.
abbrev torn_log : LogManager
torn_log = open_log (le_bytes 4 100 ++ (1 ∷ 2 ∷ 3 ∷ []))

torn_log_facts :
    (torn_log.file ≡ frames [] ++ (le_bytes 4 100 ++ (1 ∷ 2 ∷ 3 ∷ [])))
    × (torn_log.buffer ≡ [])
    × (total_size (set_lsn begun torn_log.next_lsn) ≡ 29)
unfolding open_log total_size
torn_log_facts = (refl, refl, refl)

append-behind_torn_example :
    (m' : LogManager) × ((flush_all (append torn_log begun).0).file
      ≡ torn_log.file ++ serialize (set_lsn begun torn_log.next_lsn))
    × (read_log (open_log (flush_all (append torn_log begun).0).file) ≡ some ([], m'))
append-behind_torn_example =
    append-behind_torn torn_log [] 100 (1 ∷ 2 ∷ 3 ∷ []) begun torn_log_facts.0 torn_log_facts.1 tt
      (omega arith) (omega (arith, torn_log_facts.2))
