-- ===== src/LogRecord/Tests.antt =====
-- Runs of the codec, and its theorems at concrete records.
use persist_x.Base.{ℕ, ◌≡◌, refl, arith, [], ◌∷◌, some, none, length}
use persist_x.Types.{begin}
use persist_x.Bytes.{le_bytes, from_le}
use persist_x.LogRecord.{
  LogRecord, update_log, clr_log, simple_record, set_lsn, total_size, images, serialize,
  deserialize, deserialize_at, read_bytes, read_int, read_header, read_images, read_index_key,
  read_undo_next_lsn,
}
use persist_x.LogRecord.RoundTrip.{Fits, stored, length-serialize, deserialize-serialize}

-- Opens the codec for a run.
abbrev codec : ℕ
unfolding le_bytes from_le total_size images serialize deserialize deserialize_at read_bytes
    read_int read_header read_images read_index_key read_undo_next_lsn
codec = 0

-- Transaction 3 overwrites bytes 1 2 of page 4, slot 5 by byte 9; the key is 77.
abbrev overwrite : LogRecord
overwrite = set_lsn (update_log 3 11 4 5 (1 ∷ 2 ∷ []) (9 ∷ []) 77) 12

abbrev compensation : LogRecord
compensation = clr_log 3 11 4 5 (9 ∷ []) (1 ∷ 2 ∷ []) 8

overwrite_read : deserialize (serialize overwrite) ≡ some overwrite
unfolding codec
overwrite_read = refl

compensation_read : deserialize (serialize compensation) ≡ some compensation
unfolding codec
compensation_read = refl

begin_size : length (serialize (simple_record 3 7 begin)) ≡ 29
unfolding codec
begin_size = refl

cut_short : deserialize (le_bytes 4 29) ≡ none
unfolding codec
cut_short = refl

overwrite-Fits : Fits overwrite
unfolding total_size
overwrite-Fits = record {
  lsn = omega arith;
  txn_id = omega arith;
  prev_lsn = omega arith;
  tag = refl;
  tag_byte = omega arith;
  page_id = omega arith;
  slot_id = omega arith;
  index_key = omega arith;
  undo_next_lsn = omega arith;
  size = omega arith;
}

compensation_size : length (serialize compensation) ≡ total_size compensation
compensation_size = length-serialize compensation

deserialize-serialize_example : deserialize (serialize overwrite) ≡ some (stored overwrite)
deserialize-serialize_example = deserialize-serialize overwrite overwrite-Fits
