-- ===== src/Types.antt =====
-- include/common.hpp: page geometry, sentinels, tags and record identifiers. Identifiers are plain
-- numbers; the width of each is written where a value is stored.
use persist_x.Base.{ℕ, Bool, ◌&&◌, not, ◌==◌}

abbrev pub page_size : ℕ
page_size = 4096

abbrev pub invalid_page_id : ℕ
invalid_page_id = 0xffff_ffff

abbrev pub invalid_slot_id : ℕ
invalid_slot_id = 0xffff

abbrev pub invalid_lsn : ℕ
invalid_lsn = 0xffff_ffff_ffff_ffff

abbrev pub invalid_txn_id : ℕ
invalid_txn_id = 0xffff_ffff_ffff_ffff

-- `data` is a keyword here, so the page of records is `data_page`.
pub data PageType : Type 0 where
  meta data_page index wal : PageType

abbrev pub page_type_tag : PageType → ℕ
page_type_tag meta = 0
page_type_tag data_page = 1
page_type_tag index = 2
page_type_tag wal = 3

pub data TxnState : Type 0 where
  growing committed aborted : TxnState

pub record Rid : Type 0 where
  pub page_id : ℕ
  pub slot_id : ℕ

abbrev pub invalid_rid : Rid
invalid_rid = record { page_id = invalid_page_id; slot_id = invalid_slot_id }

abbrev pub is_valid : Rid → Bool
is_valid r = not (r.page_id == invalid_page_id) && not (r.slot_id == invalid_slot_id)

-- A byte read back as a LogRecordType need not be an enumerator: `other` holds those bytes.
pub data LogRecordType : Type 0 where
  invalid begin update commit abort txn_end clr checkpoint_begin checkpoint_end : LogRecordType
  other : ℕ → LogRecordType

abbrev pub type_tag : LogRecordType → ℕ
type_tag invalid = 0
type_tag begin = 1
type_tag update = 2
type_tag commit = 3
type_tag abort = 4
type_tag txn_end = 5
type_tag clr = 6
type_tag checkpoint_begin = 7
type_tag checkpoint_end = 8
type_tag (other n) = n
