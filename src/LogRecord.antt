-- ===== src/LogRecord.antt =====
-- include/log_record.hpp: a record of the write-ahead log and its binary format. An int64_t key is
-- its 64-bit pattern. A read past the end of the bytes handed to deserialize is `none`; the source
-- does not check for it.
pub mod RoundTrip
mod Tests
use persist_x.Base.{
  ℕ, zero, suc, ◌+◌, ◌-◌, ◌%◌, ◌^◌, Bool, true, false, List, [], ◌++◌, Option, none, some, ltb,
  ◌==◌, if◌then◌else◌, length, take, drop,
}
use persist_x.Types.{
  LogRecordType, invalid, begin, update, commit, abort, txn_end, clr, checkpoint_begin,
  checkpoint_end, other, type_tag, invalid_lsn, invalid_txn_id, invalid_page_id, invalid_slot_id,
}
use persist_x.Bytes.{le_bytes, from_le}

pub record LogRecord : Type 0 where
  pub lsn : ℕ
  pub txn_id : ℕ
  pub prev_lsn : ℕ
  pub type : LogRecordType
  pub page_id : ℕ
  pub slot_id : ℕ
  pub index_key : ℕ
  pub old_tuple_data : List ℕ
  pub new_tuple_data : List ℕ
  pub undo_next_lsn : ℕ

-- ─── constructors ───

abbrev pub default_record : LogRecord
default_record = record {
  lsn = invalid_lsn;
  txn_id = invalid_txn_id;
  prev_lsn = invalid_lsn;
  type = invalid;
  page_id = invalid_page_id;
  slot_id = invalid_slot_id;
  index_key = 0;
  old_tuple_data = [];
  new_tuple_data = [];
  undo_next_lsn = invalid_lsn;
}

abbrev pub simple_record : ℕ → ℕ → LogRecordType → LogRecord
simple_record txn_id prev_lsn type = record default_record {
  txn_id = txn_id;
  prev_lsn = prev_lsn;
  type = type;
}

abbrev pub update_log : ℕ → ℕ → ℕ → ℕ → List ℕ → List ℕ → ℕ → LogRecord
update_log txn_id prev_lsn page_id slot_id old_data new_data index_key = record default_record {
  txn_id = txn_id;
  prev_lsn = prev_lsn;
  type = update;
  page_id = page_id;
  slot_id = slot_id;
  index_key = index_key;
  old_tuple_data = old_data;
  new_tuple_data = new_data;
}

abbrev pub clr_log : ℕ → ℕ → ℕ → ℕ → List ℕ → List ℕ → ℕ → LogRecord
clr_log txn_id prev_lsn page_id slot_id old_data new_data undo_next_lsn = record default_record {
  txn_id = txn_id;
  prev_lsn = prev_lsn;
  type = clr;
  page_id = page_id;
  slot_id = slot_id;
  old_tuple_data = old_data;
  new_tuple_data = new_data;
  undo_next_lsn = undo_next_lsn;
}

abbrev pub checkpoint_record : LogRecordType → List ℕ → List ℕ → LogRecord
checkpoint_record type att_data dpt_data = record default_record {
  type = type;
  old_tuple_data = att_data;
  new_tuple_data = dpt_data;
}

abbrev pub set_lsn : LogRecord → ℕ → LogRecord
set_lsn r lsn = record r { lsn = lsn }

-- ─── serialize ───

abbrev pub has_images : LogRecordType → Bool
has_images update = true
has_images clr = true
has_images checkpoint_end = true
has_images _ = false

abbrev pub is_update : LogRecordType → Bool
is_update update = true
is_update _ = false

abbrev pub is_clr : LogRecordType → Bool
is_clr clr = true
is_clr _ = false

unfoldable pub total_size : LogRecord → ℕ
total_size r =
    29
    + (if has_images r.type
        then 6 + (4 + length r.old_tuple_data) + (4 + length r.new_tuple_data)
        else 0)
    + (if is_update r.type then 8 else 0)
    + (if is_clr r.type then 8 else 0)

unfoldable pub images : LogRecord → List ℕ
images r =
    le_bytes 4 r.page_id
    ++ (le_bytes 2 r.slot_id
        ++ (le_bytes 4 (length r.old_tuple_data)
            ++ (r.old_tuple_data ++ (le_bytes 4 (length r.new_tuple_data) ++ r.new_tuple_data))))

unfoldable pub serialize : LogRecord → List ℕ
serialize r =
    le_bytes 4 (total_size r)
    ++ (le_bytes 8 r.lsn
        ++ (le_bytes 8 r.txn_id
            ++ (le_bytes 8 r.prev_lsn
                ++ (le_bytes 1 (type_tag r.type)
                    ++ ((if has_images r.type then images r else [])
                        ++ ((if is_update r.type then le_bytes 8 r.index_key else [])
                            ++ (if is_clr r.type then le_bytes 8 r.undo_next_lsn else [])))))))

-- ─── deserialize ───

-- A reader of the bytes at `data[offset]`, which moves the offset on.
abbrev pub Reader : Type 0 → Type 0
Reader A = List ℕ → Option (A × List ℕ)

infixl 5 ◌>>=◌
abbrev pub ◌>>=◌ : {A B : Type 0} → Reader A → (A → Reader B) → Reader B
◌>>=◌ m f bs = elim (m bs) [ none ↦ none | some (a, rest) ↦ f a rest ]

abbrev pub done : {A : Type 0} → A → Reader A
done a bs = some (a, bs)

unfoldable pub read_bytes : ℕ → Reader (List ℕ)
read_bytes n bs = if ltb (length bs) n then none else some (take n bs, drop n bs)

unfoldable pub read_int : ℕ → Reader ℕ
read_int w bs = if ltb (length bs) w then none else some (from_le (take w bs), drop w bs)

abbrev pub type_of_tag : ℕ → LogRecordType
type_of_tag zero = invalid
type_of_tag (suc zero) = begin
type_of_tag (suc (suc zero)) = update
type_of_tag (suc (suc (suc zero))) = commit
type_of_tag (suc (suc (suc (suc zero)))) = abort
type_of_tag (suc (suc (suc (suc (suc zero))))) = txn_end
type_of_tag (suc (suc (suc (suc (suc (suc zero)))))) = clr
type_of_tag (suc (suc (suc (suc (suc (suc (suc zero))))))) = checkpoint_begin
type_of_tag (suc (suc (suc (suc (suc (suc (suc (suc zero)))))))) = checkpoint_end
type_of_tag (suc (suc (suc (suc (suc (suc (suc (suc (suc n))))))))) = other (n + 9)

unfoldable pub read_header : Reader LogRecord
read_header = do
  _ ← read_int 4
  lsn ← read_int 8
  txn_id ← read_int 8
  prev_lsn ← read_int 8
  tb ← read_int 1
  done (record default_record {
    lsn = lsn;
    txn_id = txn_id;
    prev_lsn = prev_lsn;
    type = type_of_tag tb;
  })

unfoldable pub read_images : LogRecord → Reader LogRecord
read_images r = do
  page_id ← read_int 4
  slot_id ← read_int 2
  old_sz ← read_int 4
  old_data ← read_bytes old_sz
  new_sz ← read_int 4
  new_data ← read_bytes new_sz
  done (record r {
    page_id = page_id;
    slot_id = slot_id;
    old_tuple_data = old_data;
    new_tuple_data = new_data;
  })

unfoldable pub read_index_key : LogRecord → Reader LogRecord
read_index_key r = do index_key ← read_int 8; done (record r { index_key = index_key })

unfoldable pub read_undo_next_lsn : LogRecord → Reader LogRecord
read_undo_next_lsn r = do
  undo_next_lsn ← read_int 8
  done (record r { undo_next_lsn = undo_next_lsn })

unfoldable pub deserialize_at : Reader LogRecord
deserialize_at = do
  h ← read_header
  r ← if has_images h.type then read_images h else done h
  s ← if is_update r.type then read_index_key r else done r
  if is_clr s.type then read_undo_next_lsn s else done s

unfoldable pub deserialize : List ℕ → Option LogRecord
deserialize bs = elim (deserialize_at bs) [ none ↦ none | some (r, rest) ↦ some r ]
