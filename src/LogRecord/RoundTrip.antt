-- ===== src/LogRecord/RoundTrip.antt =====
-- serialize and deserialize.
use persist_x.Base.{
  ℕ, Bool, true, false, ◌^◌, ◌≡◌, ◌<◌, refl, arith, List, [], ◌++◌, some, length, length-append,
  take-append_length, drop-append_length, append_assoc, append-nil, if◌then◌else◌, le→ltb,
  Bool-cases, inl, inr,
}
use persist_x.Types.{type_tag, invalid_lsn, invalid_page_id, invalid_slot_id}
use persist_x.Bytes.{le_bytes, length-le_bytes, from_le-le_bytes}
use persist_x.LogRecord.{
  LogRecord, done, default_record, total_size, images, serialize, deserialize, deserialize_at,
  read_int, read_bytes, read_header, read_images, ◌>>=◌, read_index_key, read_undo_next_lsn,
  has_images, is_update, is_clr, type_of_tag,
}

pub read_int-le_bytes :
    (w v : ℕ) → v < 256 ^ w → (rest : List ℕ) → read_int w (le_bytes w v ++ rest) ≡ some (v, rest)
unfolding read_int
read_int-le_bytes w v h rest =
    let n = length-le_bytes w v in
    rw
      (
        le→ltb (length (le_bytes w v ++ rest)) w
            (omega (arith, length-append (le_bytes w v) rest, n)),
        take-append_length w (le_bytes w v) rest n,
        drop-append_length w (le_bytes w v) rest n,
        from_le-le_bytes w v h,
      )
      refl

read_bytes-append : (xs rest : List ℕ) → read_bytes (length xs) (xs ++ rest) ≡ some (xs, rest)
unfolding read_bytes
read_bytes-append xs rest =
    rw
      (
        le→ltb (length (xs ++ rest)) (length xs) (omega (arith, length-append xs rest)),
        take-append_length (length xs) xs rest refl,
        drop-append_length (length xs) xs rest refl,
      )
      refl

-- Every field fits its width on disk.
pub record Fits (r : LogRecord) : Type 0 where
  pub lsn : r.lsn < 256 ^ 8
  pub txn_id : r.txn_id < 256 ^ 8
  pub prev_lsn : r.prev_lsn < 256 ^ 8
  pub tag : type_of_tag (type_tag r.type) ≡ r.type
  pub tag_byte : type_tag r.type < 256 ^ 1
  pub page_id : r.page_id < 256 ^ 4
  pub slot_id : r.slot_id < 256 ^ 2
  pub index_key : r.index_key < 256 ^ 8
  pub undo_next_lsn : r.undo_next_lsn < 256 ^ 8
  pub size : total_size r < 256 ^ 4

-- What the format keeps of a record: the fields that its type does not carry become defaults.
abbrev pub stored : LogRecord → LogRecord
stored r = record r {
  page_id = if has_images r.type then r.page_id else invalid_page_id;
  slot_id = if has_images r.type then r.slot_id else invalid_slot_id;
  old_tuple_data = if has_images r.type then r.old_tuple_data else [];
  new_tuple_data = if has_images r.type then r.new_tuple_data else [];
  index_key = if is_update r.type then r.index_key else 0;
  undo_next_lsn = if is_clr r.type then r.undo_next_lsn else invalid_lsn;
}

abbrev tail_bytes : LogRecord → List ℕ
tail_bytes r =
    (if is_update r.type then le_bytes 8 r.index_key else [])
    ++ (if is_clr r.type then le_bytes 8 r.undo_next_lsn else [])

abbrev header_only : LogRecord → LogRecord
header_only r = record default_record {
  lsn = r.lsn;
  txn_id = r.txn_id;
  prev_lsn = r.prev_lsn;
  type = r.type;
}

module _ (r : LogRecord) (f : Fits r) (rest : List ℕ) where
  read_header-serialize :
      read_header (serialize r ++ rest)
      ≡ some (header_only r, (if has_images r.type then images r else []) ++ (tail_bytes r ++ rest))
  unfolding read_header serialize
  read_header-serialize = simp (
    append_assoc,
    ◌>>=◌,
    read_int-le_bytes 4 (total_size r) f.size,
    read_int-le_bytes 8 r.lsn f.lsn,
    read_int-le_bytes 8 r.txn_id f.txn_id,
    read_int-le_bytes 8 r.prev_lsn f.prev_lsn,
    read_int-le_bytes 1 (type_tag r.type) f.tag_byte,
    f.tag,
  )

  old_size :
      has_images r.type ≡ true
      → (length r.old_tuple_data < 256 ^ 4) × (length r.new_tuple_data < 256 ^ 4)
  old_size e = let s = f.size in unfold total_size in ground (arith, s)

  read_images-images :
      (h : LogRecord) (more : List ℕ)
      → has_images r.type ≡ true
      → read_images h (images r ++ more)
        ≡ some (
          record h {
            page_id = r.page_id;
            slot_id = r.slot_id;
            old_tuple_data = r.old_tuple_data;
            new_tuple_data = r.new_tuple_data;
          },
          more,
        )
  unfolding read_images images
  read_images-images h more e = simp (
    append_assoc,
    ◌>>=◌,
    read_int-le_bytes 4 r.page_id f.page_id,
    read_int-le_bytes 2 r.slot_id f.slot_id,
    read_int-le_bytes 4 (length r.old_tuple_data) (old_size e).0,
    read_int-le_bytes 4 (length r.new_tuple_data) (old_size e).1,
    read_bytes-append,
  )

  abbrev with_images : LogRecord
  with_images = record (header_only r) {
    page_id = if has_images r.type then r.page_id else invalid_page_id;
    slot_id = if has_images r.type then r.slot_id else invalid_slot_id;
    old_tuple_data = if has_images r.type then r.old_tuple_data else [];
    new_tuple_data = if has_images r.type then r.new_tuple_data else [];
  }

  abbrev with_key : LogRecord
  with_key = record with_images { index_key = if is_update r.type then r.index_key else 0 }

  images_step :
      (more : List ℕ)
      → (if has_images r.type then read_images (header_only r) else done (header_only r))
          ((if has_images r.type then images r else []) ++ more)
        ≡ some (with_images, more)
  images_step more = elim (Bool-cases (has_images r.type)) [
    | inl e ↦ rw e (read_images-images (header_only r) more e)
    | inr e ↦ rw e refl
  ]

  key_step :
      (more : List ℕ)
      → (if is_update r.type then read_index_key with_images else done with_images)
          ((if is_update r.type then le_bytes 8 r.index_key else []) ++ more)
        ≡ some (with_key, more)
  unfolding read_index_key
  key_step more = elim (Bool-cases (is_update r.type)) [
    | inl e ↦ rw e (simp (◌>>=◌, read_int-le_bytes 8 r.index_key f.index_key))
    | inr e ↦ rw e refl
  ]

  undo_step :
      (more : List ℕ)
      → (if is_clr r.type then read_undo_next_lsn with_key else done with_key)
          ((if is_clr r.type then le_bytes 8 r.undo_next_lsn else []) ++ more)
        ≡ some (stored r, more)
  unfolding read_undo_next_lsn
  undo_step more = elim (Bool-cases (is_clr r.type)) [
    | inl e ↦ rw e (simp (◌>>=◌, read_int-le_bytes 8 r.undo_next_lsn f.undo_next_lsn))
    | inr e ↦ rw e refl
  ]

  -- The bytes of a record with anything behind them are read back as what the format keeps of the
  -- record, and the reader stops at its end.
  pub deserialize_at-serialize : deserialize_at (serialize r ++ rest) ≡ some (stored r, rest)
  unfolding deserialize_at
  deserialize_at-serialize =
      simp (◌>>=◌, read_header-serialize, images_step, append_assoc, key_step, undo_step)

length-if : (b : Bool) (xs : List ℕ) → length (if b then xs else []) ≡ (if b then length xs else 0)
length-if true xs = refl
length-if false xs = refl

-- The size prefix that serialize writes is the number of bytes it writes.
pub length-serialize : (r : LogRecord) → length (serialize r) ≡ total_size r
unfolding serialize total_size images
length-serialize r = simp (length-append, length-le_bytes, length-if) (ground arith)

-- Reading back the bytes of a record whose fields fit their widths gives the record, less the
-- fields that its type does not carry, which become defaults.
pub deserialize-serialize : (r : LogRecord) → Fits r → deserialize (serialize r) ≡ some (stored r)
unfolding deserialize
deserialize-serialize r f =
    let e = append-nil (serialize r) in
    let read = rw e at (deserialize_at-serialize r f []) in rw (read, deserialize) refl
