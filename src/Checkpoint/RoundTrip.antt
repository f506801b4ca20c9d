-- ===== src/Checkpoint/RoundTrip.antt =====
-- What the checkpoint writes is what recovery reads.
use persist_x.Base.{
  false, ℕ, ◌^◌, ◌≡◌, ◌<◌, refl, arith, List, [], ◌∷◌, ◌++◌, some, length, append_assoc, append-nil,
  All,
}
use persist_x.Bytes.{le_bytes}
use persist_x.LogRecord.{◌>>=◌}
use persist_x.LogRecord.RoundTrip.{read_int-le_bytes}
use persist_x.LogManager.{is_empty}
use persist_x.Checkpoint.{table_entries, serialize_table, serialize_att, serialize_dpt}
use persist_x.Recovery.{
  read_entries, read_table, deserialize_table, deserialize_att, deserialize_dpt,
}

-- Keys and LSNs fit their widths.
abbrev pub Fit : ℕ → List (ℕ × ℕ) → Type 0
Fit w table = All (λ e. (e.0 < 256 ^ w) × (e.1 < 256 ^ 8)) table

read_entries-table_entries :
    (w : ℕ) (table : List (ℕ × ℕ)) (rest : List ℕ)
    → Fit w table
    → read_entries w (length table) (table_entries w table ++ rest) ≡ some (table, rest)
unfolding read_entries table_entries
read_entries-table_entries w [] rest f = refl
read_entries-table_entries w ((key, lsn) ∷ table) rest (p, f) = simp (
  append_assoc,
  ◌>>=◌,
  read_int-le_bytes w key p.0,
  read_int-le_bytes 8 lsn p.1,
  read_entries-table_entries w table rest f,
)

read_table-serialize_table :
    (w : ℕ) (table : List (ℕ × ℕ))
    → Fit w table
    → length table < 256 ^ 4
    → read_table w (serialize_table w table) ≡ some (table, [])
unfolding read_table
read_table-serialize_table w table f n =
    let e = rw (append-nil (table_entries w table)) at (read_entries-table_entries w table [] f) in
    simp (◌>>=◌, read_int-le_bytes 4 (length table) n, e)

serialize_table_nonempty :
    (w : ℕ) (table : List (ℕ × ℕ)) → is_empty (serialize_table w table) ≡ false
unfolding le_bytes
serialize_table_nonempty w table = refl

deserialize_table-serialize_table :
    (w : ℕ) (table : List (ℕ × ℕ))
    → Fit w table
    → length table < 256 ^ 4
    → deserialize_table w (serialize_table w table) ≡ some table
unfolding deserialize_table
deserialize_table-serialize_table w table f n =
    rw (serialize_table_nonempty w table, read_table-serialize_table w table f n) refl

-- Both tables of a checkpoint record are read back by recovery as they were written, if they have
-- fewer than 2^28 entries and these fit their widths.
pub deserialize_att-serialize_att :
    (att dpt : List (ℕ × ℕ))
    → Fit 8 att
    → Fit 4 dpt
    → length att < 2 ^ 28
    → length dpt < 2 ^ 28
    → (deserialize_att (serialize_att att) ≡ some att)
      × (deserialize_dpt (serialize_dpt dpt) ≡ some dpt)
deserialize_att-serialize_att att dpt fa fd na nd = (
  deserialize_table-serialize_table 8 att fa (omega arith),
  deserialize_table-serialize_table 4 dpt fd (omega arith),
)
