-- ===== src/Page/Place.antt =====
-- The common end of insert_record and redo_insert: once the record is appended and the counters
-- are updated, writing the slot and stamping the page places the record.
use persist_x.Base.{ℕ, ◌+◌, ◌*◌, ◌≡◌, ◌≢◌, ◌≤◌, ◌<◌, inl, inr, ◌∙◌, arith, List, length}
use persist_x.Bytes.{rd_cong, peek_cong}
use persist_x.Page.{
  Page, get_slot_count, get_tombstone_count, get_free_space_ptr, read_slot, write_slot, append_data,
  stamp, slot_offset,
}
use persist_x.Page.Frame.{slot_offset_lem}
use persist_x.Page.Writes.{
  stamp_at, get_slot_count-stamp, get_tombstone_count-stamp, get_free_space_ptr-stamp,
  read_slot-stamp, write_slot_at, read_slot-write_slot_self, read_slot-write_slot_ne,
  get_slot_count-write_slot, get_tombstone_count-write_slot, get_free_space_ptr-write_slot,
  append_data_at, get_free_space_ptr-append_data, prefix-append_data, payload-append_data,
  read_slot-append_data,
}
use persist_x.Page.Placed.{Placed, Counts, grown, reused}

module _ (p b : Page) (sid : ℕ) (xs : List ℕ) (lsn : ℕ) (header : 21 ≤ get_free_space_ptr p)
    (room : get_free_space_ptr p + 2 + length xs + 6 * get_slot_count b ≤ 4096)
    (same : (i : ℕ) → 21 ≤ i → b i ≡ append_data p xs i)
    (frontier : get_free_space_ptr b ≡ get_free_space_ptr (append_data p xs))
    (bound : sid < get_slot_count b) (counts : Counts p b sid) where
  abbrev written : Page
  written = write_slot b sid (get_free_space_ptr p) (length xs)

  place_at :
      (i : ℕ)
      → 21 ≤ i
      → i < get_free_space_ptr p + 2 + length xs
      → stamp written lsn i ≡ append_data p xs i
  place_at i low high =
      stamp_at written lsn i (inr low)
      ∙ write_slot_at b sid (get_free_space_ptr p) (length xs) i
          (inl (omega (arith, slot_offset_lem sid)))
      ∙ same i low

  place-slot_count : get_slot_count (stamp written lsn) ≡ get_slot_count b
  place-slot_count =
      get_slot_count-stamp written lsn
      ∙ get_slot_count-write_slot b sid (get_free_space_ptr p) (length xs) (omega arith)

  place-tombstone_count : get_tombstone_count (stamp written lsn) ≡ get_tombstone_count b
  place-tombstone_count =
      get_tombstone_count-stamp written lsn
      ∙ get_tombstone_count-write_slot b sid (get_free_space_ptr p) (length xs) (omega arith)

  place-Counts : Counts p b sid → Counts p (stamp written lsn) sid
  place-Counts (grown e c t) = grown e (place-slot_count ∙ c) (place-tombstone_count ∙ t)
  place-Counts (reused h c t) = reused h (place-slot_count ∙ c) (rw place-tombstone_count t)

  place-frontier : get_free_space_ptr (stamp written lsn) ≡ get_free_space_ptr p + 2 + length xs
  place-frontier =
      get_free_space_ptr-stamp written lsn
      ∙ get_free_space_ptr-write_slot b sid (get_free_space_ptr p) (length xs) (omega arith)
      ∙ frontier
      ∙ get_free_space_ptr-append_data p xs header (omega arith)

  read_slot-same : (s : ℕ) → s < get_slot_count b → read_slot b s ≡ read_slot (append_data p xs) s
  unfolding read_slot
  read_slot-same s h = ground (
    arith,
    rd_cong 4 b (append_data p xs) (slot_offset s)
        (λ k lo hi. same k (omega (arith, slot_offset_lem s))),
    rd_cong 2 b (append_data p xs) (slot_offset s + 4)
        (λ k lo hi. same k (omega (arith, slot_offset_lem s))),
  )

  place-elsewhere :
      (s : ℕ) → s < get_slot_count b → s ≢ sid → read_slot (stamp written lsn) s ≡ read_slot p s
  place-elsewhere s h ne =
      read_slot-stamp written lsn s (omega arith)
      ∙ read_slot-write_slot_ne b sid (get_free_space_ptr p) (length xs) s (omega arith)
          (omega arith) ne
      ∙ read_slot-same s h
      ∙ read_slot-append_data p xs header (omega arith) s (omega arith)

  pub place-Placed : Placed p (stamp written lsn) sid xs
  place-Placed = record {
    counts = place-Counts counts;
    room = omega (arith, place-frontier, place-slot_count);
    frontier = place-frontier;
    entry =
        read_slot-stamp written lsn sid (omega arith)
        ∙ read_slot-write_slot_self b sid (get_free_space_ptr p) (length xs) (omega arith)
            (omega arith);
    elsewhere = λ s h ne. place-elsewhere s (rw place-slot_count at h) ne;
    below = λ i low h.
        place_at i low (omega arith) ∙ append_data_at p xs header (omega arith) i low (inl h);
    prefix =
        rd_cong 2 (stamp written lsn) (append_data p xs) (get_free_space_ptr p)
          (λ k lo hi. place_at k (omega arith) (omega arith))
        ∙ prefix-append_data p xs header (omega arith);
    payload =
        peek_cong (stamp written lsn) (append_data p xs) (get_free_space_ptr p + 2)
          (get_free_space_ptr p + 2) (length xs)
          (λ k lt. place_at (get_free_space_ptr p + 2 + k) (omega arith) (omega arith))
        ∙ payload-append_data p xs header (omega arith);
  }
