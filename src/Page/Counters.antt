-- ===== src/Page/Counters.antt =====
-- The two counters of the header: what setting one does to the other fields.
use persist_x.Base.{ℕ, ◌%◌, ◌^◌, ◌≡◌, ◌≤◌, ◌<◌, ◌⊎◌, inl, inr, arith}
use persist_x.Bytes.{rd-wr_self, rd-wr_u16, rd-wr_outside, wr_outside}
use persist_x.Page.{
  Page, get_slot_count, get_tombstone_count, get_free_space_ptr, get_page_lsn, set_slot_count,
  set_tombstone_count, read_slot,
}
use persist_x.Page.Frame.{slot_offset_lem}

module _ (p : Page) (n : ℕ) where
  pub set_slot_count_at : (i : ℕ) → (i < 5) ⊎ (7 ≤ i) → set_slot_count p n i ≡ p i
  unfolding set_slot_count
  set_slot_count_at i h = wr_outside 2 p 5 n i h

  pub set_tombstone_count_at : (i : ℕ) → (i < 7) ⊎ (9 ≤ i) → set_tombstone_count p n i ≡ p i
  unfolding set_tombstone_count
  set_tombstone_count_at i h = wr_outside 2 p 7 n i h

  pub get_slot_count-set_slot_count : n < 2 ^ 16 → get_slot_count (set_slot_count p n) ≡ n
  unfolding get_slot_count set_slot_count
  get_slot_count-set_slot_count h = rd-wr_self 2 p 5 n h

  pub get_tombstone_count-set_tombstone_count :
      n < 2 ^ 16 → get_tombstone_count (set_tombstone_count p n) ≡ n
  unfolding get_tombstone_count set_tombstone_count
  get_tombstone_count-set_tombstone_count h = rd-wr_self 2 p 7 n h

  pub get_slot_count-set_tombstone_count :
      get_slot_count (set_tombstone_count p n) ≡ get_slot_count p
  unfolding get_slot_count set_tombstone_count
  get_slot_count-set_tombstone_count = rd-wr_outside 2 2 p 7 5 n (inl (omega arith))

  pub get_tombstone_count-set_slot_count :
      get_tombstone_count (set_slot_count p n) ≡ get_tombstone_count p
  unfolding get_tombstone_count set_slot_count
  get_tombstone_count-set_slot_count = rd-wr_outside 2 2 p 5 7 n (inr (omega arith))

  pub get_free_space_ptr-set_slot_count :
      get_free_space_ptr (set_slot_count p n) ≡ get_free_space_ptr p
  unfolding get_free_space_ptr set_slot_count
  get_free_space_ptr-set_slot_count = rd-wr_outside 4 2 p 5 9 n (inr (omega arith))

  pub get_free_space_ptr-set_tombstone_count :
      get_free_space_ptr (set_tombstone_count p n) ≡ get_free_space_ptr p
  unfolding get_free_space_ptr set_tombstone_count
  get_free_space_ptr-set_tombstone_count = rd-wr_outside 4 2 p 7 9 n (inr (omega arith))

  pub get_page_lsn-set_slot_count : get_page_lsn (set_slot_count p n) ≡ get_page_lsn p
  unfolding get_page_lsn set_slot_count
  get_page_lsn-set_slot_count = rd-wr_outside 8 2 p 5 13 n (inr (omega arith))

  pub get_page_lsn-set_tombstone_count : get_page_lsn (set_tombstone_count p n) ≡ get_page_lsn p
  unfolding get_page_lsn set_tombstone_count
  get_page_lsn-set_tombstone_count = rd-wr_outside 8 2 p 7 13 n (inr (omega arith))

  pub read_slot-set_slot_count :
      (s : ℕ) → s < 679 → read_slot (set_slot_count p n) s ≡ read_slot p s
  unfolding read_slot set_slot_count
  read_slot-set_slot_count s h = grind (arith, rd-wr_outside, slot_offset_lem s)

  pub read_slot-set_tombstone_count :
      (s : ℕ) → s < 679 → read_slot (set_tombstone_count p n) s ≡ read_slot p s
  unfolding read_slot set_tombstone_count
  read_slot-set_tombstone_count s h = grind (arith, rd-wr_outside, slot_offset_lem s)

-- A counter is a uint16_t.
pub get_tombstone_count-set_tombstone_count_wrap :
    (p : Page) (n : ℕ) → get_tombstone_count (set_tombstone_count p n) ≡ n % 2 ^ 16
unfolding get_tombstone_count set_tombstone_count
get_tombstone_count-set_tombstone_count_wrap p n = rd-wr_u16 p 7 n
