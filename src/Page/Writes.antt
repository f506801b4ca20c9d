-- ===== src/Page/Writes.antt =====
-- The effect of the single writes of src/page.cpp on each field of the page: the stamp, a slot
-- entry, and a record at the data frontier.
use persist_x.Base.{ℕ, ◌+◌, ◌*◌, ◌^◌, ◌≡◌, ◌≢◌, ◌≤◌, ◌<◌, ◌⊎◌, inl, inr, arith, List, length}
use persist_x.Bytes.{
  rd, peek, rd_cong, peek-put_self, rd-wr_self, rd-wr_outside, rd-put_outside, wr_outside,
  put_outside, peek-wr_outside,
}
use persist_x.Page.{
  Page, get_slot_count, get_tombstone_count, get_free_space_ptr, get_page_lsn, set_page_lsn,
  set_free_space_ptr, read_slot, write_slot, append_data, stamp, slot_offset,
}
use persist_x.Page.Frame.{slot_offset_lem}

pub stamp_at : (p : Page) (lsn i : ℕ) → (i < 13) ⊎ (21 ≤ i) → stamp p lsn i ≡ p i
unfolding stamp set_page_lsn
stamp_at p lsn i h = ground (arith, wr_outside 8 p 13 lsn i h)

pub get_slot_count-stamp : (p : Page) (lsn : ℕ) → get_slot_count (stamp p lsn) ≡ get_slot_count p
unfolding get_slot_count
get_slot_count-stamp p lsn = rd_cong 2 _ p 5 (λ k lo hi. stamp_at p lsn k (inl (omega arith)))

pub get_tombstone_count-stamp :
    (p : Page) (lsn : ℕ) → get_tombstone_count (stamp p lsn) ≡ get_tombstone_count p
unfolding get_tombstone_count
get_tombstone_count-stamp p lsn = rd_cong 2 _ p 7 (λ k lo hi. stamp_at p lsn k (inl (omega arith)))

pub get_free_space_ptr-stamp :
    (p : Page) (lsn : ℕ) → get_free_space_ptr (stamp p lsn) ≡ get_free_space_ptr p
unfolding get_free_space_ptr
get_free_space_ptr-stamp p lsn = rd_cong 4 _ p 9 (λ k lo hi. stamp_at p lsn k (inl (omega arith)))

pub read_slot-stamp : (p : Page) (lsn s : ℕ) → s < 679 → read_slot (stamp p lsn) s ≡ read_slot p s
unfolding read_slot
read_slot-stamp p lsn s h = ground (
  arith,
  slot_offset_lem s,
  rd_cong 4 (stamp p lsn) p (slot_offset s)
      (λ k lo hi. stamp_at p lsn k (inr (omega (arith, slot_offset_lem s)))),
  rd_cong 2 (stamp p lsn) p (slot_offset s + 4)
      (λ k lo hi. stamp_at p lsn k (inr (omega (arith, slot_offset_lem s)))),
)

-- The stamp is the larger of the two LSNs.
pub get_page_lsn-stamp :
    (p : Page) (lsn : ℕ)
    → lsn < 2 ^ 64
    → (get_page_lsn p ≤ get_page_lsn (stamp p lsn))
      × (lsn ≤ get_page_lsn (stamp p lsn))
      × ((get_page_lsn (stamp p lsn) ≡ get_page_lsn p) ⊎ (get_page_lsn (stamp p lsn) ≡ lsn))
unfolding stamp get_page_lsn set_page_lsn
get_page_lsn-stamp p lsn h = ground (arith, rd-wr_self 8 p 13 lsn)

-- ─── write_slot ───

pub write_slot_at :
    (p : Page) (s off len i : ℕ)
    → (i < slot_offset s) ⊎ (slot_offset s + 6 ≤ i)
    → write_slot p s off len i ≡ p i
unfolding write_slot
write_slot_at p s off len i h = grind (arith, wr_outside)

pub read_slot-write_slot_self :
    (p : Page) (s off len : ℕ)
    → off < 2 ^ 32
    → len < 2 ^ 16
    → read_slot (write_slot p s off len) s ≡ record { offset = off; length = len }
unfolding read_slot write_slot
read_slot-write_slot_self p s off len h k = grind (arith, rd-wr_self, rd-wr_outside)

pub read_slot-write_slot_ne :
    (p : Page) (s off len t : ℕ)
    → s < 679
    → t < 679
    → t ≢ s
    → read_slot (write_slot p s off len) t ≡ read_slot p t
unfolding read_slot write_slot
read_slot-write_slot_ne p s off len t h k ne =
    grind (arith, rd-wr_outside, slot_offset_lem s, slot_offset_lem t)

pub get_slot_count-write_slot :
    (p : Page) (s off len : ℕ)
    → s < 679
    → get_slot_count (write_slot p s off len) ≡ get_slot_count p
unfolding get_slot_count write_slot
get_slot_count-write_slot p s off len h = grind (arith, rd-wr_outside, slot_offset_lem s)

pub get_tombstone_count-write_slot :
    (p : Page) (s off len : ℕ)
    → s < 679
    → get_tombstone_count (write_slot p s off len) ≡ get_tombstone_count p
unfolding get_tombstone_count write_slot
get_tombstone_count-write_slot p s off len h = grind (arith, rd-wr_outside, slot_offset_lem s)

pub get_free_space_ptr-write_slot :
    (p : Page) (s off len : ℕ)
    → s < 679
    → get_free_space_ptr (write_slot p s off len) ≡ get_free_space_ptr p
unfolding get_free_space_ptr write_slot
get_free_space_ptr-write_slot p s off len h = grind (arith, rd-wr_outside, slot_offset_lem s)

pub get_page_lsn-write_slot :
    (p : Page) (s off len : ℕ) → s < 679 → get_page_lsn (write_slot p s off len) ≡ get_page_lsn p
unfolding get_page_lsn write_slot
get_page_lsn-write_slot p s off len h = grind (arith, rd-wr_outside, slot_offset_lem s)

-- ─── append_data ───

module _ (p : Page) (xs : List ℕ) (header : 21 ≤ get_free_space_ptr p)
    (room : get_free_space_ptr p + 2 + length xs ≤ 4096) where
  pub append_data_at :
      (i : ℕ)
      → 21 ≤ i
      → (i < get_free_space_ptr p) ⊎ (get_free_space_ptr p + 2 + length xs ≤ i)
      → append_data p xs i ≡ p i
  unfolding append_data get_free_space_ptr set_free_space_ptr
  append_data_at i low h = grind (arith, wr_outside, put_outside)

  pub get_free_space_ptr-append_data :
      get_free_space_ptr (append_data p xs) ≡ get_free_space_ptr p + 2 + length xs
  unfolding append_data get_free_space_ptr set_free_space_ptr
  get_free_space_ptr-append_data =
      unfold get_free_space_ptr set_free_space_ptr in rd-wr_self 4 _ 9 _ (omega arith)

  pub get_slot_count-append_data : get_slot_count (append_data p xs) ≡ get_slot_count p
  unfolding get_slot_count append_data get_free_space_ptr set_free_space_ptr
  get_slot_count-append_data = grind (arith, rd-wr_outside, rd-put_outside)

  pub get_tombstone_count-append_data :
      get_tombstone_count (append_data p xs) ≡ get_tombstone_count p
  unfolding get_tombstone_count append_data get_free_space_ptr set_free_space_ptr
  get_tombstone_count-append_data = grind (arith, rd-wr_outside, rd-put_outside)

  pub get_page_lsn-append_data : get_page_lsn (append_data p xs) ≡ get_page_lsn p
  unfolding get_page_lsn append_data get_free_space_ptr set_free_space_ptr
  get_page_lsn-append_data = grind (arith, rd-wr_outside, rd-put_outside)

  pub prefix-append_data : rd 2 (append_data p xs) (get_free_space_ptr p) ≡ length xs
  unfolding append_data get_free_space_ptr set_free_space_ptr
  prefix-append_data = grind (arith, rd-wr_outside, rd-put_outside, rd-wr_self)

  pub payload-append_data : peek (append_data p xs) (get_free_space_ptr p + 2) (length xs) ≡ xs
  unfolding append_data get_free_space_ptr set_free_space_ptr
  payload-append_data = grind (arith, peek-wr_outside, peek-put_self)

  pub read_slot-append_data :
      (s : ℕ)
      → get_free_space_ptr p + 2 + length xs + 6 * (s + 1) ≤ 4096
      → read_slot (append_data p xs) s ≡ read_slot p s
  unfolding read_slot append_data get_free_space_ptr set_free_space_ptr
  read_slot-append_data s h = grind (arith, rd-wr_outside, rd-put_outside, slot_offset_lem s)
