-- ===== src/Page/Init.antt =====
-- init: the header of a fresh page.
use persist_x.Base.{ℕ, ◌^◌, ◌≡◌, ◌<◌, none, arith}
use persist_x.Types.{PageType, page_type_tag}
use persist_x.Bytes.{rd-wr_self, rd-wr_outside}
use persist_x.Page.{
  Page, get_page_id, get_page_type, get_slot_count, get_tombstone_count, get_free_space_ptr,
  get_page_lsn, set_page_id, set_page_type, set_slot_count, set_tombstone_count, set_free_space_ptr,
  set_page_lsn, init, read_record,
}
use persist_x.Page.Valid.{IsValid, empty_page-IsValid, read_record_beyond}

page_type_tag-lt : (t : PageType) → page_type_tag t < 256
page_type_tag-lt t = ground arith

module _ (p : Page) (page_id : ℕ) (t : PageType) where
  init-page_id : page_id < 2 ^ 32 → get_page_id (init p page_id t) ≡ page_id
  unfolding init get_page_id set_page_id set_page_type set_slot_count set_tombstone_count
      set_free_space_ptr set_page_lsn
  init-page_id h = grind (arith, rd-wr_self, rd-wr_outside)

  init-page_type : get_page_type (init p page_id t) ≡ page_type_tag t
  unfolding init get_page_type set_page_id set_page_type set_slot_count set_tombstone_count
      set_free_space_ptr set_page_lsn
  init-page_type = grind (arith, rd-wr_self, rd-wr_outside, page_type_tag-lt t)

  init-slot_count : get_slot_count (init p page_id t) ≡ 0
  unfolding init get_slot_count set_page_id set_page_type set_slot_count set_tombstone_count
      set_free_space_ptr set_page_lsn
  init-slot_count = grind (arith, rd-wr_self, rd-wr_outside)

  init-tombstone_count : get_tombstone_count (init p page_id t) ≡ 0
  unfolding init get_tombstone_count set_page_id set_page_type set_slot_count set_tombstone_count
      set_free_space_ptr set_page_lsn
  init-tombstone_count = grind (arith, rd-wr_self, rd-wr_outside)

  init-free_space_ptr : get_free_space_ptr (init p page_id t) ≡ 21
  unfolding init get_free_space_ptr set_page_id set_page_type set_slot_count set_tombstone_count
      set_free_space_ptr set_page_lsn
  init-free_space_ptr = grind (arith, rd-wr_self, rd-wr_outside)

  init-page_lsn : get_page_lsn (init p page_id t) ≡ 0
  unfolding init get_page_lsn set_page_lsn
  init-page_lsn = rd-wr_self 8 _ 13 0 (omega arith)

  initial-IsValid : IsValid (init p page_id t)
  initial-IsValid =
      empty_page-IsValid (init p page_id t) init-slot_count init-tombstone_count init-free_space_ptr

-- Whatever the buffer held, init leaves a valid page with the given identifier (of 32 bits) and
-- type, LSN 0, and no record in any slot.
pub init-IsValid :
    (p : Page) (page_id : ℕ) (t : PageType)
    → page_id < 2 ^ 32
    → IsValid (init p page_id t)
      × (get_page_id (init p page_id t) ≡ page_id)
      × (get_page_type (init p page_id t) ≡ page_type_tag t)
      × (get_page_lsn (init p page_id t) ≡ 0)
      × ((s : ℕ) → read_record (init p page_id t) s ≡ none)
init-IsValid p page_id t h = (
  initial-IsValid p page_id t,
  init-page_id p page_id t h,
  init-page_type p page_id t,
  init-page_lsn p page_id t,
  λ s. read_record_beyond _ s (omega (arith, init-slot_count p page_id t)),
)
