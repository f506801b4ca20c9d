-- ===== src/Page/Lsn.antt =====
-- The page LSN under the record operations.
use persist_x.Base.{
  ℕ, ◌+◌, ◌^◌, ◌≡◌, ◌≤◌, ◌<◌, inl, inr, refl, ◌∙◌, arith, List, length, true, Bool-cases,
  if◌then◌else◌, ltb, ◌≢◌,
}
use persist_x.Bytes.{rd-put_outside, put}
use persist_x.Page.{
  Page, get_page_lsn, get_free_space_ptr, get_slot_count, append_data, assign_slot, write_slot,
  stamp, insert_record, delete_record, update_record, mark_tombstone, can_insert, read_slot,
  slot_tombstone, get_tombstone_count,
}
use persist_x.Page.Valid.{IsValid}
use persist_x.Page.Insert.{insert_record-bound, insert_record-room}
use persist_x.Page.Delete.{delete_record_lem}
use persist_x.Page.Update.{update_record_lem}
use persist_x.Page.Writes.{get_page_lsn-stamp, get_page_lsn-write_slot, get_page_lsn-append_data}
use persist_x.Page.Counters.{get_page_lsn-set_slot_count, get_page_lsn-set_tombstone_count}

-- What an operation that logs `lsn` may leave in the page: the larger of the two.
abbrev pub Stamped : ℕ → ℕ → ℕ → Type 0
Stamped old lsn new = new ≡ (if ltb old lsn then lsn else old)

stamp-Stamped :
    (p : Page) (lsn : ℕ) → lsn < 2 ^ 64 → Stamped (get_page_lsn p) lsn (get_page_lsn (stamp p lsn))
stamp-Stamped p lsn h = ground (arith, get_page_lsn-stamp p lsn h)

payload-lsn :
    (p : Page) (off : ℕ) (xs : List ℕ) → 21 ≤ off → get_page_lsn (put p off xs) ≡ get_page_lsn p
unfolding get_page_lsn
payload-lsn p off xs h = rd-put_outside 8 p off 13 xs (inl h)

get_page_lsn-assign_slot : (p : Page) → get_page_lsn (assign_slot p).0 ≡ get_page_lsn p
unfolding assign_slot
get_page_lsn-assign_slot p = elim (Bool-cases (ltb 0 (get_tombstone_count p))) [
  | inl e ↦ rw e (get_page_lsn-set_tombstone_count p _)
  | inr e ↦ rw e (get_page_lsn-set_slot_count p _)
]

pub insert_record_lem :
    (p : Page) (xs : List ℕ) (lsn : ℕ)
    → can_insert p (length xs) ≡ true
    → insert_record p xs lsn ≡ (
      stamp
          (write_slot
            (assign_slot (append_data p xs)).0
            (assign_slot (append_data p xs)).1
            (get_free_space_ptr p)
            (length xs))
          lsn,
      (assign_slot (append_data p xs)).1,
    )
unfolding insert_record
insert_record_lem p xs lsn e = rw e refl

-- On a valid page an insertion that can_insert lets in leaves the larger of the page's LSN and its
-- own (of 64 bits) on the page.
pub insert_record-Stamped :
    (p : Page) (xs : List ℕ) (lsn : ℕ)
    → IsValid p
    → lsn < 2 ^ 64
    → can_insert p (length xs) ≡ true
    → Stamped (get_page_lsn p) lsn (get_page_lsn (insert_record p xs lsn).0)
insert_record-Stamped p xs lsn v small can =
    let e = insert_record_lem p xs lsn can in
    let bound = rw e at (insert_record-bound p xs lsn v can) in
    let same =
      get_page_lsn-write_slot (assign_slot (append_data p xs)).0 (assign_slot (append_data p xs)).1
        (get_free_space_ptr p) (length xs) bound
      ∙ get_page_lsn-assign_slot (append_data p xs)
      ∙ get_page_lsn-append_data p xs v.header (insert_record-room p xs v can) in
    rw e (rw (← same) (stamp-Stamped _ lsn small))

pub delete_record-true :
    (p : Page) (sid lsn : ℕ)
    → (delete_record p sid lsn).1 ≡ true
    → (sid < get_slot_count p) × ((read_slot p sid).offset ≢ slot_tombstone)
unfolding delete_record
delete_record-true p sid lsn h = ground arith

pub update_record-true :
    (p : Page) (sid : ℕ) (xs : List ℕ) (lsn : ℕ)
    → (update_record p sid xs lsn).1 ≡ true
    → (sid < get_slot_count p)
      × ((read_slot p sid).offset ≢ slot_tombstone)
      × (length xs ≡ (read_slot p sid).length)
unfolding update_record
update_record-true p sid xs lsn h = ground arith

-- On a valid page a deletion that succeeds leaves the larger of the page's LSN and its own (of 64
-- bits) on the page.
pub delete_record-Stamped :
    (p : Page) (sid lsn : ℕ)
    → IsValid p
    → lsn < 2 ^ 64
    → (delete_record p sid lsn).1 ≡ true
    → Stamped (get_page_lsn p) lsn (get_page_lsn (delete_record p sid lsn).0)
unfolding mark_tombstone
delete_record-Stamped p sid lsn v small done =
    let (h, l) = delete_record-true p sid lsn done in
    let same =
      get_page_lsn-set_tombstone_count (mark_tombstone p sid) _
      ∙ get_page_lsn-write_slot p sid slot_tombstone 0 (omega (arith, v.room, v.header)) in
    rw (delete_record_lem p sid lsn h l) (rw (← same) (stamp-Stamped _ lsn small))

-- On a valid page an in-place update that succeeds leaves the larger of the page's LSN and its own
-- (of 64 bits) on the page.
pub update_record-Stamped :
    (p : Page) (sid : ℕ) (xs : List ℕ) (lsn : ℕ)
    → IsValid p
    → lsn < 2 ^ 64
    → (update_record p sid xs lsn).1 ≡ true
    → Stamped (get_page_lsn p) lsn (get_page_lsn (update_record p sid xs lsn).0)
update_record-Stamped p sid xs lsn v small done =
    let (h, l, e) = update_record-true p sid xs lsn done in
    let same =
      payload-lsn p ((read_slot p sid).offset + 2) xs (omega (arith, (v.inside sid h l).low)) in
    rw (update_record_lem p sid xs lsn h l e) (rw (← same) (stamp-Stamped _ lsn small))
