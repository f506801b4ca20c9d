-- ===== src/Page/Memory.antt =====
-- Which bytes the page operations touch: the buffer has 4096, and memory goes on behind it.
use persist_x.Base.{
  ℕ, ◌+◌, ◌-◌, ◌^◌, ◌≡◌, ◌≤◌, ◌<◌, inl, inr, refl, ◌∙◌, arith, List, length, false, Bool-cases, ltb,
  get_or, get_or_inside, le→ltb,
}
use persist_x.Types.{page_size}
use persist_x.Bytes.{wr_outside, put_outside, put_inside}
use persist_x.Page.{
  Page, get_slot_count, get_tombstone_count, get_free_space_ptr, set_free_space_ptr, read_slot,
  append_data, insert_record, delete_record, update_record, redo_insert, mark_tombstone, can_insert,
  assign_slot, slot_tombstone, claim_slot, raise_free_space_ptr,
}
use persist_x.Page.Frame.{slot_offset_lem}
use persist_x.Page.Valid.{IsValid}
use persist_x.Page.Writes.{stamp_at, write_slot_at, append_data_at}
use persist_x.Page.Counters.{set_slot_count_at, set_tombstone_count_at}
use persist_x.Page.Insert.{insert_record-bound, insert_record-room, insert_record-full}
use persist_x.Page.Delete.{delete_record_lem}
use persist_x.Page.Update.{update_record_lem}
use persist_x.Page.Lsn.{insert_record_lem, delete_record-true, update_record-true}

delete_record-false :
    (p : Page) (sid lsn : ℕ) → (delete_record p sid lsn).1 ≡ false → (delete_record p sid lsn).0 ≡ p
unfolding delete_record
delete_record-false p sid lsn e = ground arith

update_record-false :
    (p : Page) (sid : ℕ) (xs : List ℕ) (lsn : ℕ)
    → (update_record p sid xs lsn).1 ≡ false
    → (update_record p sid xs lsn).0 ≡ p
unfolding update_record
update_record-false p sid xs lsn e = ground arith

assign_slot_at : (p : Page) (i : ℕ) → 9 ≤ i → (assign_slot p).0 i ≡ p i
unfolding assign_slot
assign_slot_at p i h = elim (Bool-cases (ltb 0 (get_tombstone_count p))) [
  | inl e ↦ rw e (set_tombstone_count_at p _ i (inr h))
  | inr e ↦ rw e (set_slot_count_at p _ i (inr (omega arith)))
]

module _ (p : Page) (v : IsValid p) (i : ℕ) (behind : page_size ≤ i) where
  insert_record-behind : (xs : List ℕ) (lsn : ℕ) → (insert_record p xs lsn).0 i ≡ p i
  insert_record-behind xs lsn = elim (Bool-cases (can_insert p (length xs))) [
    | inr e ↦ rw (insert_record-full p xs lsn e) refl
    | inl e ↦
        let eq = insert_record_lem p xs lsn e in
        let bound = rw eq at (insert_record-bound p xs lsn v e) in
        rw eq (
          stamp_at _ lsn i (inr (omega arith))
          ∙ write_slot_at _ (assign_slot (append_data p xs)).1 (get_free_space_ptr p) (length xs) i
              (inr (omega (arith, slot_offset_lem (assign_slot (append_data p xs)).1)))
          ∙ assign_slot_at (append_data p xs) i (omega arith)
          ∙ append_data_at p xs v.header (insert_record-room p xs v e) i (omega arith)
              (inr (omega (arith, insert_record-room p xs v e))))
  ]

  marked-behind : (sid : ℕ) → sid < get_slot_count p → mark_tombstone p sid i ≡ p i
  unfolding mark_tombstone
  marked-behind sid h =
      write_slot_at p sid slot_tombstone 0 i
        (inr (omega (arith, slot_offset_lem sid, v.room, v.header)))

  delete_record-behind : (sid lsn : ℕ) → (delete_record p sid lsn).0 i ≡ p i
  delete_record-behind sid lsn = elim (Bool-cases (delete_record p sid lsn).1) [
    | inl e ↦
        let (h, l) = delete_record-true p sid lsn e in
        rw (delete_record_lem p sid lsn h l) (
          stamp_at _ lsn i (inr (omega arith))
          ∙ set_tombstone_count_at _ _ i (inr (omega arith))
          ∙ marked-behind sid h)
    | inr e ↦ rw (delete_record-false p sid lsn e) refl
  ]

  update_record-behind : (sid : ℕ) (xs : List ℕ) (lsn : ℕ) → (update_record p sid xs lsn).0 i ≡ p i
  update_record-behind sid xs lsn = elim (Bool-cases (update_record p sid xs lsn).1) [
    | inl e ↦
        let (h, l, n) = update_record-true p sid xs lsn e in
        let r = v.inside sid h l in
        rw (update_record_lem p sid xs lsn h l n) (
          stamp_at _ lsn i (inr (omega arith))
          ∙ put_outside p ((read_slot p sid).offset + 2) xs i (inr (omega (arith, r.high, v.room))))
    | inr e ↦ rw (update_record-false p sid xs lsn e) refl
  ]

-- On a valid page none of the three record operations touches memory behind the page.
pub operations-behind :
    (p : Page) (i : ℕ) (xs : List ℕ) (sid lsn : ℕ)
    → IsValid p
    → page_size ≤ i
    → ((insert_record p xs lsn).0 i ≡ p i)
      × ((delete_record p sid lsn).0 i ≡ p i)
      × ((update_record p sid xs lsn).0 i ≡ p i)
operations-behind p i xs sid lsn v h = (
  insert_record-behind p v i h xs lsn,
  delete_record-behind p v i h sid lsn,
  update_record-behind p v i h sid xs lsn,
)

claim_slot_at : (p : Page) (target i : ℕ) → 9 ≤ i → claim_slot p target i ≡ p i
unfolding claim_slot
claim_slot_at p target i h = grind (
  arith,
  set_slot_count_at p (target + 1) i (inr (omega arith)),
  set_tombstone_count_at p (get_tombstone_count p + 2 ^ 16 - 1) i (inr h),
)

append_data_payload :
    (p : Page) (xs : List ℕ) (k : ℕ)
    → 21 ≤ get_free_space_ptr p
    → k < length xs
    → append_data p xs (get_free_space_ptr p + 2 + k) ≡ get_or xs k 0
unfolding append_data set_free_space_ptr
append_data_payload p xs k h lt =
    wr_outside 4 _ 9 _ (get_free_space_ptr p + 2 + k) (inr (omega arith))
    ∙ put_inside _ (get_free_space_ptr p + 2) xs k
    ∙ get_or_inside xs k _ 0 lt

-- redo_insert at a slot of a valid page checks no space: every payload byte that lies behind the
-- page is written there.
pub redo_insert-overrun :
    (p : Page) (target : ℕ) (xs : List ℕ) (lsn k : ℕ)
    → IsValid p
    → target < get_slot_count p
    → k < length xs
    → page_size ≤ get_free_space_ptr p + 2 + k
    → redo_insert p target xs lsn (get_free_space_ptr p + 2 + k) ≡ get_or xs k 0
unfolding redo_insert raise_free_space_ptr
redo_insert-overrun p target xs lsn k v h lt behind =
    rw (le→ltb (get_free_space_ptr p) 21 v.header) (
      stamp_at _ lsn (get_free_space_ptr p + 2 + k) (inr (omega arith))
      ∙ write_slot_at _ target (get_free_space_ptr p) (length xs) (get_free_space_ptr p + 2 + k)
          (inr (omega (arith, slot_offset_lem target, v.room, v.header)))
      ∙ claim_slot_at (append_data p xs) target (get_free_space_ptr p + 2 + k) (omega arith)
      ∙ append_data_payload p xs k v.header lt)
