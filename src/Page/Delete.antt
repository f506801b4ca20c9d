-- ===== src/Page/Delete.antt =====
-- delete_record: the slot becomes a tombstone, and nothing else changes.
use persist_x.Base.{
  ℕ, ◌+◌, ◌≡◌, ◌≢◌, ◌≤◌, ◌<◌, ◌⊎◌, inl, inr, refl, ◌∙◌, ap, none, arith, true, false, ne→==, lt→leb,
  update, update_eq, is_some, Option-cases,
}
use persist_x.Page.{
  Page, get_slot_count, get_tombstone_count, get_free_space_ptr, set_tombstone_count, read_slot,
  slot_tombstone, read_record, delete_record, mark_tombstone, stamp,
}
use persist_x.Page.Frame.{slot_offset_lem}
use persist_x.Page.FreeSlot.{get_tombstone_count-le}
use persist_x.Page.Writes.{
  stamp_at, get_slot_count-stamp, get_tombstone_count-stamp, get_free_space_ptr-stamp,
  read_slot-stamp, write_slot_at, read_slot-write_slot_self, read_slot-write_slot_ne,
  get_slot_count-write_slot, get_tombstone_count-write_slot, get_free_space_ptr-write_slot,
}
use persist_x.Page.Counters.{
  set_tombstone_count_at, get_tombstone_count-set_tombstone_count,
  get_slot_count-set_tombstone_count, get_free_space_ptr-set_tombstone_count,
  read_slot-set_tombstone_count,
}
use persist_x.Page.Valid.{IsValid, absent_of_none, present_of_some}
use persist_x.Page.Freed.{Freed, Freed-IsValid, Freed-read}

pub delete_record_lem :
    (p : Page) (sid lsn : ℕ)
    → sid < get_slot_count p
    → (read_slot p sid).offset ≢ slot_tombstone
    → delete_record p sid lsn ≡ (
      stamp
          (set_tombstone_count
            (mark_tombstone p sid)
            (get_tombstone_count (mark_tombstone p sid) + 1))
          lsn,
      true,
    )
unfolding delete_record
delete_record_lem p sid lsn h live = rw (lt→leb _ _ h, ne→== _ _ live) refl

delete_record_absent :
    (p : Page) (sid lsn : ℕ)
    → (get_slot_count p ≤ sid) ⊎ ((read_slot p sid).offset ≡ slot_tombstone)
    → delete_record p sid lsn ≡ (p, false)
unfolding delete_record
delete_record_absent p sid lsn h = ground arith

module _ (p : Page) (sid lsn : ℕ) (v : IsValid p) (bound : sid < get_slot_count p) where
  abbrev marked : Page
  marked = mark_tombstone p sid

  marked-tombstone_count : get_tombstone_count marked ≡ get_tombstone_count p
  unfolding mark_tombstone
  marked-tombstone_count =
      get_tombstone_count-write_slot p sid slot_tombstone 0 (omega (arith, v.room, v.header))

  abbrev freed : Page
  freed = set_tombstone_count marked (get_tombstone_count marked + 1)

  small : get_slot_count p < 680
  small = omega (arith, v.room, v.header)

  delete_at : (i : ℕ) → 21 ≤ i → i < get_free_space_ptr p → stamp freed lsn i ≡ p i
  unfolding mark_tombstone
  delete_at i low high =
      stamp_at freed lsn i (inr low)
      ∙ set_tombstone_count_at marked _ i (inr (omega arith))
      ∙ write_slot_at p sid slot_tombstone 0 i
          (inl (omega (arith, small, v.room, slot_offset_lem sid)))

  delete-slot : (s : ℕ) → s < get_slot_count p → read_slot (stamp freed lsn) s ≡ read_slot marked s
  delete-slot s h =
      read_slot-stamp freed lsn s (omega (arith, small, v.header, v.room))
      ∙ read_slot-set_tombstone_count marked _ s (omega (arith, small, v.room, v.header))

  delete-Freed : Freed p (stamp freed lsn) sid
  unfolding mark_tombstone
  delete-Freed = record {
    count =
        get_slot_count-stamp freed lsn
        ∙ get_slot_count-set_tombstone_count marked _
        ∙ get_slot_count-write_slot p sid slot_tombstone 0 (omega (arith, v.room, v.header));
    tombstones =
        get_tombstone_count-stamp freed lsn
        ∙ get_tombstone_count-set_tombstone_count marked _
            (omega (arith, marked-tombstone_count, get_tombstone_count-le p v, small))
        ∙ ap (λ n. n + 1) marked-tombstone_count;
    frontier =
        get_free_space_ptr-stamp freed lsn
        ∙ get_free_space_ptr-set_tombstone_count marked _
        ∙ get_free_space_ptr-write_slot p sid slot_tombstone 0 (omega (arith, v.room, v.header));
    entry =
        ap (λ e. e.offset)
          (delete-slot sid bound
            ∙ read_slot-write_slot_self p sid slot_tombstone 0 (omega arith) (omega arith));
    elsewhere = λ s h ne.
        delete-slot s h
        ∙ read_slot-write_slot_ne p sid slot_tombstone 0 s (omega (arith, v.room, v.header))
            (omega (arith, v.room, v.header)) ne;
    same = delete_at;
  }

-- delete_record succeeds exactly when the slot holds a record. Then that record is gone and every
-- other slot reads as before; otherwise the page is unchanged. Either way the page stays valid.
pub delete_record-read :
    (p : Page) (sid lsn : ℕ)
    → IsValid p
    → IsValid (delete_record p sid lsn).0
      × ((delete_record p sid lsn).1 ≡ is_some (read_record p sid))
      × (read_record (delete_record p sid lsn).0 ≡ update (read_record p) sid none)
      × (((delete_record p sid lsn).1 ≡ true) ⊎ (delete_record p sid lsn ≡ (p, false)))
delete_record-read p sid lsn v = elim (Option-cases (read_record p sid)) [
  | inl e ↦
      rw (delete_record_absent p sid lsn (absent_of_none p sid v e)) (
        v,
        rw e refl,
        update_eq (read_record p) (read_record p) sid none e (λ j ne. refl),
        inr refl,
      )
  | inr (xs, e) ↦
      let (h, l) = present_of_some p sid e in
      let w = delete-Freed p sid lsn v h in
      rw (delete_record_lem p sid lsn h l)
        (Freed-IsValid v w h l, rw e refl, Freed-read v w h l, inl refl)
]

-- A deletion moves neither the directory nor the data frontier.
pub delete_record-frontier :
    (p : Page) (sid lsn : ℕ)
    → IsValid p
    → (get_slot_count (delete_record p sid lsn).0 ≡ get_slot_count p)
      × (get_free_space_ptr (delete_record p sid lsn).0 ≡ get_free_space_ptr p)
delete_record-frontier p sid lsn v = elim (Option-cases (read_record p sid)) [
  | inl e ↦ rw (delete_record_absent p sid lsn (absent_of_none p sid v e)) (refl, refl)
  | inr (xs, e) ↦
      let (h, l) = present_of_some p sid e in
      let w = delete-Freed p sid lsn v h in
      rw (delete_record_lem p sid lsn h l) (w.count, w.frontier)
]
