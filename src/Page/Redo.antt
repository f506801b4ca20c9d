-- ===== src/Page/Redo.antt =====
-- redo_insert: the insertion at a given slot, which recovery and undo use. It checks no space: the
-- room it needs is a hypothesis here.
use persist_x.Base.{
  ℕ, ◌+◌, ◌-◌, ◌*◌, ◌^◌, ◌≡◌, ◌≢◌, ◌≤◌, ◌<◌, inr, refl, ◌∙◌, some, arith, List, length, ℕ_discrete,
  dec_lt, le→leb, lt→leb, le→ltb, eq→==, ne→==, update, update_eq, if◌then◌else◌, ltb,
}
use persist_x.Page.{
  Page, get_slot_count, get_tombstone_count, get_free_space_ptr, set_slot_count,
  set_tombstone_count, read_slot, read_record, append_data, write_slot, stamp, redo_insert,
  raise_free_space_ptr, claim_slot, slot_tombstone,
}
use persist_x.Page.Valid.{IsValid}
use persist_x.Page.FreeSlot.{get_tombstone_count-le, get_tombstone_count_pos}
use persist_x.Page.Writes.{
  get_slot_count-append_data, get_tombstone_count-append_data, read_slot-append_data,
}
use persist_x.Page.Counters.{
  set_slot_count_at, set_tombstone_count_at, get_slot_count-set_slot_count,
  get_tombstone_count-set_slot_count, get_free_space_ptr-set_slot_count,
  get_slot_count-set_tombstone_count, get_free_space_ptr-set_tombstone_count,
  get_tombstone_count-set_tombstone_count_wrap,
}
use persist_x.Page.Placed.{
  Placed, grown, reused, Placed-IsValid, read_record-Placed_self, read_record-Placed_ne,
}
use persist_x.Page.Place.{place-Placed}

module _ (p : Page) (target : ℕ) (xs : List ℕ) (lsn : ℕ) (v : IsValid p) where
  -- A valid page needs no raised pointer.
  redo_insert_lem :
      redo_insert p target xs lsn
      ≡ stamp
          (write_slot
            (claim_slot (append_data p xs) target)
            target
            (get_free_space_ptr p)
            (length xs))
          lsn
  unfolding redo_insert raise_free_space_ptr
  redo_insert_lem = rw (le→ltb (get_free_space_ptr p) 21 v.header) refl

  module _ (room : get_free_space_ptr p + 2 + length xs + 6 * get_slot_count p ≤ 4096) where
    redo-slot_count : get_slot_count (append_data p xs) ≡ get_slot_count p
    redo-slot_count = get_slot_count-append_data p xs v.header (omega arith)

    redo-tombstone_count : get_tombstone_count (append_data p xs) ≡ get_tombstone_count p
    redo-tombstone_count = get_tombstone_count-append_data p xs v.header (omega arith)

    claim_new :
        target ≡ get_slot_count p
        → claim_slot (append_data p xs) target ≡ set_slot_count (append_data p xs) (target + 1)
    unfolding claim_slot
    claim_new e =
        rw (le→leb (get_slot_count (append_data p xs)) target (omega (arith, redo-slot_count))) refl

    claim_free :
        target < get_slot_count p
        → (read_slot p target).offset ≡ slot_tombstone
        → claim_slot (append_data p xs) target
          ≡ set_tombstone_count
              (append_data p xs)
              (get_tombstone_count (append_data p xs) + 2 ^ 16 - 1)
    unfolding claim_slot
    claim_free h e =
        rw
          (
            lt→leb (get_slot_count (append_data p xs)) target (omega (arith, redo-slot_count)),
            read_slot-append_data p xs v.header (omega arith) target (omega arith),
            eq→== _ _ e,
          )
          refl

    claim_live :
        target < get_slot_count p
        → (read_slot p target).offset ≢ slot_tombstone
        → claim_slot (append_data p xs) target ≡ append_data p xs
    unfolding claim_slot
    claim_live h ne =
        rw
          (
            lt→leb (get_slot_count (append_data p xs)) target (omega (arith, redo-slot_count)),
            read_slot-append_data p xs v.header (omega arith) target (omega arith),
            ne→== _ _ ne,
          )
          refl

    redo_new-Placed :
        target ≡ get_slot_count p
        → get_free_space_ptr p + 2 + length xs + 6 * (target + 1) ≤ 4096
        → Placed p (redo_insert p target xs lsn) target xs
    redo_new-Placed e more =
        let count =
          get_slot_count-set_slot_count (append_data p xs) (target + 1) (omega (arith, v.header)) in
        rw (redo_insert_lem, claim_new e)
          (place-Placed p _ target xs lsn v.header (omega (arith, count, more))
            (λ i low. set_slot_count_at _ _ i (inr (omega arith)))
            (get_free_space_ptr-set_slot_count _ _) (omega (arith, count))
            (grown e (omega (arith, count))
              (get_tombstone_count-set_slot_count _ _ ∙ redo-tombstone_count)))

    redo_free-Placed :
        (h : target < get_slot_count p)
        → (read_slot p target).offset ≡ slot_tombstone
        → Placed p (redo_insert p target xs lsn) target xs
    redo_free-Placed h e =
        let count =
          get_slot_count-set_tombstone_count (append_data p xs)
            (get_tombstone_count (append_data p xs) + 2 ^ 16 - 1) in
        rw (redo_insert_lem, claim_free h e)
          (place-Placed p _ target xs lsn v.header (omega (arith, count, redo-slot_count, room))
            (λ i low. set_tombstone_count_at _ _ i (inr (omega arith)))
            (get_free_space_ptr-set_tombstone_count _ _) (omega (arith, count, redo-slot_count))
            (reused h (count ∙ redo-slot_count) (
              ground (
                arith,
                redo-tombstone_count,
                get_tombstone_count_pos p target v h e,
                get_tombstone_count-le p v,
                v.room,
                get_tombstone_count-set_tombstone_count_wrap (append_data p xs)
                    (get_tombstone_count (append_data p xs) + 2 ^ 16 - 1),
              ))))

    redo_live-Placed :
        (h : target < get_slot_count p)
        → (read_slot p target).offset ≢ slot_tombstone
        → Placed p (redo_insert p target xs lsn) target xs
    redo_live-Placed h ne =
        rw (redo_insert_lem, claim_live h ne)
          (place-Placed p (append_data p xs) target xs lsn v.header
            (omega (arith, redo-slot_count, room)) (λ i low. refl) refl
            (omega (arith, redo-slot_count))
            (reused h redo-slot_count (ground (arith, redo-tombstone_count))))

    redo_old-Placed :
        (h : target < get_slot_count p) → Placed p (redo_insert p target xs lsn) target xs
    redo_old-Placed h = elim (ℕ_discrete (read_slot p target).offset slot_tombstone) [
      | yes e ↦ redo_free-Placed h e
      | no ne ↦ redo_live-Placed h ne
    ]

-- With room for the record, redo_insert puts it into the given slot of a valid page, whether that
-- is a tombstone, a live slot, or (with room for one more slot entry) the first slot past the
-- directory: the slot reads back the record, every other slot reads as before, and the page is
-- valid.
pub redo_insert-read :
    (p : Page) (target : ℕ) (xs : List ℕ) (lsn : ℕ)
    → IsValid p
    → target ≤ get_slot_count p
    → get_free_space_ptr p
        + 2
        + length xs
        + 6 * (get_slot_count p + (if ltb target (get_slot_count p) then 0 else 1))
      ≤ 4096
    → IsValid (redo_insert p target xs lsn)
      × (read_record (redo_insert p target xs lsn) ≡ update (read_record p) target (some xs))
redo_insert-read p target xs lsn v near room = (
  Placed-IsValid v w,
  update_eq (read_record p) _ target (some xs) (read_record-Placed_self v w)
      (read_record-Placed_ne v w),
)
  where
    w : Placed p (redo_insert p target xs lsn) target xs
    w = elim (dec_lt target (get_slot_count p)) [
      | yes h ↦ redo_old-Placed p target xs lsn v (ground arith) h
      | no h ↦ redo_new-Placed p target xs lsn v (ground arith) (omega arith) (ground arith)
    ]
