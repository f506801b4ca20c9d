-- ===== src/Page/Insert.antt =====
-- can_insert and insert_record: a record that is let in is placed, in the lowest tombstone or in a
-- new slot.
use persist_x.Base.{
  ℕ, ◌+◌, ◌-◌, ◌*◌, ◌≡◌, ◌≤◌, ◌<◌, ◌⊎◌, inl, inr, refl, ◌∙◌, arith, List, length, true, false,
  lt→ltb, ℕ_discrete, Bool-cases, ◌↔◌, if◌then◌else◌, update, update_eq, ℕ_discrete, ◌==◌, some,
  none,
}
use persist_x.Types.{invalid_slot_id, page_size}
use persist_x.Page.{
  Page, get_slot_count, get_tombstone_count, get_free_space_ptr, set_slot_count,
  set_tombstone_count, read_slot, read_record, append_data, write_slot, stamp, slot_dir_start,
  free_space, can_insert, assign_slot, insert_record, find_free_slot, slot_tombstone,
}
use persist_x.Page.Frame.{slot_offset_lem}
use persist_x.Page.Valid.{IsValid, is_free, read_record_free, read_record_beyond}
use persist_x.Page.Writes.{
  get_slot_count-append_data, get_tombstone_count-append_data, read_slot-append_data,
}
use persist_x.Page.Counters.{
  set_slot_count_at, set_tombstone_count_at, get_slot_count-set_slot_count,
  get_tombstone_count-set_tombstone_count, get_slot_count-set_tombstone_count,
  get_tombstone_count-set_slot_count, get_free_space_ptr-set_slot_count,
  get_free_space_ptr-set_tombstone_count,
}
use persist_x.Page.FreeSlot.{
  Finds, Finds-transfer, find_free_slot_lem, tombstone_exists, get_tombstone_count-le,
}
use persist_x.Page.Placed.{
  Placed, grown, reused, Placed-IsValid, Placed-lt, read_record-Placed_self, read_record-Placed_ne,
}
use persist_x.Page.Place.{place-Placed}

slot_dir_start_lem :
    (p : Page) → get_slot_count p < 680 → slot_dir_start p ≡ 4096 - 6 * get_slot_count p
unfolding slot_dir_start
slot_dir_start_lem p h = ground (arith, slot_offset_lem (get_slot_count p - 1))

free_space_lem :
    (p : Page) → IsValid p → free_space p ≡ 4096 - 6 * get_slot_count p - get_free_space_ptr p
free_space_lem p v =
    let e = slot_dir_start_lem p (omega (arith, v.room, v.header)) in
    unfold free_space in rw e (ground (arith, v.room))

-- can_insert leaves room for the record, and for a slot entry where one is needed.
can_insert-room :
    (p : Page) (len : ℕ)
    → IsValid p
    → can_insert p len ≡ true
    → (get_free_space_ptr p + 2 + len + 6 * get_slot_count p ≤ 4096)
      × (get_tombstone_count p ≡ 0
          → get_free_space_ptr p + 2 + len + 6 * (get_slot_count p + 1) ≤ 4096)
unfolding can_insert
can_insert-room p len v h =
    (ground (arith, free_space_lem p v, v.room), λ z. ground (arith, free_space_lem p v, v.room))

-- The two shapes of a successful insertion.
insert_new_lem :
    (p : Page) (xs : List ℕ) (lsn : ℕ)
    → can_insert p (length xs) ≡ true
    → get_tombstone_count (append_data p xs) ≡ 0
    → insert_record p xs lsn ≡ (
      stamp
          (write_slot
            (set_slot_count (append_data p xs) (get_slot_count (append_data p xs) + 1))
            (get_slot_count (append_data p xs))
            (get_free_space_ptr p)
            (length xs))
          lsn,
      get_slot_count (append_data p xs),
    )
unfolding insert_record assign_slot
insert_new_lem p xs lsn can e = rw (can, e) refl

insert_reuse_lem :
    (p : Page) (xs : List ℕ) (lsn : ℕ)
    → can_insert p (length xs) ≡ true
    → 0 < get_tombstone_count (append_data p xs)
    → insert_record p xs lsn ≡ (
      stamp
          (write_slot
            (set_tombstone_count (append_data p xs) (get_tombstone_count (append_data p xs) - 1))
            (find_free_slot (append_data p xs))
            (get_free_space_ptr p)
            (length xs))
          lsn,
      find_free_slot (append_data p xs),
    )
unfolding insert_record assign_slot
insert_reuse_lem p xs lsn can h = rw (can, lt→ltb _ _ h) refl

module _ (p : Page) (xs : List ℕ) (lsn : ℕ) (v : IsValid p)
    (can : can_insert p (length xs) ≡ true) where
  fits : get_free_space_ptr p + 2 + length xs + 6 * get_slot_count p ≤ 4096
  fits = (can_insert-room p (length xs) v can).0

  slot_count_same : get_slot_count (append_data p xs) ≡ get_slot_count p
  slot_count_same = get_slot_count-append_data p xs v.header (omega (arith, fits))

  tombstone_count_same : get_tombstone_count (append_data p xs) ≡ get_tombstone_count p
  tombstone_count_same = get_tombstone_count-append_data p xs v.header (omega (arith, fits))

  insert_new-Placed :
      get_tombstone_count p ≡ 0
      → Placed p (insert_record p xs lsn).0 (insert_record p xs lsn).1 xs
        × ((insert_record p xs lsn).1 ≡ get_slot_count p)
  insert_new-Placed none_free =
      let grows = (can_insert-room p (length xs) v can).1 none_free in
      let count =
        get_slot_count-set_slot_count (append_data p xs) (get_slot_count (append_data p xs) + 1)
          (omega (arith, slot_count_same, fits, v.header)) in
      rw (insert_new_lem p xs lsn can (tombstone_count_same ∙ none_free)) (
        place-Placed p _ _ xs lsn v.header (omega (arith, count, slot_count_same, grows))
            (λ i low. set_slot_count_at _ _ i (inr (omega arith)))
            (get_free_space_ptr-set_slot_count _ _) (omega (arith, count))
            (grown slot_count_same (omega (arith, count, slot_count_same))
              (get_tombstone_count-set_slot_count _ _ ∙ tombstone_count_same)),
        slot_count_same,
      )

  tombstone_step :
      (e : ℕ)
      → 0 < get_tombstone_count p
      → (read_slot p e).offset ≡ slot_tombstone
      → get_tombstone_count
            (set_tombstone_count (append_data p xs) (get_tombstone_count (append_data p xs) - 1))
          + is_free (read_slot p e)
        ≡ get_tombstone_count p
  tombstone_step e h free = ground (
    arith,
    tombstone_count_same,
    get_tombstone_count-le p v,
    v.room,
    get_tombstone_count-set_tombstone_count (append_data p xs)
        (get_tombstone_count (append_data p xs) - 1),
  )

  insert_reuse-Placed :
      0 < get_tombstone_count p
      → Placed p (insert_record p xs lsn).0 (insert_record p xs lsn).1 xs
        × Finds p 0 (insert_record p xs lsn).1
  insert_reuse-Placed some_free =
      let room = fits in
      let same = λ (s : ℕ) (h : s < get_slot_count p).
        read_slot-append_data p xs v.header (omega (arith, room)) s (omega (arith, room)) in
      let t = tombstone_exists p v some_free in
      let found =
        find_free_slot_lem (append_data p xs) t.0 (rw slot_count_same t.1)
          (rw (same t.0 t.1) t.2) in
      let lower =
        Finds-transfer p (append_data p xs) (get_slot_count p) _ (rw slot_count_same at found.0)
          same found.1 in
      rw (insert_reuse_lem p xs lsn can (rw tombstone_count_same some_free)) (
        place-Placed p _ _ xs lsn v.header
            (omega (
              arith,
              get_slot_count-set_tombstone_count (append_data p xs)
                  (get_tombstone_count (append_data p xs) - 1),
              slot_count_same,
              room,
            ))
            (λ i low. set_tombstone_count_at _ _ i (inr (omega arith)))
            (get_free_space_ptr-set_tombstone_count _ _)
            (omega (
              arith,
              get_slot_count-set_tombstone_count (append_data p xs)
                  (get_tombstone_count (append_data p xs) - 1),
              found.0,
            ))
            (reused (rw slot_count_same at found.0)
              (get_slot_count-set_tombstone_count _ _ ∙ slot_count_same)
              (tombstone_step _ some_free lower.free)),
        lower,
      )

  -- A record that fits is placed, whichever kind of slot it gets.
  pub insert_record-Placed : Placed p (insert_record p xs lsn).0 (insert_record p xs lsn).1 xs
  insert_record-Placed = elim (ℕ_discrete (get_tombstone_count p) 0) [
    | yes e ↦ (insert_new-Placed e).0
    | no ne ↦ (insert_reuse-Placed (omega arith)).0
  ]

  -- On a valid page a record that can_insert lets in is put in the lowest tombstone, or in a new
  -- slot if there is none.
  pub insert_record-slot :
      ((get_tombstone_count p ≡ 0) × ((insert_record p xs lsn).1 ≡ get_slot_count p))
      ⊎ ((0 < get_tombstone_count p) × Finds p 0 (insert_record p xs lsn).1)
  insert_record-slot = elim (ℕ_discrete (get_tombstone_count p) 0) [
    | yes e ↦ inl (e, (insert_new-Placed e).1)
    | no ne ↦ inr (omega arith, (insert_reuse-Placed (omega arith)).1)
  ]

pub insert_record-full :
    (p : Page) (xs : List ℕ) (lsn : ℕ)
    → can_insert p (length xs) ≡ false
    → insert_record p xs lsn ≡ (p, invalid_slot_id)
unfolding insert_record
insert_record-full p xs lsn e = rw e refl

-- The slot that insert_record takes held no record.
insert_record-fresh :
    (p : Page) (xs : List ℕ) (lsn : ℕ)
    → IsValid p
    → can_insert p (length xs) ≡ true
    → read_record p (insert_record p xs lsn).1 ≡ none
insert_record-fresh p xs lsn v can = elim (insert_record-slot p xs lsn v can) [
  | inl (_, e) ↦ read_record_beyond p _ (omega (arith, e))
  | inr (_, f) ↦ read_record_free p _ f.free
]

-- On a valid page a record that can_insert lets in goes into a slot that held no record: that slot
-- then reads back the record, every other slot reads as before, and the page is valid. A record
-- that can_insert refuses leaves the page alone and gets INVALID_SLOT_ID.
pub insert_record-read :
    (p : Page) (xs : List ℕ) (lsn : ℕ)
    → IsValid p
    → ((can_insert p (length xs) ≡ true)
        × IsValid (insert_record p xs lsn).0
        × (read_record p (insert_record p xs lsn).1 ≡ none)
        × (read_record (insert_record p xs lsn).0
            ≡ update (read_record p) (insert_record p xs lsn).1 (some xs)))
      ⊎ ((can_insert p (length xs) ≡ false) × (insert_record p xs lsn ≡ (p, invalid_slot_id)))
insert_record-read p xs lsn v = elim (Bool-cases (can_insert p (length xs))) [
  | inr e ↦ inr (e, insert_record-full p xs lsn e)
  | inl e ↦
      let w = insert_record-Placed p xs lsn v e in
      inl (
        e,
        Placed-IsValid v w,
        insert_record-fresh p xs lsn v e,
        update_eq (read_record p) _ _ (some xs) (read_record-Placed_self v w)
            (read_record-Placed_ne v w),
      )
]

-- A valid page takes a record exactly when its bytes, its size prefix and, unless a tombstone can
-- be reused, one more slot entry fit between the data frontier and the slot directory.
pub can_insert_lem :
    (p : Page) (len : ℕ)
    → IsValid p
    → (can_insert p len ≡ true) ↔ (
        get_free_space_ptr p
          + (2 + len)
          + 6 * (get_slot_count p + (if get_tombstone_count p == 0 then 1 else 0))
        ≤ page_size)
unfolding can_insert
can_insert_lem p len v = ground (arith, free_space_lem p v, v.room)

-- The slot taken lies in the new directory, which is within the page's capacity.
pub insert_record-bound :
    (p : Page) (xs : List ℕ) (lsn : ℕ)
    → IsValid p
    → can_insert p (length xs) ≡ true
    → (insert_record p xs lsn).1 < 679
insert_record-bound p xs lsn v can =
    let w = insert_record-Placed p xs lsn v can in
    omega (arith, Placed-lt v w, w.room, w.frontier, v.header)

pub insert_record-room :
    (p : Page) (xs : List ℕ)
    → IsValid p
    → can_insert p (length xs) ≡ true
    → get_free_space_ptr p + 2 + length xs ≤ 4096
insert_record-room p xs v can = omega (arith, (can_insert-room p (length xs) v can).0)

pub insert_record-IsValid :
    (p : Page) (xs : List ℕ) (lsn : ℕ) → IsValid p → IsValid (insert_record p xs lsn).0
insert_record-IsValid p xs lsn v = elim (insert_record-read p xs lsn v) [
  | inl (_, w, _, _) ↦ w
  | inr (_, e) ↦ rw e v
]
