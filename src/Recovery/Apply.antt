-- ===== src/Recovery/Apply.antt =====
-- What redoing one record does to the records of a page.
use persist_x.Base.{
  ℕ, ◌+◌, ◌*◌, ◌%◌, ◌^◌, ◌≡◌, ◌≤◌, ◌<◌, refl, ap, ◌∙◌, arith, ◌&&◌, List, [], ◌∷◌, Option, none,
  some, ltb, ◌==◌, if◌then◌else◌, length, take, Bool-cases, inl, inr, update, fun_ext,
}
use persist_x.LogRecord.{LogRecord, is_update}
use persist_x.LogManager.{is_empty}
use persist_x.Page.{Page, get_slot_count, get_free_space_ptr, delete_record, read_record}
use persist_x.Page.Valid.{IsValid}
use persist_x.Page.Delete.{delete_record-read, delete_record-frontier}
use persist_x.Page.Update.{update_record-read}
use persist_x.Page.Redo.{redo_insert-read}
use persist_x.Recovery.Redo.{sized, overwrite, apply_record}

-- There is room on the page for a record in the given slot, whatever the slot holds now.
abbrev pub Room : Page → ℕ → List ℕ → Type 0
Room p slot xs =
    (slot ≤ get_slot_count p)
    × (get_free_space_ptr p
          + 2
          + length xs
          + 6 * (get_slot_count p + (if ltb slot (get_slot_count p) then 0 else 1))
        ≤ 4096)

take-length : (xs : List ℕ) → take (length xs) xs ≡ xs
take-length [] = refl
take-length (x ∷ xs) = ap (◌∷◌ x) (take-length xs)

pub sized_small : (xs : List ℕ) → length xs < 2 ^ 16 → sized xs ≡ xs
sized_small xs h =
    let e : length xs % 2 ^ 16 ≡ length xs = omega (arith, h) in rw e (take-length xs)

pub update-update :
    (f : ℕ → Option (List ℕ)) (k : ℕ) (a b : Option (List ℕ))
    → update (update f k a) k b ≡ update f k b
update-update f k a b =
    fun_ext (λ j. elim (Bool-cases (j == k)) [ inl e ↦ rw e refl | inr e ↦ rw e refl ])

-- Overwriting leaves the new bytes in the slot, in place or by deletion and insertion.
pub overwrite-read :
    (p : Page) (slot : ℕ) (xs : List ℕ) (lsn : ℕ)
    → IsValid p
    → Room p slot xs
    → IsValid (overwrite p slot xs lsn)
      × (read_record (overwrite p slot xs lsn) ≡ update (read_record p) slot (some xs))
unfolding overwrite
overwrite-read p slot xs lsn v (near, room) =
    let s = sized_small xs (omega (arith, room)) in
    elim (update_record-read p slot xs lsn v) [
      | inl (old, e, same, ok, w, reads) ↦ rw (overwrite, s, ok) (w, reads)
      | inr (differs, same) ↦
          let d = delete_record-read p slot 0 v in
          let f = delete_record-frontier p slot 0 v in
          let i =
            redo_insert-read (delete_record p slot 0).0 slot xs lsn d.0 (omega (arith, f.0, near))
              (rw (f.0, f.1) room) in
          rw (overwrite, s, same)
            (
              i.0,
              i.1
                  ∙ ap (λ x. update x slot (some xs)) d.2
                  ∙ update-update (read_record p) slot none (some xs),
            )
    ]

-- Redoing a record on a valid page with room for its new bytes leaves a valid page on which the
-- record's slot holds those bytes, or nothing if the record stands for a deletion, and every other
-- slot reads as before: whatever the slot held, and whatever the size of it was.
pub apply_record-read :
    (r : LogRecord) (p : Page)
    → IsValid p
    → Room p r.slot_id r.new_tuple_data
    → IsValid (apply_record r p)
      × (read_record (apply_record r p)
          ≡ update (read_record p) r.slot_id (
              if is_update r.type && is_empty r.old_tuple_data
              then some r.new_tuple_data
              else (if is_empty r.new_tuple_data then none else some r.new_tuple_data)))
unfolding apply_record
apply_record-read r p v room = elim (Bool-cases (is_update r.type && is_empty r.old_tuple_data)) [
  | inl e ↦
      rw (apply_record, e, sized_small r.new_tuple_data (omega (arith, room.1)))
        (redo_insert-read p r.slot_id r.new_tuple_data r.lsn v room.0 room.1)
  | inr e ↦ elim (Bool-cases (is_empty r.new_tuple_data)) [
    | inl g ↦ let d = delete_record-read p r.slot_id r.lsn v in rw (apply_record, e, g) (d.0, d.2)
    | inr g ↦ rw (apply_record, e, g) (overwrite-read p r.slot_id r.new_tuple_data r.lsn v room)
  ]
]
