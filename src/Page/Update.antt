-- ===== src/Page/Update.antt =====
-- update_record: what it answers, and what the page reads as afterwards.
use persist_x.Base.{
  ℕ, ◌+◌, ◌≡◌, ◌≢◌, ◌≤◌, ◌<◌, ◌⊎◌, inl, inr, refl, sym, ◌∙◌, ap, some, arith, List, length, true,
  false, ℕ_discrete, ne→==, eq→==, lt→leb, update, Option-cases, some_inj,
}
use persist_x.Bytes.{put, length-peek}
use persist_x.Page.{
  Page, get_slot_count, read_slot, slot_tombstone, read_record, update_record, stamp,
}
use persist_x.Page.Valid.{IsValid, read_record_live, absent_of_none, present_of_some}
use persist_x.Page.Overwrite.{overwrite-IsValid, overwrite-read}

pub update_record_lem :
    (p : Page) (sid : ℕ) (xs : List ℕ) (lsn : ℕ)
    → sid < get_slot_count p
    → (read_slot p sid).offset ≢ slot_tombstone
    → length xs ≡ (read_slot p sid).length
    → update_record p sid xs lsn ≡ (stamp (put p ((read_slot p sid).offset + 2) xs) lsn, true)
unfolding update_record
update_record_lem p sid xs lsn h live e = rw (lt→leb _ _ h, ne→== _ _ live, eq→== _ _ e) refl

update_record_size :
    (p : Page) (sid : ℕ) (xs : List ℕ) (lsn : ℕ)
    → length xs ≢ (read_slot p sid).length
    → update_record p sid xs lsn ≡ (p, false)
unfolding update_record
update_record_size p sid xs lsn ne = ground arith

update_record_absent :
    (p : Page) (sid : ℕ) (xs : List ℕ) (lsn : ℕ)
    → (get_slot_count p ≤ sid) ⊎ ((read_slot p sid).offset ≡ slot_tombstone)
    → update_record p sid xs lsn ≡ (p, false)
unfolding update_record
update_record_absent p sid xs lsn h = ground arith

-- A stored record is as long as its slot entry says.
record_length :
    (p : Page) (sid : ℕ) (old : List ℕ)
    → IsValid p
    → read_record p sid ≡ some old
    → length old ≡ (read_slot p sid).length
record_length p sid old v e =
    let (h, l) = present_of_some p sid e in
    let q = some_inj.0 (sym e ∙ read_record_live p sid v h l) in
    ap length q ∙ length-peek p ((read_slot p sid).offset + 2) (read_slot p sid).length

-- On a valid page update_record overwrites a record of the same size: the page stays valid, the
-- slot reads back the new bytes and every other slot reads as before. It refuses, and leaves the
-- page alone, if the slot holds no record or one of another size.
pub update_record-read :
    (p : Page) (sid : ℕ) (xs : List ℕ) (lsn : ℕ)
    → IsValid p
    → ((old : List ℕ) × (read_record p sid ≡ some old)
        × (length old ≡ length xs)
        × ((update_record p sid xs lsn).1 ≡ true)
        × IsValid (update_record p sid xs lsn).0
        × (read_record (update_record p sid xs lsn).0 ≡ update (read_record p) sid (some xs)))
      ⊎ (((old : List ℕ) → read_record p sid ≡ some old → length old ≢ length xs)
          × (update_record p sid xs lsn ≡ (p, false)))
update_record-read p sid xs lsn v = elim (Option-cases (read_record p sid)) [
  | inl e ↦ inr (λ old f. absurd (cc), update_record_absent p sid xs lsn (absent_of_none p sid v e))
  | inr (old, e) ↦
      let (h, l) = present_of_some p sid e in
      let n = record_length p sid old v e in
      elim (ℕ_discrete (length xs) (read_slot p sid).length) [
        | yes same ↦ inl (
          old,
          e,
          n ∙ sym same,
          rw (update_record_lem p sid xs lsn h l same) refl,
          rw (update_record_lem p sid xs lsn h l same) (overwrite-IsValid p sid xs lsn v h l same),
          rw (update_record_lem p sid xs lsn h l same) (overwrite-read p sid xs lsn v h l same),
        )
        | no other ↦ inr (
          λ old' f g. other (sym g ∙ record_length p sid old' v f),
          update_record_size p sid xs lsn other,
        )
      ]
]
