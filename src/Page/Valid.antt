-- ===== src/Page/Valid.antt =====
-- The well-formedness invariant of a slotted page: the record region, the directory and the two
-- counters of the header agree, and no two live records share a byte.
use persist_x.Base.{
  ℕ, ◌+◌, ◌*◌, ◌≡◌, ◌≢◌, ◌≤◌, ◌<◌, ◌⊎◌, ◌==◌, if◌then◌else◌, sum_below, sum_below_zero, sym, ◌∙◌,
  some, none, arith, List, inl, inr, dec_lt, ℕ_discrete,
}
use persist_x.Bytes.{rd, peek}
use persist_x.Page.{
  Page, SlotEntry, get_slot_count, get_tombstone_count, get_free_space_ptr, read_slot,
  slot_tombstone, read_record, in_page,
}

-- 1 for a tombstone, 0 for a live slot: summed, the number of tombstones.
abbrev pub is_free : SlotEntry → ℕ
is_free e = if e.offset == slot_tombstone then 1 else 0

-- The bytes that a slot's record takes, its size prefix included.
abbrev pub extent : SlotEntry → ℕ
extent e = if e.offset == slot_tombstone then 0 else 2 + e.length

-- The record of a live slot lies in the record region and repeats its length as its prefix.
pub record InRegion (p : Page) (e : SlotEntry) : Type 0 where
  pub low : 21 ≤ e.offset
  pub high : e.offset + 2 + e.length ≤ get_free_space_ptr p
  pub prefix : rd 2 p e.offset ≡ e.length

abbrev pub Apart : SlotEntry → SlotEntry → Type 0
Apart d e = (d.offset + 2 + d.length ≤ e.offset) ⊎ (e.offset + 2 + e.length ≤ d.offset)

pub record IsValid (p : Page) : Type 0 where
  pub header : 21 ≤ get_free_space_ptr p
  pub room : get_free_space_ptr p + 6 * get_slot_count p ≤ 4096
  pub tombstones :
      get_tombstone_count p ≡ sum_below (λ s. is_free (read_slot p s)) (get_slot_count p)
  pub total : sum_below (λ s. extent (read_slot p s)) (get_slot_count p) + 21 ≤ get_free_space_ptr p
  pub inside :
      (s : ℕ)
      → s < get_slot_count p
      → (read_slot p s).offset ≢ slot_tombstone
      → InRegion p (read_slot p s)
  pub apart :
      (s t : ℕ)
      → s < get_slot_count p
      → t < get_slot_count p
      → s ≢ t
      → (read_slot p s).offset ≢ slot_tombstone
      → (read_slot p t).offset ≢ slot_tombstone
      → Apart (read_slot p s) (read_slot p t)

-- The three answers of read_record on a valid page.
pub read_record_live :
    (p : Page) (s : ℕ)
    → IsValid p
    → s < get_slot_count p
    → (read_slot p s).offset ≢ slot_tombstone
    → read_record p s ≡ some (peek p ((read_slot p s).offset + 2) (read_slot p s).length)
unfolding read_record in_page
read_record_live p s v h live = let i = v.inside s h live in ground (arith, i, v.room)

pub read_record_free :
    (p : Page) (s : ℕ) → (read_slot p s).offset ≡ slot_tombstone → read_record p s ≡ none
unfolding read_record
read_record_free p s e = ground arith

pub read_record_beyond : (p : Page) (s : ℕ) → get_slot_count p ≤ s → read_record p s ≡ none
unfolding read_record
read_record_beyond p s h = ground arith

-- A slot that read_record finds nothing in is not in the directory, or is a tombstone.
pub absent_of_none :
    (p : Page) (s : ℕ)
    → IsValid p
    → read_record p s ≡ none
    → (get_slot_count p ≤ s) ⊎ ((read_slot p s).offset ≡ slot_tombstone)
absent_of_none p s v e = elim (dec_lt s (get_slot_count p)) [
  | no h ↦ inl (omega arith)
  | yes h ↦ elim (ℕ_discrete (read_slot p s).offset slot_tombstone) [
    | yes t ↦ inr t
    | no l ↦ absurd (cc (read_record_live p s v h l))
  ]
]

pub present_of_some :
    (p : Page) (s : ℕ) {xs : List ℕ}
    → read_record p s ≡ some xs
    → (s < get_slot_count p) × ((read_slot p s).offset ≢ slot_tombstone)
present_of_some p s e = elim (dec_lt s (get_slot_count p)) [
  | no h ↦ absurd (cc (read_record_beyond p s (omega arith)))
  | yes h ↦ (h, λ t. cc (read_record_free p s t))
]

-- A page with no slots and an empty record region is valid.
pub empty_page-IsValid :
    (p : Page)
    → get_slot_count p ≡ 0
    → get_tombstone_count p ≡ 0
    → get_free_space_ptr p ≡ 21
    → IsValid p
empty_page-IsValid p count tombs frontier = record {
  header = omega arith;
  room = omega arith;
  tombstones = tombs ∙ rw count (sym (sum_below_zero _));
  total = rw count (omega (arith, sum_below_zero _));
  inside = λ s h. absurd (omega arith);
  apart = λ s t h. absurd (omega arith);
}
