-- ===== src/Page/Overread.antt =====
-- src/page.cpp: what read_record reads of memory, on a page whose bytes may be anything.
use persist_x.Base.{
  ℕ, ◌+◌, ◌^◌, ◌≡◌, ◌≢◌, ◌≤◌, ◌<◌, ◌⊎◌, inl, inr, ◌∙◌, sym, arith, false, Option, some, none,
  ℕ_discrete, dec_lt, refl, ◌==◌, ◌&&◌, not, ltb, if◌then◌else◌, List,
}
use mathlib.Core.Path.{ap₂}
use persist_x.Types.{page_size}
use persist_x.Bytes.{rd, peek, rd_cong, peek_cong}
use persist_x.Page.{
  Page, SlotEntry, get_slot_count, slot_offset, read_slot, slot_tombstone, in_page, read_record,
}
use persist_x.Page.Frame.{slot_offset_lem}
use persist_x.DiskManager.Pages.{SamePage}

in_page-behind :
    (e : SlotEntry)
    → page_size < e.offset + 2 + e.length
    → e.offset + 2 + e.length < 2 ^ 32
    → in_page e ≡ false
unfolding in_page
in_page-behind e h small = ground (arith, h, small)

-- The result of read_record, once the entry is read.
abbrev answer : Page → ℕ → ℕ → SlotEntry → Option (List ℕ)
answer p sid count e =
    if ltb sid count && not (e.offset == slot_tombstone) && in_page e && rd 2 p e.offset == e.length
    then some (peek p (e.offset + 2) e.length)
    else none

read_record-answer :
    (p : Page) (sid : ℕ) → read_record p sid ≡ answer p sid (get_slot_count p) (read_slot p sid)
unfolding read_record
read_record-answer p sid = refl

module _ (p q : Page) (same : SamePage p q) where
  get_slot_count-same : get_slot_count p ≡ get_slot_count q
  unfolding get_slot_count
  get_slot_count-same = rd_cong 2 p q 5 (λ k lo hi. same k (omega (arith, hi)))

  read_slot-same : (sid : ℕ) → sid < 682 → read_slot p sid ≡ read_slot q sid
  unfolding read_slot
  read_slot-same sid h =
      let at = slot_offset_lem sid h in
      ap₂ (λ o l. record { offset = o; length = l })
        (rd_cong 4 p q (slot_offset sid) (λ k lo hi. same k (omega (arith, hi, at))))
        (rd_cong 2 p q (slot_offset sid + 4) (λ k lo hi. same k (omega (arith, hi, at))))

  -- Inside the page the prefix and the payload are the same.
  answer-inside :
      (sid count : ℕ) (e : SlotEntry)
      → e.offset + 2 + e.length ≤ page_size
      → answer p sid count e ≡ answer q sid count e
  answer-inside sid count e h =
      ap₂
        (λ prefix xs.
          if ltb sid count && not (e.offset == slot_tombstone) && in_page e && prefix == e.length
          then some xs
          else none)
        (rd_cong 2 p q e.offset (λ k lo hi. same k (omega (arith, hi, h))))
        (peek_cong p q (e.offset + 2) (e.offset + 2) e.length
          (λ k hi. same (e.offset + 2 + k) (omega (arith, hi, h))))

  -- An entry that the checks refuse is not followed.
  answer_refused :
      (sid count : ℕ) (e : SlotEntry)
      → (e.offset ≡ slot_tombstone) ⊎ (in_page e ≡ false)
      → answer p sid count e ≡ answer q sid count e
  answer_refused sid count e h = ground (arith, h)

  -- An entry with its end behind the page is refused, unless the end is 2 ^ 32 or more.
  answer-behind :
      (sid count : ℕ) (e : SlotEntry)
      → page_size < e.offset + 2 + e.length
      → (answer p sid count e ≡ answer q sid count e)
        ⊎ ((e.offset ≢ slot_tombstone) × (2 ^ 32 ≤ e.offset + 2 + e.length))
  answer-behind sid count e h = elim (ℕ_discrete e.offset slot_tombstone) [
    | yes dead ↦ inl (answer_refused sid count e (inl dead))
    | no live ↦ elim (dec_lt (e.offset + 2 + e.length) (2 ^ 32)) [
      | no wraps ↦ inr (live, omega (arith, wraps))
      | yes small ↦ inl (answer_refused sid count e (inr (in_page-behind e h small)))
    ]
  ]

-- Whatever the bytes of a page are, read_record depends on nothing behind its 4096 bytes, for a slot
-- whose directory entry lies in the page: two memories that agree on the page give the same answer,
-- unless the entry is not a tombstone and its end, offset + 2 + length, is 2^32 or more, where the
-- check of the upper bound wraps.
pub read_record-confined :
    (p q : Page) (sid : ℕ)
    → SamePage p q
    → sid < 682
    → (read_record p sid ≡ read_record q sid)
      ⊎ (((read_slot p sid).offset ≢ slot_tombstone)
          × (2 ^ 32 ≤ (read_slot p sid).offset + 2 + (read_slot p sid).length))
read_record-confined p q sid same h =
    let e = read_slot p sid in
    let count = get_slot_count p in
    let swap : answer q sid count e ≡ read_record q sid =
      ap₂ (λ n s. answer q sid n s) (get_slot_count-same p q same) (read_slot-same p q same sid h)
      ∙ sym (read_record-answer q sid) in
    let whole : answer p sid count e ≡ answer q sid count e
        → read_record p sid ≡ read_record q sid =
      λ k. read_record-answer p sid ∙ k ∙ swap in
    elim (dec_lt page_size (e.offset + 2 + e.length)) [
      | no inside ↦ inl (whole (answer-inside p q same sid count e (omega (arith, inside))))
      | yes behind ↦ elim (answer-behind p q same sid count e behind) [
        | inl k ↦ inl (whole k)
        | inr wraps ↦ inr wraps
      ]
    ]
