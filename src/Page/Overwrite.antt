-- ===== src/Page/Overwrite.antt =====
-- update_record: a record of the same size is written over in place.
use persist_x.Base.{
  ℕ, ◌+◌, ◌≡◌, ◌≢◌, ◌≤◌, ◌<◌, ◌⊎◌, inl, inr, sym, ◌∙◌, ap, sum_below, sum_below_cong, some, arith,
  List, length, ℕ_discrete, dec_lt, update, update_eq,
}
use persist_x.Bytes.{rd, put, rd_cong, peek_cong, put_outside, peek-put_self}
use persist_x.Page.{
  Page, SlotEntry, get_slot_count, get_tombstone_count, get_free_space_ptr, read_slot,
  slot_tombstone, read_record, stamp, slot_offset,
}
use persist_x.Page.Frame.{slot_offset_lem}
use persist_x.Page.Writes.{stamp_at}
use persist_x.Page.Valid.{
  IsValid, InRegion, is_free, extent, read_record_live, read_record_free, read_record_beyond,
}

module _ (p : Page) (sid : ℕ) (xs : List ℕ) (lsn : ℕ) (v : IsValid p)
    (bound : sid < get_slot_count p) (live : (read_slot p sid).offset ≢ slot_tombstone)
    (same_size : length xs ≡ (read_slot p sid).length) where
  abbrev at : ℕ
  at = (read_slot p sid).offset

  abbrev after : Page
  after = stamp (put p (at + 2) xs) lsn

  region : InRegion p (read_slot p sid)
  region = v.inside sid bound live

  -- Only the LSN and the payload bytes change.
  overwrite_at :
      (i : ℕ) → (i < 13) ⊎ (21 ≤ i) → (i < at + 2) ⊎ (at + 2 + length xs ≤ i) → after i ≡ p i
  overwrite_at i h k = stamp_at (put p (at + 2) xs) lsn i h ∙ put_outside p (at + 2) xs i k

  overwrite-slot_count : get_slot_count after ≡ get_slot_count p
  unfolding get_slot_count
  overwrite-slot_count =
      rd_cong 2 after p 5
        (λ k lo hi. overwrite_at k (inl (omega arith)) (inl (omega (arith, region.low))))

  overwrite-tombstone_count : get_tombstone_count after ≡ get_tombstone_count p
  unfolding get_tombstone_count
  overwrite-tombstone_count =
      rd_cong 2 after p 7
        (λ k lo hi. overwrite_at k (inl (omega arith)) (inl (omega (arith, region.low))))

  overwrite-frontier : get_free_space_ptr after ≡ get_free_space_ptr p
  unfolding get_free_space_ptr
  overwrite-frontier =
      rd_cong 4 after p 9
        (λ k lo hi. overwrite_at k (inl (omega arith)) (inl (omega (arith, region.low))))

  overwrite-slot : (s : ℕ) → s < get_slot_count p → read_slot after s ≡ read_slot p s
  overwrite-slot s h =
      let place = slot_offset_lem s (omega (arith, v.room)) in
      let keep = λ (k : ℕ) (lo : slot_offset s ≤ k).
        overwrite_at k (inr (omega (arith, v.room, place)))
          (inr (omega (arith, v.room, place, region.high, same_size))) in
      unfold read_slot in
      ground (
        arith,
        rd_cong 4 after p (slot_offset s) (λ k lo hi. keep k lo),
        rd_cong 2 after p (slot_offset s + 4) (λ k lo hi. keep k (omega arith)),
      )

  -- The record of another live slot lies apart from the bytes written.
  overwrite-apart :
      (s k : ℕ)
      → s < get_slot_count p
      → s ≢ sid
      → (read_slot p s).offset ≢ slot_tombstone
      → (read_slot p s).offset ≤ k
      → k < (read_slot p s).offset + 2 + (read_slot p s).length
      → after k ≡ p k
  overwrite-apart s k h ne l lo hi =
      let o = v.inside s h l in
      elim (v.apart s sid h bound ne l live) [
        | inl a ↦ overwrite_at k (inr (omega (arith, o.low))) (inl (omega arith))
        | inr b ↦ overwrite_at k (inr (omega (arith, o.low))) (inr (omega (arith, same_size)))
      ]

  overwrite-prefix :
      (s : ℕ)
      → s < get_slot_count p
      → (read_slot p s).offset ≢ slot_tombstone
      → rd 2 after (read_slot p s).offset ≡ rd 2 p (read_slot p s).offset
  overwrite-prefix s h l = rd_cong 2 after p (read_slot p s).offset λ k lo hi.
      elim (ℕ_discrete s sid) [
        | yes e ↦
            overwrite_at k (inr (omega (arith, (v.inside s h l).low)))
              (inl (rw (← e) (omega arith)))
        | no ne ↦ overwrite-apart s k h ne l lo (omega arith)
      ]

  overwrite-InRegion :
      (s : ℕ)
      → s < get_slot_count p
      → (read_slot p s).offset ≢ slot_tombstone
      → InRegion after (read_slot p s)
  overwrite-InRegion s h l =
      let o = v.inside s h l in
      record {
        low = o.low;
        high = omega (arith, overwrite-frontier, o.high);
        prefix = overwrite-prefix s h l ∙ o.prefix;
      }

  overwrite-sum :
      (f : SlotEntry → ℕ)
      → sum_below (λ s. f (read_slot after s)) (get_slot_count after)
        ≡ sum_below (λ s. f (read_slot p s)) (get_slot_count p)
  overwrite-sum f = rw overwrite-slot_count (
      sum_below_cong (λ s. f (read_slot after s)) (λ s. f (read_slot p s)) (get_slot_count p)
        (λ k h. ap f (overwrite-slot k h)))

  abbrev slot_same : (s : ℕ) → s < get_slot_count after → read_slot after s ≡ read_slot p s
  slot_same s h = overwrite-slot s (rw overwrite-slot_count at h)

  pub overwrite-IsValid : IsValid after
  overwrite-IsValid = record {
    header = rw overwrite-frontier v.header;
    room = rw (overwrite-frontier, overwrite-slot_count) v.room;
    tombstones = overwrite-tombstone_count ∙ v.tombstones ∙ sym (overwrite-sum (λ d. is_free d));
    total = omega (arith, v.total, overwrite-frontier, overwrite-sum (λ d. extent d));
    inside = λ s h l.
        rw (slot_same s h)
          (overwrite-InRegion s (rw overwrite-slot_count at h) (rw (slot_same s h) at l));
    apart = λ s t hs ht ne ls lt.
        rw (slot_same s hs, slot_same t ht)
          (v.apart s t (rw overwrite-slot_count at hs) (rw overwrite-slot_count at ht) ne
            (rw (slot_same s hs) at ls) (rw (slot_same t ht) at lt));
  }

  overwrite-read_self : read_record after sid ≡ some xs
  overwrite-read_self =
      read_record_live after sid overwrite-IsValid (rw overwrite-slot_count bound)
        (rw (overwrite-slot sid bound) live)
      ∙ rw (overwrite-slot sid bound) (
          ap some (
            peek_cong after (put p (at + 2) xs) (at + 2) (at + 2) (read_slot p sid).length (λ k h.
              stamp_at (put p (at + 2) xs) lsn (at + 2 + k) (inr (omega (arith, region.low))))
            ∙ peek-put_self p (at + 2) (read_slot p sid).length xs same_size))

  overwrite-read_old :
      (s : ℕ) → s < get_slot_count p → s ≢ sid → read_record after s ≡ read_record p s
  overwrite-read_old s h ne = elim (ℕ_discrete (read_slot p s).offset slot_tombstone) [
    | yes e ↦ read_record_free after s (rw (overwrite-slot s h) e) ∙ sym (read_record_free p s e)
    | no l ↦
        read_record_live after s overwrite-IsValid (rw overwrite-slot_count h)
          (rw (overwrite-slot s h) l)
        ∙ rw (overwrite-slot s h) (
            ap some (
              peek_cong after p ((read_slot p s).offset + 2) ((read_slot p s).offset + 2)
                (read_slot p s).length
                (λ k lt. overwrite-apart s _ h ne l (omega arith) (omega arith))))
        ∙ sym (read_record_live p s v h l)
  ]

  pub overwrite-read : read_record after ≡ update (read_record p) sid (some xs)
  overwrite-read =
      update_eq (read_record p) (read_record after) sid (some xs) overwrite-read_self λ s ne.
        elim (dec_lt s (get_slot_count p)) [
          | yes h ↦ overwrite-read_old s h ne
          | no h ↦
              read_record_beyond after s (rw overwrite-slot_count (omega arith))
              ∙ sym (read_record_beyond p s (omega arith))
        ]
