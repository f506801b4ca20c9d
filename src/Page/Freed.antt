-- ===== src/Page/Freed.antt =====
-- What turning a live slot into a tombstone does to a page.
use persist_x.Base.{
  ℕ, ◌+◌, ◌≡◌, ◌≢◌, ◌≤◌, ◌<◌, refl, sym, ◌∙◌, ap, sum_below, sum_below_change, some, none, arith,
  ℕ_discrete, dec_lt, update, update_eq,
}
use persist_x.Bytes.{rd_cong, peek_cong}
use persist_x.Page.{
  Page, SlotEntry, get_slot_count, get_tombstone_count, get_free_space_ptr, read_slot,
  slot_tombstone, read_record,
}
use persist_x.Page.Valid.{
  IsValid, InRegion, is_free, extent, read_record_live, read_record_free, read_record_beyond,
}

pub record Freed (p q : Page) (sid : ℕ) : Type 0 where
  pub count : get_slot_count q ≡ get_slot_count p
  pub tombstones : get_tombstone_count q ≡ get_tombstone_count p + 1
  pub frontier : get_free_space_ptr q ≡ get_free_space_ptr p
  pub entry : (read_slot q sid).offset ≡ slot_tombstone
  pub elsewhere : (s : ℕ) → s < get_slot_count p → s ≢ sid → read_slot q s ≡ read_slot p s
  pub same : (i : ℕ) → 21 ≤ i → i < get_free_space_ptr p → q i ≡ p i

module _ {p q : Page} {sid : ℕ} (v : IsValid p) (w : Freed p q sid) (bound : sid < get_slot_count p)
    (live : (read_slot p sid).offset ≢ slot_tombstone) where
  -- A live slot of the new page is another live slot of the old one.
  Freed-live : (s : ℕ) → (read_slot q s).offset ≢ slot_tombstone → s ≢ sid
  Freed-live s l e = l (rw e w.entry)

  Freed-old :
      (s : ℕ)
      → s < get_slot_count q
      → (l : (read_slot q s).offset ≢ slot_tombstone) → read_slot q s ≡ read_slot p s
  Freed-old s h l = w.elsewhere s (rw w.count at h) (Freed-live s l)

  Freed-InRegion :
      (s : ℕ)
      → s < get_slot_count q
      → (read_slot q s).offset ≢ slot_tombstone
      → InRegion q (read_slot q s)
  Freed-InRegion s h l =
      let e = Freed-old s h l in
      let old = v.inside s (rw w.count at h) (rw e at l) in
      rw e (record {
        low = old.low;
        high = omega (arith, w.frontier, old.high);
        prefix =
            rd_cong 2 q p (read_slot p s).offset
              (λ k lo hi. w.same k (omega (arith, old.low)) (omega (arith, old.high)))
            ∙ old.prefix;
      })

  Freed-sum :
      (f : SlotEntry → ℕ)
      → sum_below (λ s. f (read_slot q s)) (get_slot_count p) + f (read_slot p sid)
        ≡ sum_below (λ s. f (read_slot p s)) (get_slot_count p) + f (read_slot q sid)
  Freed-sum f =
      sum_below_change (λ s. f (read_slot q s)) (λ s. f (read_slot p s)) (get_slot_count p) sid
        bound (λ k h ne. ap f (w.elsewhere k h ne))

  Freed-is_free : (is_free (read_slot q sid) ≡ 1) × (is_free (read_slot p sid) ≡ 0)
  Freed-is_free = (rw w.entry refl, ground (arith, live))

  Freed-extent : extent (read_slot q sid) ≡ 0
  Freed-extent = rw w.entry refl

  pub Freed-IsValid : IsValid q
  Freed-IsValid = record {
    header = rw w.frontier v.header;
    room = rw (w.frontier, w.count) v.room;
    tombstones =
        rw w.count
          (omega (arith, w.tombstones, v.tombstones, Freed-sum (λ d. is_free d), Freed-is_free));
    total =
        rw (w.count, w.frontier) (omega (arith, v.total, Freed-sum (λ d. extent d), Freed-extent));
    inside = Freed-InRegion;
    apart = λ s t hs ht ne ls lt.
        rw (Freed-old s hs ls, Freed-old t ht lt)
          (v.apart s t (rw w.count at hs) (rw w.count at ht) ne (rw (Freed-old s hs ls) at ls)
            (rw (Freed-old t ht lt) at lt));
  }

  Freed-read_old : (s : ℕ) → s < get_slot_count p → s ≢ sid → read_record q s ≡ read_record p s
  Freed-read_old s h ne = elim (ℕ_discrete (read_slot q s).offset slot_tombstone) [
    | yes e ↦ read_record_free q s e ∙ sym (read_record_free p s (rw (w.elsewhere s h ne) at e))
    | no l ↦
        let same = w.elsewhere s h ne in
        let l' = rw same at l in
        let old = v.inside s h l' in
        read_record_live q s Freed-IsValid (rw w.count h) l
        ∙ rw same (
            ap some (
              peek_cong q p ((read_slot p s).offset + 2) ((read_slot p s).offset + 2)
                (read_slot p s).length
                (λ k lt. w.same _ (omega (arith, old.low)) (omega (arith, old.high)))))
        ∙ sym (read_record_live p s v h l')
  ]

  pub Freed-read : read_record q ≡ update (read_record p) sid none
  Freed-read =
      update_eq (read_record p) (read_record q) sid none (read_record_free q sid w.entry) λ s ne.
        elim (dec_lt s (get_slot_count p)) [
          | yes h ↦ Freed-read_old s h ne
          | no h ↦
              read_record_beyond q s (rw w.count (omega arith))
              ∙ sym (read_record_beyond p s (omega arith))
        ]
