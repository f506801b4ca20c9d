-- ===== src/Page/Placed.antt =====
-- What a record written at free_space_ptr and entered into a slot does to a page. Both
-- insert_record and redo_insert make this step.
use persist_x.Base.{
  ℕ, ◌+◌, ◌*◌, ◌≡◌, ◌≢◌, ◌≤◌, ◌<◌, inl, inr, sym, ◌∙◌, ap, sum_below, sum_below_cong, sum_below_suc,
  sum_below_change, some, arith, List, length, ℕ_discrete, dec_lt,
}
use persist_x.Bytes.{rd, peek, rd_cong, peek_cong}
use persist_x.Page.{
  Page, SlotEntry, get_slot_count, get_tombstone_count, get_free_space_ptr, read_slot,
  slot_tombstone, read_record,
}
use persist_x.Page.Valid.{
  IsValid, InRegion, Apart, is_free, extent, read_record_live, read_record_free, read_record_beyond,
}

-- The slot is a new one at the end of the directory, or an old one.
pub data Counts (p q : Page) (sid : ℕ) : Type 0 where
  grown :
      sid ≡ get_slot_count p
      → get_slot_count q ≡ get_slot_count p + 1
      → get_tombstone_count q ≡ get_tombstone_count p
      → Counts p q sid
  reused :
      sid < get_slot_count p
      → get_slot_count q ≡ get_slot_count p
      → get_tombstone_count q + is_free (read_slot p sid) ≡ get_tombstone_count p
      → Counts p q sid

pub record Placed (p q : Page) (sid : ℕ) (xs : List ℕ) : Type 0 where
  pub counts : Counts p q sid
  pub room : get_free_space_ptr q + 6 * get_slot_count q ≤ 4096
  pub frontier : get_free_space_ptr q ≡ get_free_space_ptr p + 2 + length xs
  pub entry : read_slot q sid ≡ record { offset = get_free_space_ptr p; length = length xs }
  pub elsewhere : (s : ℕ) → s < get_slot_count q → s ≢ sid → read_slot q s ≡ read_slot p s
  pub below : (i : ℕ) → 21 ≤ i → i < get_free_space_ptr p → q i ≡ p i
  pub prefix : rd 2 q (get_free_space_ptr p) ≡ length xs
  pub payload : peek q (get_free_space_ptr p + 2) (length xs) ≡ xs

module _ {p q : Page} {sid : ℕ} {xs : List ℕ} (v : IsValid p) (w : Placed p q sid xs) where
  Placed-live : (read_slot q sid).offset ≢ slot_tombstone
  Placed-live = λ e. omega (arith, e, ap (λ d. d.offset) w.entry, v.room)

  pub Placed-lt : sid < get_slot_count q
  Placed-lt = elim w.counts [ grown e c t ↦ omega arith | reused h c t ↦ omega arith ]

  -- Another slot of the new page that is live was a live slot of the old one.
  Placed-old : (s : ℕ) → s < get_slot_count q → s ≢ sid → s < get_slot_count p
  Placed-old s h ne = elim w.counts [ grown e c t ↦ omega arith | reused g c t ↦ omega arith ]

  Placed-InRegion_self : (s : ℕ) → s ≡ sid → InRegion q (read_slot q s)
  Placed-InRegion_self s e =
      rw (e, w.entry)
        (record { low = v.header; high = omega (arith, w.frontier); prefix = w.prefix })

  Placed-InRegion_other :
      (s : ℕ)
      → s < get_slot_count q
      → s ≢ sid
      → (read_slot q s).offset ≢ slot_tombstone
      → InRegion q (read_slot q s)
  Placed-InRegion_other s h ne live =
      let same = w.elsewhere s h ne in
      let old = v.inside s (Placed-old s h ne) (rw same at live) in
      rw same (record {
        low = old.low;
        high = omega (arith, w.frontier, old.high);
        prefix =
            rd_cong 2 q p (read_slot p s).offset
              (λ k lo hi. w.below k (omega (arith, old.low)) (omega (arith, old.high)))
            ∙ old.prefix;
      })

  -- A total over the slots of the new page, from that over the slots of the old one.
  Placed-sum_grown :
      (f : SlotEntry → ℕ)
      → sid ≡ get_slot_count p
      → get_slot_count q ≡ get_slot_count p + 1
      → sum_below (λ s. f (read_slot q s)) (get_slot_count q)
        ≡ sum_below (λ s. f (read_slot p s)) (get_slot_count p) + f (read_slot q sid)
  Placed-sum_grown f e c =
      rw (c, e)
        (omega (
          arith,
          sum_below_suc (λ s. f (read_slot q s)) (get_slot_count p),
          sum_below_cong (λ s. f (read_slot q s)) (λ s. f (read_slot p s)) (get_slot_count p)
              (λ k h. ap f (w.elsewhere k (omega arith) (omega arith))),
        ))

  Placed-sum_reused :
      (f : SlotEntry → ℕ)
      → sid < get_slot_count p
      → get_slot_count q ≡ get_slot_count p
      → sum_below (λ s. f (read_slot q s)) (get_slot_count q) + f (read_slot p sid)
        ≡ sum_below (λ s. f (read_slot p s)) (get_slot_count p) + f (read_slot q sid)
  Placed-sum_reused f h c = rw c (
      sum_below_change (λ s. f (read_slot q s)) (λ s. f (read_slot p s)) (get_slot_count p) sid h
        (λ k g ne. ap f (w.elsewhere k (omega arith) ne)))

  Placed-InRegion :
      (s : ℕ)
      → s < get_slot_count q
      → (read_slot q s).offset ≢ slot_tombstone
      → InRegion q (read_slot q s)
  Placed-InRegion s h live = elim (ℕ_discrete s sid) [
    | yes e ↦ Placed-InRegion_self s e
    | no ne ↦ Placed-InRegion_other s h ne live
  ]

  Placed-before :
      (s : ℕ)
      → s < get_slot_count q
      → s ≢ sid
      → (read_slot q s).offset ≢ slot_tombstone
      → (read_slot q s).offset + 2 + (read_slot q s).length ≤ get_free_space_ptr p
  Placed-before s h ne live =
      let same = w.elsewhere s h ne in
      rw same (v.inside s (Placed-old s h ne) (rw same at live)).high

  Placed-Apart :
      (s t : ℕ)
      → s < get_slot_count q
      → t < get_slot_count q
      → s ≢ t
      → (read_slot q s).offset ≢ slot_tombstone
      → (read_slot q t).offset ≢ slot_tombstone
      → Apart (read_slot q s) (read_slot q t)
  Placed-Apart s t hs ht ne ls lt = elim (ℕ_discrete s sid) [
    | yes e ↦ inr (rw (e, w.entry) (Placed-before t ht (λ f. ne (e ∙ sym f)) lt))
    | no d ↦ elim (ℕ_discrete t sid) [
      | yes e ↦ inl (rw (e, w.entry) (Placed-before s hs d ls))
      | no d' ↦
          rw (w.elsewhere s hs d, w.elsewhere t ht d')
            (v.apart s t (Placed-old s hs d) (Placed-old t ht d') ne (rw (w.elsewhere s hs d) at ls)
              (rw (w.elsewhere t ht d') at lt))
    ]
  ]

  Placed-free : is_free (read_slot q sid) ≡ 0
  Placed-free = ground (arith, Placed-live)

  Placed-extent : extent (read_slot q sid) ≡ 2 + length xs
  Placed-extent = ground (arith, Placed-live, ap (λ d. d.length) w.entry)

  Placed-tombstones :
      get_tombstone_count q ≡ sum_below (λ s. is_free (read_slot q s)) (get_slot_count q)
  Placed-tombstones = elim w.counts [
    | grown e c t ↦ omega (arith, v.tombstones, Placed-sum_grown (λ d. is_free d) e c, Placed-free)
    | reused h c t ↦
        omega (arith, v.tombstones, Placed-sum_reused (λ d. is_free d) h c, Placed-free)
  ]

  Placed-total :
      sum_below (λ s. extent (read_slot q s)) (get_slot_count q) + 21 ≤ get_free_space_ptr q
  Placed-total = elim w.counts [
    | grown e c t ↦
        omega (arith, v.total, w.frontier, Placed-sum_grown (λ d. extent d) e c, Placed-extent)
    | reused h c t ↦
        omega (arith, v.total, w.frontier, Placed-sum_reused (λ d. extent d) h c, Placed-extent)
  ]

  pub Placed-IsValid : IsValid q
  Placed-IsValid = record {
    header = omega (arith, v.header, w.frontier);
    room = w.room;
    tombstones = Placed-tombstones;
    total = Placed-total;
    inside = Placed-InRegion;
    apart = Placed-Apart;
  }

  -- The slot reads back what was written.
  pub read_record-Placed_self : read_record q sid ≡ some xs
  read_record-Placed_self =
      read_record_live q sid Placed-IsValid Placed-lt Placed-live ∙ rw w.entry (ap some w.payload)

  Placed-read_old : (s : ℕ) → s < get_slot_count q → s ≢ sid → read_record q s ≡ read_record p s
  Placed-read_old s h ne = elim (ℕ_discrete (read_slot q s).offset slot_tombstone) [
    | yes e ↦ read_record_free q s e ∙ sym (read_record_free p s (rw (w.elsewhere s h ne) at e))
    | no live ↦
        let same = w.elsewhere s h ne in
        let live' = rw same at live in
        let old = v.inside s (Placed-old s h ne) live' in
        read_record_live q s Placed-IsValid h live
        ∙ rw same (
            ap some (
              peek_cong q p ((read_slot p s).offset + 2) ((read_slot p s).offset + 2)
                (read_slot p s).length
                (λ k lt. w.below _ (omega (arith, old.low)) (omega (arith, old.high)))))
        ∙ sym (read_record_live p s v (Placed-old s h ne) live')
  ]

  Placed-beyond : (s : ℕ) → get_slot_count q ≤ s → get_slot_count p ≤ s
  Placed-beyond s h = elim w.counts [ grown e c t ↦ omega arith | reused g c t ↦ omega arith ]

  -- Every other slot reads as before.
  pub read_record-Placed_ne : (s : ℕ) → s ≢ sid → read_record q s ≡ read_record p s
  read_record-Placed_ne s ne = elim (dec_lt s (get_slot_count q)) [
    | yes h ↦ Placed-read_old s h ne
    | no h ↦
        read_record_beyond q s (omega arith)
        ∙ sym (read_record_beyond p s (Placed-beyond s (omega arith)))
  ]
