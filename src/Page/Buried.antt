-- ===== src/Page/Buried.antt =====
-- What a tombstone added at the end of the directory does to a page: the round of compact on a slot
-- that was a tombstone.
use persist_x.Base.{
  ℕ, ◌+◌, ◌*◌, ◌≡◌, ◌≢◌, ◌≤◌, ◌<◌, refl, sym, ◌∙◌, ap, sum_below, sum_below_cong, sum_below_suc,
  arith, ℕ_discrete, some,
}
use persist_x.Bytes.{rd_cong, peek_cong}
use persist_x.Page.{
  Page, SlotEntry, get_slot_count, get_tombstone_count, get_free_space_ptr, read_slot,
  slot_tombstone, read_record,
}
use persist_x.Page.Valid.{IsValid, InRegion, is_free, extent, read_record_live, read_record_free}

pub record Buried (p q : Page) : Type 0 where
  pub count : get_slot_count q ≡ get_slot_count p + 1
  pub tombstones : get_tombstone_count q ≡ get_tombstone_count p + 1
  pub frontier : get_free_space_ptr q ≡ get_free_space_ptr p
  pub room : get_free_space_ptr q + 6 * get_slot_count q ≤ 4096
  pub entry : (read_slot q (get_slot_count p)).offset ≡ slot_tombstone
  pub elsewhere : (s : ℕ) → s < get_slot_count p → read_slot q s ≡ read_slot p s
  pub same : (i : ℕ) → 21 ≤ i → i < get_free_space_ptr p → q i ≡ p i

module _ {p q : Page} (v : IsValid p) (w : Buried p q) where
  Buried-old :
      (s : ℕ)
      → s < get_slot_count q
      → (read_slot q s).offset ≢ slot_tombstone
      → s < get_slot_count p
  Buried-old s h l = elim (ℕ_discrete s (get_slot_count p)) [
    | yes e ↦ absurd (l (rw e w.entry))
    | no ne ↦ omega (arith, w.count)
  ]

  Buried-InRegion :
      (s : ℕ)
      → s < get_slot_count p
      → (read_slot p s).offset ≢ slot_tombstone
      → InRegion q (read_slot p s)
  Buried-InRegion s h l =
      let old = v.inside s h l in
      record {
        low = old.low;
        high = omega (arith, w.frontier, old.high);
        prefix =
            rd_cong 2 q p (read_slot p s).offset
              (λ k lo hi. w.same k (omega (arith, old.low)) (omega (arith, old.high)))
            ∙ old.prefix;
      }

  Buried-sum :
      (f : SlotEntry → ℕ)
      → sum_below (λ s. f (read_slot q s)) (get_slot_count q)
        ≡ sum_below (λ s. f (read_slot p s)) (get_slot_count p) + f (read_slot q (get_slot_count p))
  Buried-sum f = rw w.count (
      omega (
        arith,
        sum_below_suc (λ s. f (read_slot q s)) (get_slot_count p),
        sum_below_cong (λ s. f (read_slot q s)) (λ s. f (read_slot p s)) (get_slot_count p)
            (λ k h. ap f (w.elsewhere k h)),
      ))

  Buried-is_free : is_free (read_slot q (get_slot_count p)) ≡ 1
  Buried-is_free = rw w.entry refl

  Buried-extent : extent (read_slot q (get_slot_count p)) ≡ 0
  Buried-extent = rw w.entry refl

  Buried-slot :
      (s : ℕ)
      → s < get_slot_count q
      → (read_slot q s).offset ≢ slot_tombstone
      → read_slot q s ≡ read_slot p s
  Buried-slot s h l = w.elsewhere s (Buried-old s h l)

  pub Buried-IsValid : IsValid q
  Buried-IsValid = record {
    header = rw w.frontier v.header;
    room = w.room;
    tombstones =
        omega (arith, w.tombstones, v.tombstones, Buried-sum (λ d. is_free d), Buried-is_free);
    total = omega (arith, v.total, w.frontier, Buried-sum (λ d. extent d), Buried-extent);
    inside = λ s h l.
        rw (Buried-slot s h l) (Buried-InRegion s (Buried-old s h l) (rw (Buried-slot s h l) at l));
    apart = λ s t hs ht ne ls lt.
        rw (Buried-slot s hs ls, Buried-slot t ht lt)
          (v.apart s t (Buried-old s hs ls) (Buried-old t ht lt) ne (rw (Buried-slot s hs ls) at ls)
            (rw (Buried-slot t ht lt) at lt));
  }

  -- The slots that the page already had read as before.
  pub Buried-read : (s : ℕ) → s < get_slot_count p → read_record q s ≡ read_record p s
  Buried-read s h = elim (ℕ_discrete (read_slot p s).offset slot_tombstone) [
    | yes e ↦ read_record_free q s (rw (w.elsewhere s h) e) ∙ sym (read_record_free p s e)
    | no l ↦
        let old = v.inside s h l in
        read_record_live q s Buried-IsValid (omega (arith, w.count)) (rw (w.elsewhere s h) l)
        ∙ rw (w.elsewhere s h) (
            ap some (
              peek_cong q p ((read_slot p s).offset + 2) ((read_slot p s).offset + 2)
                (read_slot p s).length
                (λ k lt. w.same _ (omega (arith, old.low)) (omega (arith, old.high)))))
        ∙ sym (read_record_live p s v h l)
  ]
