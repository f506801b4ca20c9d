-- ===== src/Page/Compact.antt =====
-- compact keeps every record under its slot.
use persist_x.Base.{
  ℕ, zero, suc, ◌+◌, ◌≡◌, ◌≤◌, ◌<◌, inl, inr, sym, ◌∙◌, ap, arith, sum_below, sum_below_suc,
  sum_below_zero, ℕ_discrete, dec_lt, fun_ext,
}
use persist_x.Page.{
  Page, get_slot_count, get_tombstone_count, get_free_space_ptr, set_slot_count,
  set_tombstone_count, set_free_space_ptr, read_slot, mark_tombstone, slot_tombstone, compact_slot,
  compact_loop, compact, read_record,
}
use persist_x.Bytes.{rd-wr_self, rd-wr_outside}
use persist_x.Page.Frame.{slot_offset_lem}
use persist_x.Page.Valid.{IsValid, empty_page-IsValid, extent, read_record_free, read_record_beyond}
use persist_x.Page.FreeSlot.{get_tombstone_count-le}
use persist_x.Page.Counters.{
  set_slot_count_at, set_tombstone_count_at, get_slot_count-set_tombstone_count,
  get_tombstone_count-set_tombstone_count, get_free_space_ptr-set_tombstone_count,
  get_tombstone_count-set_slot_count, read_slot-set_tombstone_count, read_slot-set_slot_count,
}
use persist_x.Page.Writes.{
  write_slot_at, read_slot-write_slot_self, read_slot-write_slot_ne, get_slot_count-write_slot,
  get_tombstone_count-write_slot, get_free_space_ptr-write_slot,
}
use persist_x.Page.Buried.{Buried, Buried-IsValid, Buried-read}
use persist_x.Page.Replay.{
  Replayed, counted, counted-slot_count, counted-frontier, replay-room, replay_live,
  compact_slot_free,
}

module _ (old : Page) (v : IsValid old) (p : Page) (s : ℕ) (r : Replayed old p s)
    (h : s < get_slot_count old) (e : (read_slot old s).offset ≡ slot_tombstone) where
  abbrev marked : Page
  marked = mark_tombstone (counted old v p s r h) (get_slot_count p)

  marked-tombstone_count : get_tombstone_count marked ≡ get_tombstone_count p
  unfolding mark_tombstone
  marked-tombstone_count =
      get_tombstone_count-write_slot _ (get_slot_count p) slot_tombstone 0
        (omega (arith, r.count, v.room, v.header))
      ∙ get_tombstone_count-set_slot_count p _

  bound : get_slot_count p < 679
  bound = omega (arith, r.count, v.room, v.header)

  abbrev buried : Page
  buried = set_tombstone_count marked (get_tombstone_count marked + 1)

  buried-slot : (k : ℕ) → k < 679 → read_slot buried k ≡ read_slot marked k
  buried-slot k lt = read_slot-set_tombstone_count marked _ k lt

  buried-slot_count : get_slot_count buried ≡ get_slot_count p + 1
  unfolding mark_tombstone
  buried-slot_count =
      get_slot_count-set_tombstone_count marked _
      ∙ get_slot_count-write_slot _ (get_slot_count p) slot_tombstone 0 bound
      ∙ counted-slot_count old v p s r h
      ∙ ap (λ n. n + 1) (sym r.count)

  buried-frontier : get_free_space_ptr buried ≡ get_free_space_ptr p
  unfolding mark_tombstone
  buried-frontier =
      get_free_space_ptr-set_tombstone_count marked _
      ∙ get_free_space_ptr-write_slot _ (get_slot_count p) slot_tombstone 0 bound
      ∙ counted-frontier old v p s r h

  buried_at : (i : ℕ) → 21 ≤ i → i < get_free_space_ptr p → buried i ≡ p i
  unfolding mark_tombstone
  buried_at i low high =
      set_tombstone_count_at marked _ i (inr (omega arith))
      ∙ write_slot_at (counted old v p s r h) (get_slot_count p) slot_tombstone 0 i (
          inl (
            omega (
              arith,
              slot_offset_lem (get_slot_count p),
              bound,
              replay-room old v p s r h,
              r.count,
            )))
      ∙ set_slot_count_at p _ i (inr (omega arith))

  buried-Buried : Buried p buried
  unfolding mark_tombstone
  buried-Buried = record {
    count = buried-slot_count;
    tombstones =
        get_tombstone_count-set_tombstone_count marked _
          (omega (arith, marked-tombstone_count, get_tombstone_count-le p r.valid, bound))
        ∙ ap (λ n. n + 1) marked-tombstone_count;
    frontier = buried-frontier;
    room = omega (arith, buried-slot_count, buried-frontier, replay-room old v p s r h, r.count);
    entry =
        ap (λ d. d.offset)
          (buried-slot (get_slot_count p) bound
            ∙ read_slot-write_slot_self (counted old v p s r h) (get_slot_count p) slot_tombstone 0
                (omega arith) (omega arith));
    elsewhere = λ k lt.
        buried-slot k (omega (arith, bound))
        ∙ read_slot-write_slot_ne (counted old v p s r h) (get_slot_count p) slot_tombstone 0 k
            bound (omega (arith, bound)) (omega arith)
        ∙ read_slot-set_slot_count p _ k (omega (arith, bound));
    same = buried_at;
  }

  extent_free : extent (read_slot old s) ≡ 0
  extent_free = ground (arith, e)

  replay_free : Replayed old (compact_slot old p s) (s + 1)
  replay_free = rw (compact_slot_free old p s e) (record {
    valid = Buried-IsValid r.valid buried-Buried;
    count = buried-slot_count ∙ ap (λ n. n + 1) r.count;
    frontier = omega (
      arith,
      buried-frontier,
      r.frontier,
      extent_free,
      sum_below_suc (λ k. extent (read_slot old k)) s,
    );
    reads = λ k lt. elim (ℕ_discrete k s) [
      | yes q ↦
          let here = q ∙ sym r.count in
          read_record_free buried k (rw here buried-Buried.entry)
          ∙ sym (read_record_free old k (rw q e))
      | no ne ↦
          Buried-read r.valid buried-Buried k (omega (arith, r.count)) ∙ r.reads k (omega arith)
    ];
  })

module _ (old : Page) (v : IsValid old) where
  compact_slot-Replayed :
      (p : Page) (s : ℕ)
      → Replayed old p s
      → s < get_slot_count old
      → Replayed old (compact_slot old p s) (s + 1)
  compact_slot-Replayed p s r h = elim (ℕ_discrete (read_slot old s).offset slot_tombstone) [
    | yes e ↦ replay_free old v p s r h e
    | no live ↦ replay_live old v p s r h live
  ]

  compact_loop-Replayed :
      (p : Page) (s n : ℕ)
      → Replayed old p s
      → s + n ≡ get_slot_count old
      → Replayed old (compact_loop old p s n) (get_slot_count old)
  unfolding compact_loop
  compact_loop-Replayed p s zero r e = let q : s ≡ get_slot_count old = omega arith in rw q at r
  compact_loop-Replayed p s (suc n) r e =
      compact_loop-Replayed (compact_slot old p s) (s + 1) n
        (compact_slot-Replayed p s r (omega arith)) (omega arith)

  abbrev emptied : Page
  emptied = set_free_space_ptr (set_tombstone_count (set_slot_count old 0) 0) 21

  emptied-slot_count : get_slot_count emptied ≡ 0
  unfolding get_slot_count set_slot_count set_tombstone_count set_free_space_ptr
  emptied-slot_count = grind (arith, rd-wr_self, rd-wr_outside)

  emptied-tombstone_count : get_tombstone_count emptied ≡ 0
  unfolding get_tombstone_count set_slot_count set_tombstone_count set_free_space_ptr
  emptied-tombstone_count = grind (arith, rd-wr_self, rd-wr_outside)

  emptied-frontier : get_free_space_ptr emptied ≡ 21
  unfolding get_free_space_ptr set_slot_count set_tombstone_count set_free_space_ptr
  emptied-frontier = grind (arith, rd-wr_self, rd-wr_outside)

  emptied-Replayed : Replayed old emptied 0
  emptied-Replayed = record {
    valid = empty_page-IsValid emptied emptied-slot_count emptied-tombstone_count emptied-frontier;
    count = emptied-slot_count;
    frontier = omega (arith, emptied-frontier, sum_below_zero (λ k. extent (read_slot old k)));
    reads = λ k lt. absurd (omega arith);
  }

  compact-Replayed : Replayed old (compact old) (get_slot_count old)
  unfolding compact
  compact-Replayed =
      compact_loop-Replayed emptied 0 (get_slot_count old) emptied-Replayed (omega arith)

-- Compaction of a valid page leaves a valid page with as many slots, in which every slot reads as
-- before, and whose record region is as short as its live records allow.
pub compact-read :
    (p : Page)
    → IsValid p
    → IsValid (compact p)
      × (read_record (compact p) ≡ read_record p)
      × (get_slot_count (compact p) ≡ get_slot_count p)
      × (get_free_space_ptr (compact p)
          ≡ sum_below (λ s. extent (read_slot p s)) (get_slot_count p) + 21)
      × (get_free_space_ptr (compact p) ≤ get_free_space_ptr p)
compact-read p v =
    let r = compact-Replayed p v in
    (
      r.valid,
      fun_ext (λ s. elim (dec_lt s (get_slot_count p)) [
        | yes h ↦ r.reads s h
        | no h ↦
            read_record_beyond (compact p) s (omega (arith, r.count))
            ∙ sym (read_record_beyond p s (omega arith))
      ]),
      r.count,
      r.frontier,
      omega (arith, r.frontier, v.total),
    )
