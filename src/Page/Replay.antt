-- ===== src/Page/Replay.antt =====
-- One round of the loop of compact on a live slot.
use persist_x.Base.{
  ℕ, ◌+◌, ◌*◌, ◌≡◌, ◌≢◌, ◌≤◌, ◌<◌, inr, refl, sym, ◌∙◌, ap, arith, List, length, sum_below,
  sum_below_suc, sum_below_mono, ne→==, eq→==, ℕ_discrete,
}
use persist_x.Bytes.{peek, length-peek, put_cong, wr_cong}
use persist_x.Page.{
  Page, get_slot_count, get_tombstone_count, get_free_space_ptr, set_slot_count,
  set_tombstone_count, set_free_space_ptr, read_slot, write_slot, mark_tombstone, slot_tombstone,
  append_data, compact_slot, read_record, stamp,
}
use persist_x.Page.Valid.{IsValid, extent, read_record_live}
use persist_x.Page.Counters.{
  set_slot_count_at, get_slot_count-set_slot_count, get_free_space_ptr-set_slot_count,
  get_tombstone_count-set_slot_count,
}
use persist_x.Page.Placed.{
  Placed, grown, reused, Placed-IsValid, read_record-Placed_self, read_record-Placed_ne,
}
use persist_x.Page.Place.{place-Placed}
use persist_x.Page.Writes.{
  get_slot_count-append_data, get_tombstone_count-append_data, get_free_space_ptr-append_data,
}

-- What holds of the page after the first `s` slots of `old` have been replayed.
pub record Replayed (old new : Page) (s : ℕ) : Type 0 where
  pub valid : IsValid new
  pub count : get_slot_count new ≡ s
  pub frontier : get_free_space_ptr new ≡ sum_below (λ k. extent (read_slot old k)) s + 21
  pub reads : (k : ℕ) → k < s → read_record new k ≡ read_record old k

stamp-zero : (p : Page) → stamp p 0 ≡ p
unfolding stamp
stamp-zero p = ground arith

abbrev payload : Page → ℕ → List ℕ
payload old s = peek old ((read_slot old s).offset + 2) (read_slot old s).length

-- A live slot's round is an append of its old payload, and the entry.
compact_slot_live :
    (old p : Page) (s : ℕ)
    → (read_slot old s).offset ≢ slot_tombstone
    → compact_slot old p s
      ≡ write_slot
          (append_data
            (set_slot_count p (get_slot_count p + 1))
            (peek old ((read_slot old s).offset + 2) (read_slot old s).length))
          (get_slot_count p)
          (get_free_space_ptr (set_slot_count p (get_slot_count p + 1)))
          (read_slot old s).length
unfolding compact_slot append_data
compact_slot_live old p s live =
    rw (ne→== _ _ live)
      (rw (length-peek old ((read_slot old s).offset + 2) (read_slot old s).length) refl)

pub compact_slot_free :
    (old p : Page) (s : ℕ)
    → (read_slot old s).offset ≡ slot_tombstone
    → compact_slot old p s
      ≡ set_tombstone_count
          (mark_tombstone (set_slot_count p (get_slot_count p + 1)) (get_slot_count p))
          (get_tombstone_count
              (mark_tombstone (set_slot_count p (get_slot_count p + 1)) (get_slot_count p))
            + 1)
unfolding compact_slot
compact_slot_free old p s e = rw (eq→== _ _ e) refl

append_data_cong :
    (p q : Page) (xs : List ℕ) (i : ℕ)
    → 21 ≤ i
    → get_free_space_ptr p ≡ get_free_space_ptr q
    → p i ≡ q i
    → append_data p xs i ≡ append_data q xs i
unfolding append_data set_free_space_ptr
append_data_cong p q xs i h e same = rw e (
    wr_cong 4 _ _ 9 (get_free_space_ptr q + 2 + length xs) i (
      put_cong _ _ (get_free_space_ptr q + 2) xs i
        (wr_cong 2 p q (get_free_space_ptr q) (length xs) i same)))

module _ (old : Page) (v : IsValid old) (p : Page) (s : ℕ) (r : Replayed old p s)
    (h : s < get_slot_count old) where
  abbrev pub counted : Page
  counted = set_slot_count p (get_slot_count p + 1)

  pub small : get_slot_count old < 680
  small = omega (arith, v.room, v.header)

  pub counted-slot_count : get_slot_count counted ≡ s + 1
  counted-slot_count =
      get_slot_count-set_slot_count p (get_slot_count p + 1) (omega (arith, r.count, small))
      ∙ ap (λ n. n + 1) r.count

  pub counted-frontier : get_free_space_ptr counted ≡ get_free_space_ptr p
  counted-frontier = get_free_space_ptr-set_slot_count p _

  pub replay-room : get_free_space_ptr p + extent (read_slot old s) + 6 * (s + 1) ≤ 4096
  replay-room = omega (
    arith,
    r.frontier,
    v.total,
    v.room,
    sum_below_suc (λ k. extent (read_slot old k)) s,
    sum_below_mono (λ k. extent (read_slot old k)) (s + 1) (get_slot_count old) (omega arith),
  )

  module _ (live : (read_slot old s).offset ≢ slot_tombstone) where
    abbrev xs : List ℕ
    xs = payload old s

    extent_live : extent (read_slot old s) ≡ 2 + length xs
    extent_live =
        ground (arith, length-peek old ((read_slot old s).offset + 2) (read_slot old s).length)

    xs-length : length xs ≡ (read_slot old s).length
    xs-length = length-peek old ((read_slot old s).offset + 2) (read_slot old s).length

    appended-frontier :
        get_free_space_ptr (append_data counted xs) ≡ get_free_space_ptr (append_data p xs)
    appended-frontier =
        get_free_space_ptr-append_data counted xs (rw counted-frontier r.valid.header)
          (omega (arith, counted-frontier, replay-room, extent_live))
        ∙ ap (λ n. n + 2 + length xs) counted-frontier
        ∙ sym (
            get_free_space_ptr-append_data p xs r.valid.header
              (omega (arith, replay-room, extent_live)))

    appended-slot_count : get_slot_count (append_data counted xs) ≡ s + 1
    appended-slot_count =
        get_slot_count-append_data counted xs (rw counted-frontier r.valid.header)
          (omega (arith, counted-frontier, replay-room, extent_live))
        ∙ counted-slot_count

    appended-tombstone_count : get_tombstone_count (append_data counted xs) ≡ get_tombstone_count p
    appended-tombstone_count =
        get_tombstone_count-append_data counted xs (rw counted-frontier r.valid.header)
          (omega (arith, counted-frontier, replay-room, extent_live))
        ∙ get_tombstone_count-set_slot_count p _

    replay-eq :
        compact_slot old p s
        ≡ stamp (write_slot (append_data counted xs) s (get_free_space_ptr p) (length xs)) 0
    replay-eq =
        compact_slot_live old p s live
        ∙ rw (counted-frontier, r.count, xs-length) (sym (stamp-zero _))

    replay-Placed : Placed p (compact_slot old p s) s xs
    replay-Placed = rw replay-eq (
        place-Placed p (append_data counted xs) s xs 0 r.valid.header
          (omega (arith, appended-slot_count, replay-room, extent_live))
          (λ i low.
            append_data_cong counted p xs i low counted-frontier
              (set_slot_count_at p _ i (inr (omega arith))))
          appended-frontier (omega (arith, appended-slot_count))
          (grown (sym r.count) (omega (arith, appended-slot_count, r.count))
            appended-tombstone_count))

    replay-count : get_slot_count (compact_slot old p s) ≡ s + 1
    replay-count = elim replay-Placed.counts [
      | grown e c t ↦ omega (arith, r.count)
      | reused g c t ↦ absurd (omega (arith, r.count))
    ]

    pub replay_live : Replayed old (compact_slot old p s) (s + 1)
    replay_live = record {
      valid = Placed-IsValid r.valid replay-Placed;
      count = replay-count;
      frontier = omega (
        arith,
        replay-Placed.frontier,
        r.frontier,
        extent_live,
        sum_below_suc (λ k. extent (read_slot old k)) s,
      );
      reads = λ k lt. elim (ℕ_discrete k s) [
        | yes e ↦
            rw e (
              read_record-Placed_self r.valid replay-Placed ∙ sym (read_record_live old s v h live))
        | no ne ↦ read_record-Placed_ne r.valid replay-Placed k ne ∙ r.reads k (omega arith)
      ];
    }
