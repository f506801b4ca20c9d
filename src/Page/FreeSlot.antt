-- ===== src/Page/FreeSlot.antt =====
-- find_free_slot: the scan of the directory for the lowest tombstone.
use persist_x.Base.{
  ℕ, zero, suc, ◌+◌, ◌≡◌, ◌≢◌, ◌≤◌, ◌<◌, inl, inr, arith, Bool-cases, ℕ_discrete, ==→eq, ==→ne,
  ◌==◌, sum_below_pos, sum_below-le, le-sum_below,
}
use persist_x.Bytes.{rd}
use persist_x.Page.{
  Page, SlotEntry, get_slot_count, get_tombstone_count, read_slot, slot_offset, find_free_from,
  find_free_slot, slot_tombstone,
}
use persist_x.Page.Valid.{IsValid, is_free}

-- The scan stops at the first tombstone.
pub record Finds (p : Page) (s r : ℕ) : Type 0 where
  pub from : s ≤ r
  pub free : (read_slot p r).offset ≡ slot_tombstone
  pub first : (k : ℕ) → s ≤ k → k < r → (read_slot p k).offset ≢ slot_tombstone

find_free_from_lem :
    (p : Page) (s n j : ℕ)
    → s ≤ j
    → j < s + n
    → (read_slot p j).offset ≡ slot_tombstone
    → (find_free_from p s n ≤ j) × Finds p s (find_free_from p s n)
unfolding find_free_from read_slot
find_free_from_lem p s zero j lo hi e = absurd (omega arith)
find_free_from_lem p s (suc n) j lo hi e =
    elim (Bool-cases (rd 4 p (slot_offset s) == slot_tombstone)) [
      | inl t ↦ rw t (
        omega arith,
        record { from = omega arith; free = ==→eq _ _ t; first = λ k a b. absurd (omega arith) },
      )
      | inr t ↦ rw t (
          let ne : s ≢ j = λ q. ==→ne _ _ t (rw q e) in
          let ih = find_free_from_lem p (s + 1) n j (omega arith) (omega arith) e in
          (
            ih.0,
            record {
              from = omega (arith, ih.1.from);
              free = ih.1.free;
              first = λ k lo' hi'. elim (ℕ_discrete s k) [
                | yes q ↦ (λ f. ==→ne _ _ t (rw q f))
                | no d ↦ ih.1.first k (omega arith) hi'
              ];
            },
          ))
    ]

pub find_free_slot_lem :
    (p : Page) (j : ℕ)
    → j < get_slot_count p
    → (read_slot p j).offset ≡ slot_tombstone
    → (find_free_slot p < get_slot_count p) × Finds p 0 (find_free_slot p)
unfolding find_free_slot
find_free_slot_lem p j h e =
    let r = find_free_from_lem p 0 (get_slot_count p) j (omega arith) (omega arith) e in
    (omega (arith, r.0), r.1)

is_free-le : (e : SlotEntry) → is_free e ≤ 1
is_free-le e = ground arith

tombstone_of_is_free :
    (p : Page) (s : ℕ) → 0 < is_free (read_slot p s) → (read_slot p s).offset ≡ slot_tombstone
tombstone_of_is_free p s h = ground arith

-- A valid page whose counter is not 0 has a tombstone.
pub tombstone_exists :
    (p : Page)
    → IsValid p
    → 0 < get_tombstone_count p
    → (j : ℕ) × (j < get_slot_count p) × ((read_slot p j).offset ≡ slot_tombstone)
tombstone_exists p v h =
    let r =
      sum_below_pos (λ s. is_free (read_slot p s)) (get_slot_count p)
        (omega (arith, v.tombstones)) in
    (r.0, r.1, tombstone_of_is_free p r.0 r.2)

-- There are at most as many tombstones as slots.
pub get_tombstone_count-le : (p : Page) → IsValid p → get_tombstone_count p ≤ get_slot_count p
get_tombstone_count-le p v = omega (
  arith,
  v.tombstones,
  sum_below-le (λ s. is_free (read_slot p s)) (get_slot_count p) (λ k. is_free-le (read_slot p k)),
)

-- The scan depends on the directory alone.
pub Finds-transfer :
    (p q : Page) (n r : ℕ)
    → r < n
    → ((s : ℕ) → s < n → read_slot q s ≡ read_slot p s)
    → Finds q 0 r
    → Finds p 0 r
Finds-transfer p q n r h same f = record {
  from = f.from;
  free = rw (same r h) at f.free;
  first = λ k lo hi. rw (same k (omega arith)) at (f.first k lo hi);
}

is_free_of_tombstone : (e : SlotEntry) → e.offset ≡ slot_tombstone → is_free e ≡ 1
is_free_of_tombstone e h = ground arith

-- A page with a tombstone counts one.
pub get_tombstone_count_pos :
    (p : Page) (s : ℕ)
    → IsValid p
    → s < get_slot_count p
    → (read_slot p s).offset ≡ slot_tombstone
    → 0 < get_tombstone_count p
get_tombstone_count_pos p s v h e = omega (
  arith,
  v.tombstones,
  le-sum_below (λ k. is_free (read_slot p k)) (get_slot_count p) s h,
  is_free_of_tombstone (read_slot p s) e,
)
