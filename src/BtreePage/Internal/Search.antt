-- ===== src/BtreePage/Internal/Search.antt =====
-- Searches after insert_after: those of the old child split between it and the new one.
use persist_x.Base.{
  ℕ, zero, suc, ◌+◌, ◌-◌, ◌^◌, ◌≡◌, ◌≢◌, ◌<◌, ◌≤◌, inl, inr, sym, ap, ◌∙◌, arith, true, Bool-cases,
  ℕ_discrete, dec_lt, if◌then◌else◌, ◌==◌, eq→==, ne→==,
}
use persist_x.Page.{Page}
use persist_x.BtreePage.Keys.{
  IsBytes, rank, less_key, less_key_iff, not_less_key, PutIn, place, put_in-Ordered,
}
use persist_x.BtreePage.Internal.{
  get_num_keys, get_key_at, get_child_at, internal_max_keys, insert_after, lookup_child,
}
use persist_x.BtreePage.Internal.Route.{Sorted, Routes, Routes-unique, lookup_child-Routes}
use persist_x.BtreePage.Internal.InsertAfter.{Split, insert_after-Split}

-- The key belongs behind the child `i`: the keys before it are no larger, those behind no smaller.
abbrev pub Separates : Page → ℕ → ℕ → Type 0
Separates p i key =
    ((j : ℕ) → j < i → rank (get_key_at p j) ≤ rank key)
    × ((j : ℕ) → i ≤ j → j < get_num_keys p → rank key ≤ rank (get_key_at p j))

module _ (p q : Page) (i key new : ℕ) (sorted : Sorted p) (le : i ≤ get_num_keys p)
    (between : Separates p i key) (s : Split p i key new q) where
  ranks :
      PutIn (λ j. rank (get_key_at p j)) (get_num_keys p) i (rank key) (λ j. rank (get_key_at q j))
  ranks = record {
    below = λ j h. ap rank (s.below j h).key;
    here = ap rank s.new_key;
    moved = λ j lo hi. ap rank (s.moved j lo hi).key;
  }

  split-Sorted : Sorted q
  split-Sorted a b ab lt =
      put_in-Ordered _ _ (get_num_keys p) i (rank key) ranks sorted between.0 between.1 le a b ab
        (omega (arith, lt, s.num_keys))

  -- The child at an index up to `i`, and behind the new one.
  child_below : (r : ℕ) → r ≤ i → get_child_at q r ≡ get_child_at p r
  child_below zero h = s.first
  child_below (suc r) h =
      let e : suc r ≡ r + 1 = omega arith in
      ap (get_child_at q) e ∙ (s.below r (omega (arith, h))).child ∙ ap (get_child_at p) (sym e)

  child_behind : (r : ℕ) → i < r → r ≤ get_num_keys p → get_child_at q (r + 1) ≡ get_child_at p r
  child_behind r h top =
      let e : r - 1 + 1 ≡ r = omega (arith, h) in
      ap (λ x. get_child_at q (x + 1)) (sym e)
      ∙ (s.moved (r - 1) (omega (arith, h)) (omega (arith, h, top))).child
      ∙ ap (get_child_at p) e

  -- A search that goes left of the new key.
  left : (k r : ℕ) → Routes p k r → r ≤ i → rank k < rank key → Routes q k r
  left k r x h smaller = (
    omega (arith, x.0, s.num_keys),
    λ j lt.
        let a = ap rank (s.below j (omega (arith, lt, h))).key in
        let o = x.1 j lt in omega (arith, a, o),
    λ j from lt. elim (place _ _ _ i (rank key) ranks j (omega (arith, lt, s.num_keys))) [
      | inl below ↦
          let a = ap rank (s.below j below).key in
          let o = x.2 j from (omega (arith, below, le)) in omega (arith, a, o)
      | inr (inl e) ↦ let a = ap rank (ap (get_key_at q) e ∙ s.new_key) in omega (arith, a, smaller)
      | inr (inr (behind, a)) ↦
          let o = x.2 (j - 1) (omega (arith, behind, h)) (omega (arith, behind, lt, s.num_keys)) in
          omega (arith, a, o)
    ],
  )

  -- A search that goes right of the new key.
  right : (k r : ℕ) → Routes p k r → i ≤ r → rank key ≤ rank k → Routes q k (r + 1)
  right k r x h larger = (
    (let n = x.0 in omega (arith, n, s.num_keys)),
    λ j lt. elim (place _ _ _ i (rank key) ranks j (let n = x.0 in omega (arith, lt, n))) [
      | inl below ↦
          let a = ap rank (s.below j below).key in
          let o = x.1 j (omega (arith, below, h)) in omega (arith, a, o)
      | inr (inl e) ↦ let a = ap rank (ap (get_key_at q) e ∙ s.new_key) in omega (arith, a, larger)
      | inr (inr (behind, a)) ↦
          let o = x.1 (j - 1) (omega (arith, behind, lt)) in omega (arith, a, o)
    ],
    λ j from lt.
        let e : j - 1 + 1 ≡ j = omega (arith, from) in
        let m = s.moved (j - 1) (omega (arith, from, h)) (omega (arith, from, lt, s.num_keys)) in
        let a = ap rank (ap (get_key_at q) (sym e) ∙ m.key) in
        let o = x.2 (j - 1) (omega (arith, from)) (omega (arith, from, lt, s.num_keys)) in
        omega (arith, a, o),
  )

  reaches : (k r : ℕ) → Routes q k r → lookup_child q k ≡ get_child_at q r
  reaches k r x =
      let (r', y, found) = lookup_child-Routes q k split-Sorted in
      found ∙ ap (get_child_at q) (Routes-unique q k r' r y x)

-- In a node with room whose keys are in order, insert_after with a key that belongs behind the
-- first occurrence of the old child succeeds: a search that reached the old
-- child reaches it still if it is for a smaller key, and the new child otherwise. Every other
-- search reaches the child it reached before, and the keys are in order.
pub lookup_child-insert_after :
    (p : Page) (old key new i : ℕ)
    → IsBytes p
    → Sorted p
    → get_num_keys p < internal_max_keys
    → key < 2 ^ 64
    → new < 2 ^ 32
    → i ≤ get_num_keys p
    → get_child_at p i ≡ old
    → ((j : ℕ) → j < i → get_child_at p j ≢ old)
    → Separates p i key
    → ((insert_after p old key new).1 ≡ true)
      × Sorted (insert_after p old key new).0
      × ((k r : ℕ)
          → Routes p k r
          → lookup_child (insert_after p old key new).0 k
            ≡ (if r == i then (if less_key k key then old else new) else get_child_at p r))
lookup_child-insert_after p old key new i bytes sorted room key_small new_small le here first
      between =
    elim (insert_after-Split p old key new i bytes (omega (arith, room)) key_small new_small le here
      first) [
        | inl (full, same) ↦ absurd (omega (arith, full, room))
        | inr (ok, s) ↦
            let q = (insert_after p old key new).0 in
            (
              ok,
              split-Sorted p q i key new sorted le between s,
              λ k r x. elim (ℕ_discrete r i) [
                | yes e ↦ elim (Bool-cases (less_key k key)) [
                  | inl h ↦
                      rw (eq→== r i e, h)
                        (reaches p q i key new sorted le between s k r (
                            left p q i key new sorted le between s k r x (omega (arith, e))
                              (less_key_iff k key h))
                          ∙ child_below p q i key new sorted le between s r (omega (arith, e))
                          ∙ ap (get_child_at p) e
                          ∙ here)
                  | inr h ↦
                      rw (eq→== r i e, h)
                        (reaches p q i key new sorted le between s k (r + 1) (
                            right p q i key new sorted le between s k r x (omega (arith, e))
                              (not_less_key k key h))
                          ∙ ap (λ y. get_child_at q (y + 1)) e
                          ∙ s.new_behind)
                ]
                | no ne ↦ rw (ne→== r i ne) (elim (dec_lt r i) [
                  | yes h ↦
                      reaches p q i key new sorted le between s k r (
                        left p q i key new sorted le between s k r x (omega (arith, h)) (
                          let a = x.2 r (omega arith) (omega (arith, h, le)) in
                          let b = between.0 r h in omega (arith, a, b)))
                      ∙ child_below p q i key new sorted le between s r (omega (arith, h))
                  | no h ↦
                      reaches p q i key new sorted le between s k (r + 1) (
                        right p q i key new sorted le between s k r x (omega (arith, h)) (
                          let n = x.0 in
                          let a = x.1 i (omega (arith, h, ne)) in
                          let b = between.1 i (omega arith) (omega (arith, h, ne, n)) in
                          omega (arith, a, b)))
                      ∙ child_behind p q i key new sorted le between s r (omega (arith, h, ne)) x.0
                ])
              ],
            )
      ]
