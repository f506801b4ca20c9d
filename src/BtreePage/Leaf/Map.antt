-- ===== src/BtreePage/Leaf/Map.antt =====
-- An insert as an update of the map from keys to record identifiers.
use persist_x.Base.{
  ℕ, ◌+◌, ◌-◌, ◌^◌, ◌≡◌, ◌<◌, ◌≤◌, inl, inr, sym, ap, ◌∙◌, arith, true, ◌==◌, ℕ_discrete, dec_lt,
  if◌then◌else◌, eq→==, ne→==,
}
use persist_x.Types.{Rid}
use persist_x.Page.{Page}
use persist_x.BtreePage.Keys.{rank, rank_injective, PutIn, place, put_in-Ordered}
use persist_x.BtreePage.Leaf.{get_num_keys, get_key_at, leaf_max_entries, key_index, insert, lookup}
use persist_x.BtreePage.Leaf.Search.{Sorted, LowerBound, key_index-LowerBound}
use persist_x.BtreePage.Leaf.Entries.{Small}
use persist_x.BtreePage.Leaf.Valid.{IsLeaf}
use persist_x.BtreePage.Leaf.Insert.{Inserted, insert-Inserted}
use persist_x.BtreePage.Leaf.Lookup.{pick-hit, pick-miss, pick-Same, lookup-pick}

module _ (p q : Page) (pos key : ℕ) (rid : Rid) (v : IsLeaf p) (l : LowerBound p key pos)
    (s : Inserted p pos key rid q) where
  ranks :
      PutIn
        (λ i. rank (get_key_at p i))
        (get_num_keys p)
        pos
        (rank key)
        (λ i. rank (get_key_at q i))
  ranks = record {
    below = λ j h. ap rank (s.below j h).key;
    here = ap rank s.new_key;
    moved = λ j lo hi. ap rank (s.moved j lo hi).key;
  }

  inserted-Sorted : Sorted q
  inserted-Sorted i j le lt =
      put_in-Ordered (λ i. rank (get_key_at p i)) (λ i. rank (get_key_at q i)) (get_num_keys p) pos
        (rank key) ranks v.sorted (λ j h. let o = l.1 j h in omega (arith, o)) l.2 l.0 i j le
        (omega (arith, lt, s.num_keys))

  -- The lower bound of a key up to the new one stays; that of a larger key moves up.
  lower-le : (k a : ℕ) → rank k ≤ rank key → LowerBound p k a → (a ≤ pos) × LowerBound q k a
  lower-le k a order x =
      let le : a ≤ pos = elim (dec_lt pos a) [
        | no h ↦ omega (arith, h)
        | yes h ↦
            let low = x.1 pos h in
            let high = l.2 pos (omega arith) (omega (arith, h, x.0)) in
            absurd (omega (arith, low, high, order))
      ] in
      (
        le,
        (
          omega (arith, x.0, s.num_keys),
          λ i h.
              let b = ap rank (s.below i (omega (arith, h, le))).key in
              let o = x.1 i h in omega (arith, b, o),
          λ i h lt. elim (place _ _ _ pos (rank key) ranks i (omega (arith, lt, s.num_keys))) [
            | inl below ↦
                let b = ap rank (s.below i below).key in
                let o = x.2 i h (omega (arith, below, l.0)) in omega (arith, b, o)
            | inr (inl e) ↦
                let b = ap rank (ap (get_key_at q) e ∙ s.new_key) in omega (arith, b, order)
            | inr (inr (behind, b)) ↦
                let o =
                  x.2 (i - 1) (omega (arith, behind, le)) (omega (arith, lt, behind, s.num_keys)) in
                omega (arith, b, o)
          ],
        ),
      )

  lower-gt : (k a : ℕ) → rank key < rank k → LowerBound p k a → (pos ≤ a) × LowerBound q k (a + 1)
  lower-gt k a order x =
      let le : pos ≤ a = elim (dec_lt a pos) [
        | no h ↦ omega (arith, h)
        | yes h ↦
            let low = l.1 a h in
            let high = x.2 a (omega arith) (omega (arith, h, l.0)) in
            absurd (omega (arith, low, high, order))
      ] in
      (
        le,
        (
          omega (arith, x.0, s.num_keys),
          λ i h. elim (place _ _ _ pos (rank key) ranks i (let n = x.0 in omega (arith, h, n))) [
            | inl below ↦
                let b = ap rank (s.below i below).key in
                let o = x.1 i (omega (arith, below, le)) in omega (arith, b, o)
            | inr (inl e) ↦
                let b = ap rank (ap (get_key_at q) e ∙ s.new_key) in omega (arith, b, order)
            | inr (inr (behind, b)) ↦
                let o = x.1 (i - 1) (omega (arith, h, behind)) in omega (arith, b, o)
          ],
          λ i h lt.
              let e : i ≡ i - 1 + 1 = omega (arith, h) in
              let m = s.moved (i - 1) (omega (arith, h, le)) (omega (arith, lt, h, s.num_keys)) in
              let b = ap rank (ap (get_key_at q) e ∙ m.key) in
              let o = x.2 (i - 1) (omega (arith, h)) (omega (arith, lt, h, s.num_keys)) in
              omega (arith, b, o),
        ),
      )

  inserted-IsLeaf : get_num_keys p < leaf_max_entries → IsLeaf q
  inserted-IsLeaf room = record {
    bytes = s.bytes;
    room = omega (arith, room, s.num_keys);
    sorted = inserted-Sorted;
  }

  -- lookup after the insert.
  lookup-inserted :
      (k : ℕ)
      → get_num_keys p < leaf_max_entries
      → key < 2 ^ 64
      → k < 2 ^ 64
      → lookup q k ≡ (if k == key then rid else lookup p k)
  lookup-inserted k room key_small small =
      let a = key_index p k in
      let x = key_index-LowerBound p k v.sorted (omega (arith, room)) in
      let old = lookup-pick p k a v x in
      let w = inserted-IsLeaf room in
      elim (ℕ_discrete k key) [
        | yes e ↦
            let y = lower-le key pos (omega arith) l in
            rw (eq→== k key e) (
              ap (lookup q) e
              ∙ lookup-pick q key pos w y.1
              ∙ pick-hit q key pos (let h = l.0 in omega (arith, h, s.num_keys)) s.new_key
              ∙ s.new_rid)
        | no ne ↦
            rw (ne→== k key ne, old)
              (elim (dec_lt (rank key) (rank k)) [
                | yes h ↦
                    let y = lower-gt k a h x in
                    lookup-pick q k (a + 1) w y.1 ∙ elim (dec_lt a (get_num_keys p)) [
                      | yes lt ↦
                          pick-Same p q k a (a + 1) (s.moved a y.0 lt) lt
                            (omega (arith, lt, s.num_keys))
                      | no ge ↦
                          pick-miss q k (a + 1) (λ lt. absurd (omega (arith, lt, ge, s.num_keys)))
                          ∙ sym (pick-miss p k a (λ lt. absurd (ge lt)))
                    ]
                | no h ↦
                    let y = lower-le k a (omega (arith, h)) x in
                    lookup-pick q k a w y.1 ∙ elim (dec_lt a pos) [
                      | yes lt ↦
                          let le = l.0 in
                          pick-Same p q k a a (s.below a lt) (omega (arith, lt, le))
                            (omega (arith, lt, le, s.num_keys))
                      | no ge ↦
                          let at_pos : a ≡ pos = omega (arith, ge, y.0) in
                          pick-miss q k a
                            (λ lt e. ne (sym e ∙ ap (get_key_at q) at_pos ∙ s.new_key))
                          ∙ sym (
                              pick-miss p k a (λ lt e.
                                let o = l.2 a (omega (arith, at_pos)) lt in
                                let e' = ap rank e in
                                ne
                                  (rank_injective k key small key_small (omega (arith, o, e', h)))))
                    ]
              ])
      ]

-- In a leaf with room, insert succeeds, keeps the leaf well formed, and from then on lookup finds
-- the new identifier under its key, also if the key was there before, and under every other key
-- what it found before.
pub lookup-insert :
    (p : Page) (key : ℕ) (rid : Rid)
    → IsLeaf p
    → Small key rid
    → get_num_keys p < leaf_max_entries
    → ((insert p key rid).1 ≡ true)
      × IsLeaf (insert p key rid).0
      × ((k : ℕ)
          → k < 2 ^ 64
          → lookup (insert p key rid).0 k ≡ (if k == key then rid else lookup p k))
lookup-insert p key rid v small room = elim (insert-Inserted p key rid v small) [
  | inl (full, same) ↦ absurd (omega (arith, full, room))
  | inr (ok, s) ↦
      let l = key_index-LowerBound p key v.sorted (omega (arith, room)) in
      let q = (insert p key rid).0 in
      let pos = key_index p key in
      (
        ok,
        inserted-IsLeaf p q pos key rid v l s room,
        λ k h. lookup-inserted p q pos key rid v l s k room small.0 h,
      )
]
