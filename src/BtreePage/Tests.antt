-- ===== src/BtreePage/Tests.antt =====
-- A leaf with one entry, and an internal node with one child.
use persist_x.Base.{ℕ, ◌-◌, ◌^◌, ◌≡◌, ◌↔◌, ◌<◌, refl, ap, arith, true, if◌then◌else◌, ◌==◌}
use persist_x.Bytes.{rd, wr, put, peek, from_le, le_bytes}
use persist_x.Types.{Rid, invalid_rid}
use persist_x.Page.{Page, clear}
use persist_x.BtreePage.Keys.{IsBytes, less_key, rank, wr-IsBytes}
use persist_x.BtreePage.Leaf
use persist_x.BtreePage.Leaf.Valid.{IsLeaf, init-IsLeaf}
use persist_x.BtreePage.Leaf.Map.{lookup-insert}
use persist_x.BtreePage.Leaf.Forget.{lookup-remove}
use persist_x.BtreePage.Internal
use persist_x.BtreePage.Internal.Route.{Sorted, Routes}
use persist_x.BtreePage.Internal.Search.{lookup_child-insert_after}

-- ─── a leaf ───

abbrev empty : Page
empty = Leaf.init (λ i. 0) 5

empty-IsLeaf : IsLeaf empty
empty-IsLeaf = (init-IsLeaf (λ i. 0) 5 (λ i. omega arith) (omega arith)).0

abbrev rid : Rid
rid = record { page_id = 9; slot_id = 2 }

-- The key -1.
abbrev key : ℕ
key = 2 ^ 64 - 1

lookup-insert_example :
    ((Leaf.insert empty key rid).1 ≡ true)
    × IsLeaf (Leaf.insert empty key rid).0
    × ((k : ℕ)
        → k < 2 ^ 64
        → Leaf.lookup (Leaf.insert empty key rid).0 k
          ≡ (if k == key then rid else Leaf.lookup empty k))
lookup-insert_example =
    lookup-insert empty key rid empty-IsLeaf (omega arith, omega arith, omega arith)
      (let n = (init-IsLeaf (λ i. 0) 5 (λ i. omega arith) (omega arith)).1 in omega (arith, n))

abbrev one : Page
one = (Leaf.insert empty key rid).0

one_key : Leaf.get_num_keys one ≡ 1
unfolding Leaf.insert Leaf.key_index Leaf.search Leaf.shift_right Leaf.set_num_keys Leaf.set_rid_at
    Leaf.set_key_at Leaf.get_num_keys Leaf.init clear rd wr put peek from_le le_bytes
one_key = refl

lookup-remove_example :
    IsLeaf (Leaf.remove one key).0
    × ((k : ℕ)
        → k < 2 ^ 64
        → Leaf.lookup (Leaf.remove one key).0 k
          ≡ (if k == key then invalid_rid else Leaf.lookup one k))
    × (((Leaf.remove one key).1 ≡ true)
        ↔ ((i : ℕ) × (i < Leaf.get_num_keys one) × (Leaf.get_key_at one i ≡ key)))
lookup-remove_example =
    lookup-remove one key lookup-insert_example.1 (omega arith)
      (λ i j hi hj a b. omega (arith, hi, hj, one_key))

-- ─── an internal node ───

-- The root over two leaves: child 7 up to the key 10, then child 8.
abbrev root : Page
root =
    Internal.set_num_keys
      (Internal.set_child_at
        (Internal.set_key_at (Internal.set_child_at (Internal.init (λ i. 0) 6) 0 7) 0 10) 1 8)
      1

-- Opens the node for a run.
abbrev node : ℕ
unfolding Internal.get_num_keys Internal.get_child_at Internal.get_key_at Internal.set_num_keys
    Internal.set_child_at Internal.set_key_at Internal.init clear rd wr put peek from_le le_bytes
node = 0

root_keys : Internal.get_num_keys root ≡ 1
unfolding node
root_keys = refl

root_child : Internal.get_child_at root 1 ≡ 8
unfolding node
root_child = refl

root_first : Internal.get_child_at root 0 ≡ 7
unfolding node
root_first = refl

root_key : Internal.get_key_at root 0 ≡ 10
unfolding node
root_key = refl

root-IsBytes : IsBytes root
unfolding Internal.set_num_keys Internal.set_child_at Internal.set_key_at Internal.init clear
root-IsBytes = wr-IsBytes 2 _ 5 1 (
    wr-IsBytes 4 _ 23 8 (
      wr-IsBytes 8 _ 15 10 (
        wr-IsBytes 4 _ 11 7 (
          wr-IsBytes 4 _ 7 0xffff_ffff
            (wr-IsBytes 2 _ 5 0 (wr-IsBytes 1 _ 4 0 (wr-IsBytes 4 _ 0 6 (λ i. ground arith))))))))

ten : rank 10 < rank 20
unfolding rank
ten = omega arith

lookup_child-insert_after_example :
    ((Internal.insert_after root 8 20 9).1 ≡ true)
    × Sorted (Internal.insert_after root 8 20 9).0
    × ((k r : ℕ)
        → Routes root k r
        → Internal.lookup_child (Internal.insert_after root 8 20 9).0 k
          ≡ (if r == 1 then (if less_key k 20 then 8 else 9) else Internal.get_child_at root r))
lookup_child-insert_after_example =
    lookup_child-insert_after root 8 20 9 1 root-IsBytes
      (λ i j le lt.
        let e : i ≡ j = omega (arith, le, lt, root_keys) in
        let k = ap (λ x. rank (Internal.get_key_at root x)) e in omega (arith, k))
      (omega (arith, root_keys)) (omega arith) (omega arith) (omega (arith, root_keys)) root_child
      (λ j h e.
        let z : j ≡ 0 = omega (arith, h) in
        let k = ap (Internal.get_child_at root) z in omega (arith, e, k, root_first))
      (
        λ j h.
            let z : j ≡ 0 = omega (arith, h) in
            let k = ap (λ x. rank (Internal.get_key_at root x)) z in
            let a = ap rank root_key in omega (arith, k, a, ten),
        λ j h lt. absurd (omega (arith, h, lt, root_keys)),
      )
