-- ===== src/BtreePage/Leaf/Forget.antt =====
-- A removal as an update of the map from keys to record identifiers.
use persist_x.Base.{
  ℕ, ◌+◌, ◌-◌, ◌^◌, ◌≡◌, ◌≢◌, ◌↔◌, ◌<◌, ◌≤◌, inl, inr, refl, sym, ap, ◌∙◌, arith, true, ◌==◌,
  ℕ_discrete, dec_lt, if◌then◌else◌, eq→==, ne→==,
}
use mathlib.Core.Path.{subst}
use persist_x.Types.{invalid_rid}
use persist_x.Page.{Page}
use persist_x.BtreePage.Keys.{rank, rank_injective}
use persist_x.BtreePage.Leaf.{get_num_keys, get_key_at, key_index, remove, lookup}
use persist_x.BtreePage.Leaf.Search.{Sorted, LowerBound, key_index-LowerBound}
use persist_x.BtreePage.Leaf.Entries.{Same}
use persist_x.BtreePage.Leaf.Valid.{IsLeaf}
use persist_x.BtreePage.Leaf.Lookup.{pick-miss, pick-Same, lookup-pick, first-key}
use persist_x.BtreePage.Leaf.Remove.{Removed, remove-Removed}

module _ (p q : Page) (pos key : ℕ) (v : IsLeaf p) (l : LowerBound p key pos)
    (s : Removed p pos q) where
  removed-Sorted : Sorted q
  removed-Sorted i j le lt = elim (dec_lt j pos) [
    | yes hj ↦
        let a = ap rank (s.below i (omega (arith, le, hj))).key in
        let b = ap rank (s.below j hj).key in
        let o = v.sorted i j le (omega (arith, lt, s.num_keys)) in omega (arith, a, b, o)
    | no hj ↦
        let b = ap rank (s.moved j (omega (arith, hj)) lt).key in
        elim (dec_lt i pos) [
          | yes hi ↦
              let a = ap rank (s.below i hi).key in
              let o = v.sorted i (j + 1) (omega (arith, le)) (omega (arith, lt, s.num_keys)) in
              omega (arith, a, b, o)
          | no hi ↦
              let a = ap rank (s.moved i (omega (arith, hi)) (omega (arith, le, lt))).key in
              let o =
                v.sorted (i + 1) (j + 1) (omega (arith, le)) (omega (arith, lt, s.num_keys)) in
              omega (arith, a, b, o)
        ]
  ]

  removed-IsLeaf : IsLeaf q
  removed-IsLeaf = record {
    bytes = s.bytes;
    room = let r = v.room in omega (arith, r, s.num_keys);
    sorted = removed-Sorted;
  }

  -- The lower bound of a key up to the one removed stays; that of a larger key moves down.
  lower-le : (k a : ℕ) → a ≤ pos → pos < get_num_keys p → LowerBound p k a → LowerBound q k a
  lower-le k a le found x = (
    omega (arith, le, found, s.num_keys),
    λ i h.
        let b = ap rank (s.below i (omega (arith, h, le))).key in
        let o = x.1 i h in omega (arith, b, o),
    λ i h lt. elim (dec_lt i pos) [
      | yes below ↦
          let b = ap rank (s.below i below).key in
          let o = x.2 i h (omega (arith, below, found)) in omega (arith, b, o)
      | no behind ↦
          let b = ap rank (s.moved i (omega (arith, behind)) lt).key in
          let o = x.2 (i + 1) (omega (arith, h)) (omega (arith, lt, s.num_keys)) in
          omega (arith, b, o)
    ],
  )

  lower-gt : (k a : ℕ) → pos < a → LowerBound p k a → LowerBound q k (a - 1)
  lower-gt k a above x = (
    (let n = x.0 in omega (arith, n, above, s.num_keys)),
    λ i h. elim (dec_lt i pos) [
      | yes below ↦
          let b = ap rank (s.below i below).key in
          let o = x.1 i (omega (arith, h)) in omega (arith, b, o)
      | no behind ↦
          let n = x.0 in
          let b =
            ap rank (s.moved i (omega (arith, behind)) (omega (arith, h, n, s.num_keys))).key in
          let o = x.1 (i + 1) (omega (arith, h)) in omega (arith, b, o)
    ],
    λ i h lt.
        let b = ap rank (s.moved i (omega (arith, h, above)) lt).key in
        let o = x.2 (i + 1) (omega (arith, h)) (omega (arith, lt, s.num_keys)) in
        omega (arith, b, o),
  )

  -- lookup after the removal of a key that occurs once.
  lookup-removed :
      (k : ℕ)
      → pos < get_num_keys p
      → get_key_at p pos ≡ key
      → (pos + 1 < get_num_keys p → get_key_at p (pos + 1) ≢ key)
      → key < 2 ^ 64
      → k < 2 ^ 64
      → lookup q k ≡ (if k == key then invalid_rid else lookup p k)
  lookup-removed k found at_pos once key_small small =
      let a = key_index p k in
      let x = key_index-LowerBound p k v.sorted (let r = v.room in omega (arith, r)) in
      let next : pos < get_num_keys q → get_key_at q pos ≡ get_key_at p (pos + 1) =
        λ lt. (s.moved pos (omega arith) lt).key in
      elim (ℕ_discrete k key) [
        | yes e ↦ rw (eq→== k key e) (
            ap (lookup q) e
            ∙ lookup-pick q key pos removed-IsLeaf (lower-le key pos (omega arith) found l)
            ∙ pick-miss q key pos
                (λ lt m. once (omega (arith, lt, s.num_keys)) (sym (next lt) ∙ m)))
        | no ne ↦
            rw (ne→== k key ne, lookup-pick p k a v x)
              (elim (dec_lt pos a) [
                | yes h ↦
                    let m : a - 1 + 1 ≡ a = omega (arith, h) in
                    lookup-pick q k (a - 1) removed-IsLeaf (lower-gt k a h x)
                    ∙ elim (dec_lt a (get_num_keys p)) [
                      | yes lt ↦
                          let lt' : a - 1 < get_num_keys q = omega (arith, h, lt, s.num_keys) in
                          pick-Same p q k a (a - 1)
                            (subst (Same q (a - 1) p) m (s.moved (a - 1) (omega (arith, h)) lt')) lt
                            lt'
                      | no ge ↦
                          pick-miss q k (a - 1) (λ lt. absurd (omega (arith, lt, ge, s.num_keys)))
                          ∙ sym (pick-miss p k a (λ lt. absurd (ge lt)))
                    ]
                | no h ↦
                    lookup-pick q k a removed-IsLeaf (lower-le k a (omega (arith, h)) found x)
                    ∙ elim (dec_lt a pos) [
                      | yes lt ↦
                          pick-Same p q k a a (s.below a lt) (omega (arith, lt, found))
                            (omega (arith, lt, found, s.num_keys))
                      | no ge ↦
                          let same : a ≡ pos = omega (arith, h, ge) in
                          pick-miss q k a (λ lt e.
                            let here : pos < get_num_keys q = omega (arith, lt, same) in
                            let k' : get_key_at p (pos + 1) ≡ k =
                              sym (next here) ∙ ap (get_key_at q) (sym same) ∙ e in
                            let up =
                              v.sorted pos (pos + 1) (omega arith)
                                (omega (arith, here, s.num_keys)) in
                            let down = x.2 pos (omega (arith, same)) found in
                            let e1 = ap rank k' in
                            let e2 = ap rank at_pos in
                            ne (
                              rank_injective k key small key_small
                                (omega (arith, up, down, e1, e2))))
                          ∙ sym (
                              pick-miss p k a
                                (λ lt e. ne (sym e ∙ ap (get_key_at p) same ∙ at_pos)))
                    ]
              ])
      ]

-- On a leaf in which a key occurs at most once, remove keeps the leaf well formed; lookup no longer
-- finds the key, and finds under every other key what it found before; remove answers true just if the key was there.
pub lookup-remove :
    (p : Page) (key : ℕ)
    → IsLeaf p
    → key < 2 ^ 64
    → ((i j : ℕ)
        → i < get_num_keys p
        → j < get_num_keys p
        → get_key_at p i ≡ key
        → get_key_at p j ≡ key
        → i ≡ j)
    → IsLeaf (remove p key).0
      × ((k : ℕ)
          → k < 2 ^ 64
          → lookup (remove p key).0 k ≡ (if k == key then invalid_rid else lookup p k))
      × (((remove p key).1 ≡ true) ↔ ((i : ℕ) × (i < get_num_keys p) × (get_key_at p i ≡ key)))
lookup-remove p key v small once =
    let a = key_index p key in
    let l = key_index-LowerBound p key v.sorted (let r = v.room in omega (arith, r)) in
    elim (remove-Removed p key v) [
      | inl (same, miss) ↦
          let gone : (k : ℕ) → lookup p k ≡ (if k == key then invalid_rid else lookup p k) = λ k.
            elim (ℕ_discrete k key) [
              | yes e ↦
                  rw (eq→== k key e)
                    (ap (lookup p) e ∙ lookup-pick p key a v l ∙ pick-miss p key a miss)
              | no ne ↦ rw (ne→== k key ne) refl
            ] in
          (
            subst (λ o. IsLeaf o.0) (sym same) v,
            λ k h. ap (λ o. lookup o.0 k) same ∙ gone k,
            (
              λ t. absurd (cc (t, ap (λ o. o.1) same)),
              λ (i, lt, e). let f = first-key p key a i v small l lt e in absurd (miss f.1 f.2),
            ),
          )
      | inr (found, at_pos, ok, s) ↦ (
        removed-IsLeaf p (remove p key).0 a key v l s,
        λ k h.
            lookup-removed p (remove p key).0 a key v l s k found at_pos
              (λ lt e. let same = once a (a + 1) found lt at_pos e in omega (arith, same)) small h,
        (λ t. (a, found, at_pos), λ w. ok),
      )
    ]
