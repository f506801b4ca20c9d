-- ===== src/BtreePage/Leaf/Lookup.antt =====
-- lookup: the first entry with the key.
use persist_x.Base.{
  ℕ, ◌^◌, ◌≡◌, ◌≢◌, ◌<◌, ◌≤◌, ◌⊎◌, inl, inr, refl, ap, ◌∙◌, arith, ◌&&◌, ltb, ◌==◌, Bool-cases,
  ℕ_discrete, dec_lt, if◌then◌else◌, eq→==, ne→==, lt→ltb, ltb→lt,
}
use persist_x.Types.{Rid, invalid_rid}
use persist_x.Page.{Page}
use persist_x.BtreePage.Keys.{rank, rank_injective}
use persist_x.BtreePage.Leaf.{get_num_keys, get_key_at, get_rid_at, key_index, lookup}
use persist_x.BtreePage.Leaf.Search.{LowerBound, key_index-LowerBound}
use persist_x.BtreePage.Leaf.Entries.{Same, entry-Small}
use persist_x.BtreePage.Leaf.Valid.{IsLeaf}

pub LowerBound-unique : (p : Page) (key a b : ℕ) → LowerBound p key a → LowerBound p key b → a ≡ b
LowerBound-unique p key a b x y = elim (dec_lt a b) [
  | yes h ↦
      let low = y.1 a h in
      let high = x.2 a (omega arith) (omega (arith, h, y.0)) in absurd (omega (arith, low, high))
  | no h ↦ elim (dec_lt b a) [
    | yes k ↦
        let low = x.1 b k in
        let high = y.2 b (omega arith) (omega (arith, k, x.0)) in absurd (omega (arith, low, high))
    | no k ↦ omega (arith, h, k)
  ]
]

-- What lookup returns once the index is known.
abbrev pub pick : Page → ℕ → ℕ → Rid
pick p key i =
    if ltb i (get_num_keys p) && get_key_at p i == key then get_rid_at p i else invalid_rid

pub lookup-pick :
    (p : Page) (key i : ℕ) → IsLeaf p → LowerBound p key i → lookup p key ≡ pick p key i
unfolding lookup
lookup-pick p key i v l =
    let k = key_index-LowerBound p key v.sorted (let r = v.room in omega (arith, r)) in
    ap (pick p key) (LowerBound-unique p key (key_index p key) i k l)

pub pick-hit :
    (p : Page) (key i : ℕ)
    → i < get_num_keys p
    → get_key_at p i ≡ key
    → pick p key i ≡ get_rid_at p i
pick-hit p key i h e = rw (pick, lt→ltb i (get_num_keys p) h, eq→== (get_key_at p i) key e) refl

pub pick-miss :
    (p : Page) (key i : ℕ)
    → (i < get_num_keys p → get_key_at p i ≢ key)
    → pick p key i ≡ invalid_rid
pick-miss p key i h = elim (Bool-cases (ltb i (get_num_keys p))) [
  | inr e ↦ rw (pick, e) refl
  | inl e ↦ rw (pick, e, ne→== (get_key_at p i) key (h (ltb→lt i (get_num_keys p) e))) refl
]

-- The same entry gives the same answer.
pub pick-Same :
    (p q : Page) (key i j : ℕ)
    → Same q j p i
    → (i < get_num_keys p)
    → (j < get_num_keys q)
    → pick q key j ≡ pick p key i
pick-Same p q key i j s hi hj =
    rw (pick, lt→ltb i (get_num_keys p) hi, lt→ltb j (get_num_keys q) hj, s.key, s.rid) refl

-- An entry with the key is no earlier than the lower bound, whose entry has the key too.
pub first-key :
    (p : Page) (key a i : ℕ)
    → IsLeaf p
    → key < 2 ^ 64
    → LowerBound p key a
    → i < get_num_keys p
    → get_key_at p i ≡ key
    → (a ≤ i) × (a < get_num_keys p) × (get_key_at p a ≡ key)
first-key p key a i v small l lt e =
    let e' = ap rank e in
    let le : a ≤ i = elim (dec_lt i a) [
      | yes b ↦ let o = l.1 i b in absurd (omega (arith, o, e'))
      | no nb ↦ omega (arith, nb)
    ] in
    let there : a < get_num_keys p = omega (arith, le, lt) in
    let order = v.sorted a i le lt in
    let lower = l.2 a (omega arith) there in
    (
      le,
      there,
      rank_injective (get_key_at p a) key (entry-Small p a v.bytes).0 small
          (omega (arith, order, lower, e')),
    )

-- lookup returns the record identifier of the first entry with the key, and the invalid identifier
-- if no entry has it.
pub lookup-first :
    (p : Page) (key : ℕ)
    → IsLeaf p
    → key < 2 ^ 64
    → ((i : ℕ) × (i < get_num_keys p)
        × (get_key_at p i ≡ key)
        × ((j : ℕ) → j < i → get_key_at p j ≢ key)
        × (lookup p key ≡ get_rid_at p i))
      ⊎ (((i : ℕ) → i < get_num_keys p → get_key_at p i ≢ key) × (lookup p key ≡ invalid_rid))
lookup-first p key v small =
    let r = v.room in
    let l = key_index-LowerBound p key v.sorted (omega (arith, r)) in
    let k = key_index p key in
    let found = lookup-pick p key k v l in
    let before : (j : ℕ) → j < k → get_key_at p j ≢ key =
      λ j h e. let q = l.1 j h in let e' = ap rank e in omega (arith, q, e') in
    elim (dec_lt k (get_num_keys p)) [
      | no h ↦
          inr (
            λ i lt. before i (omega (arith, lt, h)),
            found ∙ pick-miss p key k (λ lt. absurd (h lt)),
          )
      | yes h ↦ elim (ℕ_discrete (get_key_at p k) key) [
        | yes e ↦ inl (k, h, e, before, found ∙ pick-hit p key k h e)
        | no ne ↦ inr (
          λ i lt e. ne (first-key p key k i v small l lt e).2,
          found ∙ pick-miss p key k (λ lt. ne),
        )
      ]
    ]
