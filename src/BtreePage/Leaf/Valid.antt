-- ===== src/BtreePage/Leaf/Valid.antt =====
-- Well-formed leaves, their headers, and the key count.
use persist_x.Base.{ℕ, ◌^◌, ◌≡◌, ◌<◌, ◌≤◌, ◌⊎◌, inl, inr, ◌∙◌, arith}
use persist_x.Types.{invalid_page_id}
use persist_x.Bytes.{rd, wr, rd_cong, rd-wr_self, rd-wr_outside, wr_outside}
use persist_x.Page.{Page, clear}
use persist_x.BtreePage.Keys.{IsBytes, wr-IsBytes}
use persist_x.BtreePage.Leaf.{
  init, get_page_id, get_node_type, get_num_keys, get_parent_id, get_next_leaf_id, set_num_keys,
  leaf_max_entries,
}
use persist_x.BtreePage.Leaf.Search.{Sorted}
use persist_x.BtreePage.Leaf.Entries.{Same, Same_cells}

-- Bytes, in number at most LEAF_MAX_ENTRIES entries, in the order of their keys.
pub record IsLeaf (p : Page) : Type 0 where
  pub bytes : IsBytes p
  pub room : get_num_keys p ≤ leaf_max_entries
  pub sorted : Sorted p

-- The fields of the header besides the key count.
pub record SameHeader (p q : Page) : Type 0 where
  pub page_id : get_page_id q ≡ get_page_id p
  pub node_type : get_node_type q ≡ get_node_type p
  pub parent_id : get_parent_id q ≡ get_parent_id p
  pub next_leaf_id : get_next_leaf_id q ≡ get_next_leaf_id p

pub SameHeader-cells :
    (p q : Page) → ((i : ℕ) → i < 15 → (i < 5) ⊎ (7 ≤ i) → q i ≡ p i) → SameHeader p q
unfolding get_page_id get_node_type get_parent_id get_next_leaf_id
SameHeader-cells p q h = record {
  page_id = rd_cong 4 q p 0 (λ k lo hi. h k (omega (arith, hi)) (inl (omega (arith, hi))));
  node_type = rd_cong 1 q p 4 (λ k lo hi. h k (omega (arith, hi)) (inl (omega (arith, hi))));
  parent_id = rd_cong 4 q p 7 (λ k lo hi. h k (omega (arith, hi)) (inr lo));
  next_leaf_id = rd_cong 4 q p 11 (λ k lo hi. h k (omega (arith, hi)) (inr (omega (arith, lo))));
}

pub num_keys-cells : (p q : Page) → ((i : ℕ) → i < 15 → q i ≡ p i) → get_num_keys q ≡ get_num_keys p
unfolding get_num_keys
num_keys-cells p q h = rd_cong 2 q p 5 (λ k lo hi. h k (omega (arith, hi)))

module _ (p : Page) (n : ℕ) where
  pub get_num_keys-set_num_keys : n < 2 ^ 16 → get_num_keys (set_num_keys p n) ≡ n
  unfolding get_num_keys set_num_keys
  get_num_keys-set_num_keys h = rd-wr_self 2 p 5 n h

  pub set_num_keys_at : (i : ℕ) → (i < 5) ⊎ (7 ≤ i) → set_num_keys p n i ≡ p i
  unfolding set_num_keys
  set_num_keys_at i o = wr_outside 2 p 5 n i o

  pub set_num_keys-IsBytes : IsBytes p → IsBytes (set_num_keys p n)
  unfolding set_num_keys
  set_num_keys-IsBytes h = wr-IsBytes 2 p 5 n h

  pub set_num_keys-Same : (j : ℕ) → Same (set_num_keys p n) j p j
  set_num_keys-Same j =
      Same_cells (set_num_keys p n) p j (λ k lo hi. set_num_keys_at k (inr (omega (arith, lo))))

clear-IsBytes : (p : Page) → IsBytes p → IsBytes (clear p)
unfolding clear
clear-IsBytes p h i = ground (arith, h i)

-- A new leaf is empty, with the identifier given and neither a parent nor a next leaf.
pub init-IsLeaf :
    (p : Page) (id : ℕ)
    → IsBytes p
    → id < 2 ^ 32
    → IsLeaf (init p id)
      × (get_num_keys (init p id) ≡ 0)
      × (get_page_id (init p id) ≡ id)
      × (get_node_type (init p id) ≡ 1)
      × (get_parent_id (init p id) ≡ invalid_page_id)
      × (get_next_leaf_id (init p id) ≡ invalid_page_id)
unfolding init get_page_id get_node_type get_num_keys get_parent_id get_next_leaf_id
init-IsLeaf p id h s =
    let none = invalid_page_id in
    let a = wr 4 (clear p) 0 id in
    let b = wr 1 a 4 1 in
    let c = wr 2 b 5 0 in
    let d = wr 4 c 7 none in
    let e = wr 4 d 11 none in
    let empty : rd 2 e 5 ≡ 0 =
      rd-wr_outside 2 4 d 11 5 none (inl (omega arith))
      ∙ rd-wr_outside 2 4 c 7 5 none (inl (omega arith))
      ∙ rd-wr_self 2 b 5 0 (omega arith) in
    (
      record {
        bytes = wr-IsBytes 4 d 11 none (
            wr-IsBytes 4 c 7 none (
              wr-IsBytes 2 b 5 0
                (wr-IsBytes 1 a 4 1 (wr-IsBytes 4 (clear p) 0 id (clear-IsBytes p h)))));
        room = omega (arith, empty);
        sorted = λ i j le lt. absurd (omega (arith, empty, lt));
      },
      empty,
      rd-wr_outside 4 4 d 11 0 none (inl (omega arith))
          ∙ rd-wr_outside 4 4 c 7 0 none (inl (omega arith))
          ∙ rd-wr_outside 4 2 b 5 0 0 (inl (omega arith))
          ∙ rd-wr_outside 4 1 a 4 0 1 (inl (omega arith))
          ∙ rd-wr_self 4 (clear p) 0 id s,
      rd-wr_outside 1 4 d 11 4 none (inl (omega arith))
          ∙ rd-wr_outside 1 4 c 7 4 none (inl (omega arith))
          ∙ rd-wr_outside 1 2 b 5 4 0 (inl (omega arith))
          ∙ rd-wr_self 1 a 4 1 (omega arith),
      rd-wr_outside 4 4 d 11 7 none (inl (omega arith)) ∙ rd-wr_self 4 c 7 none (omega arith),
      rd-wr_self 4 d 11 none (omega arith),
    )
