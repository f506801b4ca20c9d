-- ===== src/BtreePage/Internal/InsertAfter.antt =====
-- insert_after: the new key and child stand behind the old child, and searches split between the
-- two children.
use persist_x.Base.{
  ℕ, zero, suc, ◌+◌, ◌-◌, ◌^◌, ◌≡◌, ◌≢◌, ◌<◌, ◌≤◌, ◌⊎◌, inl, inr, refl, sym, ap, ◌∙◌, arith, true,
  false, leb, ℕ_discrete, dec_lt, eq→==, ne→==, lt→leb, le→leb,
}
use mathlib.Core.Path.{subst}
use persist_x.Types.{page_size}
use persist_x.Bytes.{wr, rd_cong, rd-wr_self, wr_outside}
use persist_x.Page.{Page}
use persist_x.BtreePage.Keys.{IsBytes, wr-IsBytes}
use persist_x.BtreePage.Internal.{
  get_num_keys, get_key_at, get_child_at, set_num_keys, internal_max_keys, find_child, shift_pairs,
  insert_after, get_page_id, get_node_type, get_parent_id,
}
use persist_x.BtreePage.Internal.Pairs.{
  Same, Same_cells, Same-trans, store, store-Outside, store-IsBytes, store_self, store_other,
  shift_pairs-ShiftedUp,
}

-- ─── the search for the old child ───

find_hit : (k : ℕ) (p : Page) (old i : ℕ) → get_child_at p i ≡ old → find_child (suc k) p old i ≡ i
unfolding find_child
find_hit k p old i e = rw (find_child, eq→== (get_child_at p i) old e) refl

find_on :
    (k : ℕ) (p : Page) (old i : ℕ)
    → get_child_at p i ≢ old
    → find_child (suc k) p old i ≡ find_child k p old (i + 1)
unfolding find_child
find_on k p old i ne = rw (find_child, ne→== (get_child_at p i) old ne) refl

-- The first child with the identifier is found.
find_child_lem :
    (k : ℕ) (p : Page) (old i at_old : ℕ)
    → i ≤ at_old
    → at_old < i + k
    → get_child_at p at_old ≡ old
    → ((j : ℕ) → j < at_old → get_child_at p j ≢ old)
    → find_child k p old i ≡ at_old
unfolding find_child
find_child_lem zero p old i at_old le lt e first = absurd (omega (arith, le, lt))
find_child_lem (suc k) p old i at_old le lt e first = elim (ℕ_discrete i at_old) [
  | yes same ↦ find_hit k p old i (ap (get_child_at p) same ∙ e) ∙ same
  | no ne ↦
      find_on k p old i (first i (omega (arith, le, ne)))
      ∙ find_child_lem k p old (i + 1) at_old (omega (arith, le, ne)) (omega (arith, lt)) e first
]

-- ─── the node afterwards ───

-- The child `i` stays, the new key and child are behind it, and the pairs that were there have moved
-- up. The rest of the header and the memory behind the page are as before.
pub record Split (p : Page) (i key new_child : ℕ) (q : Page) : Type 0 where
  pub bytes : IsBytes q
  pub num_keys : get_num_keys q ≡ get_num_keys p + 1
  pub new_key : get_key_at q i ≡ key
  pub new_behind : get_child_at q (i + 1) ≡ new_child
  pub first : get_child_at q 0 ≡ get_child_at p 0
  pub below : (j : ℕ) → j < i → Same q j p j
  pub moved : (j : ℕ) → i ≤ j → j < get_num_keys p → Same q (j + 1) p j
  pub page_id : get_page_id q ≡ get_page_id p
  pub node_type : get_node_type q ≡ get_node_type p
  pub parent_id : get_parent_id q ≡ get_parent_id p
  pub memory : (c : ℕ) → page_size ≤ c → q c ≡ p c

abbrev split : Page → ℕ → ℕ → ℕ → Page
split p i key new_child =
    set_num_keys (store (shift_pairs p i (get_num_keys p - i)) i key new_child) (get_num_keys p + 1)

insert_after_full :
    (p : Page) (old key new : ℕ)
    → leb internal_max_keys (get_num_keys p) ≡ true
    → insert_after p old key new ≡ (p, false)
unfolding insert_after
insert_after_full p old key new e = rw (insert_after, e) refl

insert_after_room :
    (p : Page) (old key new : ℕ)
    → leb internal_max_keys (get_num_keys p) ≡ false
    → insert_after p old key new ≡ (split p (find_child (get_num_keys p + 1) p old 0) key new, true)
unfolding insert_after
insert_after_room p old key new e = rw (insert_after, e) refl

module _ (p : Page) (i key new : ℕ) (h : IsBytes p) (room : get_num_keys p < internal_max_keys)
    (le : i ≤ get_num_keys p) where
  split_cell : (c : ℕ) → (c < 15) ⊎ (page_size ≤ c) → (c < 5) ⊎ (7 ≤ c) → split p i key new c ≡ p c
  unfolding set_num_keys
  split_cell c o out =
      let n = get_num_keys p in
      let r = shift_pairs-ShiftedUp p i (n - i) h in
      wr_outside 2 _ 5 (n + 1) c out
      ∙ store-Outside (shift_pairs p i (n - i)) i key new c (ground (arith, o, room, le))
      ∙ r.cells c (ground (arith, o, room, le))

  counted : (q : Page) (n j : ℕ) → Same (set_num_keys q n) j q j
  unfolding set_num_keys
  counted q n j =
      Same_cells (wr 2 q 5 n) q j (λ k lo hi. wr_outside 2 q 5 n k (inr (omega (arith, lo))))

  split-Split : key < 2 ^ 64 → new < 2 ^ 32 → Split p i key new (split p i key new)
  split-Split key_small new_small =
      let n = get_num_keys p in
      let s = shift_pairs p i (n - i) in
      let r = shift_pairs-ShiftedUp p i (n - i) h in
      let t = store s i key new in
      let self = store_self s i key new key_small new_small in
      let c = counted t (n + 1) in
      record {
        bytes = unfold set_num_keys in wr-IsBytes 2 t 5 (n + 1) (store-IsBytes s i key new r.bytes);
        num_keys =
            unfold get_num_keys set_num_keys in rd-wr_self 2 t 5 (n + 1) (omega (arith, room));
        new_key = (c i).key ∙ self.0;
        new_behind = (c i).child ∙ self.1;
        first =
            unfold get_child_at in
            rd_cong 4 (split p i key new) p 11
              (λ k lo hi. split_cell k (inl (omega (arith, hi))) (inr (omega (arith, lo))));
        below = λ j lt. Same-trans (c j) (
            Same-trans (store_other s i key new j (λ e. omega (arith, e, lt)))
              (r.below j (omega (arith, lt))));
        moved = λ j lo hi. Same-trans (c (j + 1)) (
            Same-trans (store_other s i key new (j + 1) (λ e. omega (arith, e, lo)))
              (r.moved j lo (omega (arith, hi, le))));
        page_id =
            unfold get_page_id in
            rd_cong 4 (split p i key new) p 0
              (λ k lo hi. split_cell k (inl (omega (arith, hi))) (inl (omega (arith, hi))));
        node_type =
            unfold get_node_type in
            rd_cong 1 (split p i key new) p 4
              (λ k lo hi. split_cell k (inl (omega (arith, hi))) (inl (omega (arith, hi))));
        parent_id =
            unfold get_parent_id in
            rd_cong 4 (split p i key new) p 7
              (λ k lo hi. split_cell k (inl (omega (arith, hi))) (inr lo));
        memory = λ x o. split_cell x (inr o) (inr (omega (arith, o)));
      }

-- insert_after refuses a node of 340 keys. Otherwise, if the old child is in the node, the key and
-- the new child stand right behind its first occurrence, everything behind has moved up, and
-- nothing else has changed.
pub insert_after-Split :
    (p : Page) (old key new i : ℕ)
    → IsBytes p
    → get_num_keys p ≤ internal_max_keys
    → key < 2 ^ 64
    → new < 2 ^ 32
    → i ≤ get_num_keys p
    → get_child_at p i ≡ old
    → ((j : ℕ) → j < i → get_child_at p j ≢ old)
    → ((get_num_keys p ≡ internal_max_keys) × (insert_after p old key new ≡ (p, false)))
      ⊎ (((insert_after p old key new).1 ≡ true) × Split p i key new (insert_after p old key new).0)
insert_after-Split p old key new i h most key_small new_small le here first =
    elim (dec_lt (get_num_keys p) internal_max_keys) [
      | no full ↦ inl (
        omega (arith, most, full),
        insert_after_full p old key new
            (le→leb internal_max_keys (get_num_keys p) (omega (arith, full))),
      )
      | yes room ↦
          let found =
            find_child_lem (get_num_keys p + 1) p old 0 i (omega arith) (omega (arith, le)) here
              first in
          let run =
            insert_after_room p old key new (lt→leb internal_max_keys (get_num_keys p) room)
            ∙ ap (λ x. (split p x key new, true)) found in
          inr (
            subst (λ o. (o.1 ≡ true) × Split p i key new o.0) (sym run)
              (refl, split-Split p i key new h room le key_small new_small))
    ]
