-- ===== src/BtreePage/Leaf/Insert.antt =====
-- insert: the entry goes to the lower bound of its key.
use persist_x.Base.{
  ℕ, ◌+◌, ◌-◌, ◌≡◌, ◌<◌, ◌≤◌, ◌⊎◌, inl, inr, refl, sym, ◌∙◌, arith, true, false, leb, Bool-cases,
}
use mathlib.Core.Path.{subst}
use persist_x.Types.{Rid, page_size}
use persist_x.Page.{Page}
use persist_x.BtreePage.Keys.{IsBytes}
use persist_x.BtreePage.Leaf.{
  get_num_keys, get_key_at, get_rid_at, set_num_keys, leaf_max_entries, key_index, shift_right,
  insert,
}
use persist_x.BtreePage.Leaf.Search.{key_index-LowerBound}
use persist_x.BtreePage.Leaf.Entries.{
  Same, Same-trans, Small, store, store-Outside, store-IsBytes, store_self, store_other,
  shift_right-ShiftedRight,
}
use persist_x.BtreePage.Leaf.Valid.{
  IsLeaf, SameHeader, SameHeader-cells, get_num_keys-set_num_keys, set_num_keys_at,
  set_num_keys-IsBytes, set_num_keys-Same,
}

-- One more entry at `pos`; the entries from there on have moved up. The memory behind the page is
-- as before.
pub record Inserted (p : Page) (pos key : ℕ) (rid : Rid) (q : Page) : Type 0 where
  pub bytes : IsBytes q
  pub num_keys : get_num_keys q ≡ get_num_keys p + 1
  pub new_key : get_key_at q pos ≡ key
  pub new_rid : get_rid_at q pos ≡ rid
  pub below : (j : ℕ) → j < pos → Same q j p j
  pub moved : (j : ℕ) → pos ≤ j → j < get_num_keys p → Same q (j + 1) p j
  pub header : SameHeader p q
  pub memory : (i : ℕ) → page_size ≤ i → q i ≡ p i

abbrev inserted : Page → ℕ → ℕ → Rid → Page
inserted p pos key rid =
    set_num_keys (store (shift_right p pos (get_num_keys p - pos)) pos key rid) (get_num_keys p + 1)

insert_full :
    (p : Page) (key : ℕ) (rid : Rid)
    → leb leaf_max_entries (get_num_keys p) ≡ true
    → insert p key rid ≡ (p, false)
unfolding insert
insert_full p key rid e = rw (insert, e) refl

insert_room :
    (p : Page) (key : ℕ) (rid : Rid)
    → leb leaf_max_entries (get_num_keys p) ≡ false
    → insert p key rid ≡ (inserted p (key_index p key) key rid, true)
unfolding insert
insert_room p key rid e = rw (insert, e) refl

inserted-Inserted :
    (p : Page) (pos key : ℕ) (rid : Rid)
    → IsBytes p
    → get_num_keys p < leaf_max_entries
    → pos ≤ get_num_keys p
    → Small key rid
    → Inserted p pos key rid (inserted p pos key rid)
inserted-Inserted p pos key rid h room le small =
    let n = get_num_keys p in
    let s = shift_right p pos (n - pos) in
    let r = shift_right-ShiftedRight p pos (n - pos) h in
    let t = store s pos key rid in
    let self = store_self s pos key rid small in
    let count = set_num_keys-Same t (n + 1) in
    let cell : (i : ℕ) → (i < 15) ⊎ (page_size ≤ i) → t i ≡ s i =
      λ i o. store-Outside s pos key rid i (ground (arith, o, room, le)) in
    let shifted : (i : ℕ) → (i < 15) ⊎ (page_size ≤ i) → s i ≡ p i =
      λ i o. r.cells i (ground (arith, o, room, le)) in
    record {
      bytes = set_num_keys-IsBytes t (n + 1) (store-IsBytes s pos key rid r.bytes);
      num_keys = get_num_keys-set_num_keys t (n + 1) (omega (arith, room));
      new_key = (count pos).key ∙ self.0;
      new_rid = (count pos).rid ∙ self.1;
      below = λ j lt. Same-trans (count j) (
          Same-trans (store_other s pos key rid j (λ e. omega (arith, e, lt)))
            (r.below j (omega (arith, lt))));
      moved = λ j lo hi. Same-trans (count (j + 1)) (
          Same-trans (store_other s pos key rid (j + 1) (λ e. omega (arith, e, lo)))
            (r.moved j lo (omega (arith, hi, le))));
      header =
          SameHeader-cells p (inserted p pos key rid) (λ i small o.
            set_num_keys_at t (n + 1) i o ∙ cell i (inl small) ∙ shifted i (inl small));
      memory = λ i o.
          set_num_keys_at t (n + 1) i (inr (omega (arith, o))) ∙ cell i (inr o) ∙ shifted i (inr o);
    }

-- insert refuses if the leaf holds 291 entries. Otherwise the new entry stands at the lower bound
-- of its key, the entries before it stay, those from there on move up by one, and the header and
-- the memory behind the page are kept.
pub insert-Inserted :
    (p : Page) (key : ℕ) (rid : Rid)
    → IsLeaf p
    → Small key rid
    → ((get_num_keys p ≡ leaf_max_entries) × (insert p key rid ≡ (p, false)))
      ⊎ (((insert p key rid).1 ≡ true) × Inserted p (key_index p key) key rid (insert p key rid).0)
insert-Inserted p key rid v small = elim (Bool-cases (leb leaf_max_entries (get_num_keys p))) [
  | inl e ↦
      let full : leaf_max_entries ≤ get_num_keys p = ground (arith, e) in
      inl (omega (arith, full, v.room), insert_full p key rid e)
  | inr e ↦
      let room : get_num_keys p < leaf_max_entries = ground (arith, e) in
      let lower = key_index-LowerBound p key v.sorted (omega (arith, room)) in
      inr (
        subst (λ o. (o.1 ≡ true) × Inserted p (key_index p key) key rid o.0)
          (sym (insert_room p key rid e))
          (refl, inserted-Inserted p (key_index p key) key rid v.bytes room lower.0 small))
]
