-- ===== src/BtreePage/Leaf/Remove.antt =====
-- remove: the first entry with the key goes.
use persist_x.Base.{
  ℕ, ◌+◌, ◌-◌, ◌≡◌, ◌≢◌, ◌<◌, ◌≤◌, ◌⊎◌, inl, inr, refl, sym, ◌∙◌, arith, true, false, not, ◌||◌,
  leb, ◌==◌, ℕ_discrete, dec_lt, eq→==, ne→==, le→leb, lt→leb,
}
use mathlib.Core.Path.{subst}
use persist_x.Types.{page_size}
use persist_x.Page.{Page}
use persist_x.BtreePage.Keys.{IsBytes}
use persist_x.BtreePage.Leaf.{get_num_keys, get_key_at, key_index, set_num_keys, shift_left, remove}
use persist_x.BtreePage.Leaf.Entries.{Same, Same-trans, shift_left-ShiftedLeft}
use persist_x.BtreePage.Leaf.Valid.{
  IsLeaf, SameHeader, SameHeader-cells, get_num_keys-set_num_keys, set_num_keys_at,
  set_num_keys-IsBytes, set_num_keys-Same,
}

-- One entry less: those behind `pos` have moved down.
pub record Removed (p : Page) (pos : ℕ) (q : Page) : Type 0 where
  pub bytes : IsBytes q
  pub num_keys : get_num_keys q + 1 ≡ get_num_keys p
  pub below : (j : ℕ) → j < pos → Same q j p j
  pub moved : (j : ℕ) → pos ≤ j → j < get_num_keys q → Same q j p (j + 1)
  pub header : SameHeader p q
  pub memory : (i : ℕ) → page_size ≤ i → q i ≡ p i

abbrev removed : Page → ℕ → Page
removed p pos = set_num_keys (shift_left p pos (get_num_keys p - 1 - pos)) (get_num_keys p - 1)

remove_refused :
    (p : Page) (key : ℕ)
    → leb (get_num_keys p) (key_index p key) || not (get_key_at p (key_index p key) == key) ≡ true
    → remove p key ≡ (p, false)
unfolding remove
remove_refused p key e = rw (remove, e) refl

remove_done :
    (p : Page) (key : ℕ)
    → leb (get_num_keys p) (key_index p key) || not (get_key_at p (key_index p key) == key) ≡ false
    → remove p key ≡ (removed p (key_index p key), true)
unfolding remove
remove_done p key e = rw (remove, e) refl

removed-Removed :
    (p : Page) (pos : ℕ) → IsLeaf p → pos < get_num_keys p → Removed p pos (removed p pos)
removed-Removed p pos v lt =
    let n = get_num_keys p in
    let r = shift_left-ShiftedLeft p pos (n - 1 - pos) v.bytes in
    let s = shift_left p pos (n - 1 - pos) in
    let room = v.room in
    let count = set_num_keys-Same s (n - 1) in
    let size = get_num_keys-set_num_keys s (n - 1) (omega (arith, room)) in
    let cell : (i : ℕ) → (i < 15) ⊎ (page_size ≤ i) → s i ≡ p i =
      λ i o. r.cells i (ground (arith, o, room, lt)) in
    record {
      bytes = set_num_keys-IsBytes s (n - 1) r.bytes;
      num_keys = omega (arith, size, lt);
      below = λ j h. Same-trans (count j) (r.below j h);
      moved = λ j lo hi. Same-trans (count j) (r.moved j lo (omega (arith, lo, hi, size)));
      header =
          SameHeader-cells p (removed p pos)
            (λ i h o. set_num_keys_at s (n - 1) i o ∙ cell i (inl h));
      memory = λ i o. set_num_keys_at s (n - 1) i (inr (omega (arith, o))) ∙ cell i (inr o);
    }

-- remove refuses if no entry has the key. Otherwise the first entry with the key is gone, the
-- entries before it stay and those behind it move down by one; the header and the memory behind
-- the page are kept.
pub remove-Removed :
    (p : Page) (key : ℕ)
    → IsLeaf p
    → ((remove p key ≡ (p, false))
        × (key_index p key < get_num_keys p → get_key_at p (key_index p key) ≢ key))
      ⊎ ((key_index p key < get_num_keys p)
          × (get_key_at p (key_index p key) ≡ key)
          × ((remove p key).1 ≡ true)
          × Removed p (key_index p key) (remove p key).0)
remove-Removed p key v = elim (dec_lt (key_index p key) (get_num_keys p)) [
  | no h ↦ inl (
    remove_refused p key (rw (le→leb (get_num_keys p) (key_index p key) (omega (arith, h))) refl),
    λ lt. absurd (h lt),
  )
  | yes h ↦
      let small = lt→leb (get_num_keys p) (key_index p key) h in
      elim (ℕ_discrete (get_key_at p (key_index p key)) key) [
        | no ne ↦ inl (
          remove_refused p key (rw (small, ne→== (get_key_at p (key_index p key)) key ne) refl),
          λ lt. ne,
        )
        | yes e ↦
            let done =
              subst (λ o. (o.1 ≡ true) × Removed p (key_index p key) o.0)
                (sym (
                  remove_done p key
                    (rw (small, eq→== (get_key_at p (key_index p key)) key e) refl)))
                (refl, removed-Removed p (key_index p key) v h) in
            inr (h, e, done.0, done.1)
      ]
]
