-- ===== src/BtreePage/Leaf/Entries.antt =====
-- Single entries: a store changes the bytes of one entry, and the shifting loops move entries.
use persist_x.Base.{
  ℕ, zero, suc, ◌+◌, ◌^◌, ◌≡◌, ◌≢◌, ◌<◌, ◌≤◌, ◌⊎◌, inl, inr, refl, sym, ap, ◌∙◌, arith, ℕ_discrete,
  dec_lt,
}
use mathlib.Core.Path.{subst}
use persist_x.Types.{Rid}
use persist_x.Bytes.{rd, wr, rd_cong, rd-wr_self, rd-wr_outside, wr_outside, rd-lt}
use persist_x.Page.{Page}
use persist_x.BtreePage.Keys.{IsBytes, wr-IsBytes}
use persist_x.BtreePage.Leaf.{
  entry_offset, get_key_at, get_rid_at, set_key_at, set_rid_at, copy_entry, shift_right, shift_left,
}

-- The same entry at two places.
pub record Same (p : Page) (i : ℕ) (q : Page) (j : ℕ) : Type 0 where
  pub key : get_key_at p i ≡ get_key_at q j
  pub rid : get_rid_at p i ≡ get_rid_at q j

pub Same-refl : (p : Page) (i : ℕ) → Same p i p i
Same-refl p i = record { key = refl; rid = refl }

pub Same-trans : {p q r : Page} {i j k : ℕ} → Same p i q j → Same q j r k → Same p i r k
Same-trans a b = record { key = a.key ∙ b.key; rid = a.rid ∙ b.rid }

-- A cell outside an entry.
abbrev Outside : ℕ → ℕ → Type 0
Outside t i = (i < entry_offset t) ⊎ (entry_offset t + 14 ≤ i)

-- An entry depends on its 14 bytes only.
pub Same_cells :
    (p q : Page) (i : ℕ)
    → ((k : ℕ) → entry_offset i ≤ k → k < entry_offset i + 14 → p k ≡ q k)
    → Same p i q i
unfolding get_key_at get_rid_at
Same_cells p q i h =
    let a =
      rd_cong 4 p q (entry_offset i + 8) (λ k lo hi. h k (omega (arith, lo)) (omega (arith, hi))) in
    let b =
      rd_cong 2 p q (entry_offset i + 12)
        (λ k lo hi. h k (omega (arith, lo)) (omega (arith, hi))) in
    record {
      key = rd_cong 8 p q (entry_offset i) (λ k lo hi. h k lo (omega (arith, hi)));
      rid =
          ap (λ x. record { page_id = x; slot_id = rd 2 p (entry_offset i + 12) }) a
          ∙ ap (λ x. record { page_id = rd 4 q (entry_offset i + 8); slot_id = x }) b;
    }

-- ─── one store ───

abbrev pub store : Page → ℕ → ℕ → Rid → Page
store p t key rid = set_rid_at (set_key_at p t key) t rid

abbrev pub Small : ℕ → Rid → Type 0
Small key rid = (key < 2 ^ 64) × (rid.page_id < 2 ^ 32) × (rid.slot_id < 2 ^ 16)

pub entry-Small : (p : Page) (i : ℕ) → IsBytes p → Small (get_key_at p i) (get_rid_at p i)
unfolding get_key_at get_rid_at
entry-Small p i h = (
  rd-lt 8 p (entry_offset i) h,
  rd-lt 4 p (entry_offset i + 8) h,
  rd-lt 2 p (entry_offset i + 12) h,
)

module _ (p : Page) (t key : ℕ) (rid : Rid) where
  pub store-Outside : (i : ℕ) → Outside t i → store p t key rid i ≡ p i
  unfolding set_key_at set_rid_at
  store-Outside i h =
      wr_outside 2 _ (entry_offset t + 12) rid.slot_id i (ground (arith, h))
      ∙ wr_outside 4 _ (entry_offset t + 8) rid.page_id i (ground (arith, h))
      ∙ wr_outside 8 p (entry_offset t) key i (ground (arith, h))

  pub store-IsBytes : IsBytes p → IsBytes (store p t key rid)
  unfolding set_key_at set_rid_at
  store-IsBytes h =
      wr-IsBytes 2 _ (entry_offset t + 12) rid.slot_id
        (wr-IsBytes 4 _ (entry_offset t + 8) rid.page_id (wr-IsBytes 8 p (entry_offset t) key h))

  pub store_other : (j : ℕ) → j ≢ t → Same (store p t key rid) j p j
  store_other j ne = Same_cells (store p t key rid) p j (λ k lo hi.
      store-Outside k (elim (dec_lt j t) [
        | yes h ↦ inl (omega (arith, h, hi))
        | no h ↦ inr (omega (arith, h, lo, ne))
      ]))

  pub store_self :
      Small key rid
      → (get_key_at (store p t key rid) t ≡ key) × (get_rid_at (store p t key rid) t ≡ rid)
  unfolding get_key_at get_rid_at set_key_at set_rid_at
  store_self h =
      let off = entry_offset t in
      let a = wr 8 p off key in
      let b = wr 4 a (off + 8) rid.page_id in
      let c = wr 2 b (off + 12) rid.slot_id in
      let k : rd 8 c off ≡ key =
        rd-wr_outside 8 2 b (off + 12) off rid.slot_id (inl (omega arith))
        ∙ rd-wr_outside 8 4 a (off + 8) off rid.page_id (inl (omega arith))
        ∙ rd-wr_self 8 p off key h.0 in
      let x : rd 4 c (off + 8) ≡ rid.page_id =
        rd-wr_outside 4 2 b (off + 12) (off + 8) rid.slot_id (inl (omega arith))
        ∙ rd-wr_self 4 a (off + 8) rid.page_id h.1 in
      let y : rd 2 c (off + 12) ≡ rid.slot_id = rd-wr_self 2 b (off + 12) rid.slot_id h.2 in
      (
        k,
        ap (λ z. record { page_id = z; slot_id = rd 2 c (off + 12) }) x
            ∙ ap (λ z. record { page_id = rid.page_id; slot_id = z }) y,
      )

-- ─── copies ───

copy_entry_lem :
    (p : Page) (s t : ℕ) → s ≢ t → copy_entry p s t ≡ store p t (get_key_at p s) (get_rid_at p s)
unfolding copy_entry set_key_at
copy_entry_lem p s t ne =
    let same : Same (wr 8 p (entry_offset t) (get_key_at p s)) s p s =
      Same_cells (wr 8 p (entry_offset t) (get_key_at p s)) p s (λ k lo hi.
        wr_outside 8 p (entry_offset t) (get_key_at p s) k (elim (dec_lt s t) [
          | yes h ↦ inl (omega (arith, h, hi))
          | no h ↦ inr (omega (arith, h, lo, ne))
        ])) in
    ap (set_rid_at (wr 8 p (entry_offset t) (get_key_at p s)) t) same.rid

module _ (p : Page) (s t : ℕ) (ne : s ≢ t) where
  copy-Outside : (i : ℕ) → Outside t i → copy_entry p s t i ≡ p i
  copy-Outside i h =
      ap (λ q. q i) (copy_entry_lem p s t ne)
      ∙ store-Outside p t (get_key_at p s) (get_rid_at p s) i h

  copy-IsBytes : IsBytes p → IsBytes (copy_entry p s t)
  copy-IsBytes h =
      subst IsBytes (sym (copy_entry_lem p s t ne))
        (store-IsBytes p t (get_key_at p s) (get_rid_at p s) h)

  copy_other : (j : ℕ) → j ≢ t → Same (copy_entry p s t) j p j
  copy_other j other =
      subst (λ q. Same q j p j) (sym (copy_entry_lem p s t ne))
        (store_other p t (get_key_at p s) (get_rid_at p s) j other)

  copy_self : IsBytes p → Same (copy_entry p s t) t p s
  copy_self h =
      let k = store_self p t (get_key_at p s) (get_rid_at p s) (entry-Small p s h) in
      subst (λ q. Same q t p s) (sym (copy_entry_lem p s t ne)) (record { key = k.0; rid = k.1 })

-- ─── shifts ───

-- The `k` entries from `pos` on one place up: the other entries and all bytes outside the entries
-- written stay.
pub record ShiftedRight (p : Page) (pos k : ℕ) (q : Page) : Type 0 where
  pub bytes : IsBytes q
  pub cells : (i : ℕ) → (i < entry_offset (pos + 1)) ⊎ (entry_offset (pos + k + 1) ≤ i) → q i ≡ p i
  pub moved : (j : ℕ) → pos ≤ j → j < pos + k → Same q (j + 1) p j
  pub below : (j : ℕ) → j ≤ pos → Same q j p j
  pub above : (j : ℕ) → pos + k < j → Same q j p j

pub shift_right-ShiftedRight :
    (p : Page) (pos k : ℕ) → IsBytes p → ShiftedRight p pos k (shift_right p pos k)
unfolding shift_right
shift_right-ShiftedRight p pos zero h = record {
  bytes = h;
  cells = λ i o. refl;
  moved = λ j lo hi. absurd (omega (arith, lo, hi));
  below = λ j le. Same-refl p j;
  above = λ j le. Same-refl p j;
}
shift_right-ShiftedRight p pos (suc k) h =
    let ne : pos + k ≢ pos + k + 1 = λ e. omega (arith, e) in
    let c = copy_entry p (pos + k) (pos + k + 1) in
    let r = shift_right-ShiftedRight c pos k (copy-IsBytes p (pos + k) (pos + k + 1) ne h) in
    let other = copy_other p (pos + k) (pos + k + 1) ne in
    record {
      bytes = r.bytes;
      cells = λ i o.
          r.cells i (ground (arith, o))
          ∙ copy-Outside p (pos + k) (pos + k + 1) ne i (ground (arith, o));
      moved = λ j lo hi. elim (ℕ_discrete j (pos + k)) [
        | no before ↦
            Same-trans (r.moved j lo (omega (arith, hi, before)))
              (other j (λ e. omega (arith, e, hi)))
        | yes e ↦
            subst (λ x. Same (shift_right c pos k) (x + 1) p x) (sym e)
              (Same-trans (r.above (pos + k + 1) (omega arith))
                (copy_self p (pos + k) (pos + k + 1) ne h))
      ];
      below = λ j le. Same-trans (r.below j le) (other j (λ e. omega (arith, e, le)));
      above =
          λ j le. Same-trans (r.above j (omega (arith, le))) (other j (λ e. omega (arith, e, le)));
    }

-- The `k` entries behind `i` one place down.
pub record ShiftedLeft (p : Page) (pos k : ℕ) (q : Page) : Type 0 where
  pub bytes : IsBytes q
  pub cells : (i : ℕ) → (i < entry_offset pos) ⊎ (entry_offset (pos + k) ≤ i) → q i ≡ p i
  pub moved : (j : ℕ) → pos ≤ j → j < pos + k → Same q j p (j + 1)
  pub below : (j : ℕ) → j < pos → Same q j p j
  pub above : (j : ℕ) → pos + k ≤ j → Same q j p j

pub shift_left-ShiftedLeft :
    (p : Page) (pos k : ℕ) → IsBytes p → ShiftedLeft p pos k (shift_left p pos k)
unfolding shift_left
shift_left-ShiftedLeft p pos zero h = record {
  bytes = h;
  cells = λ i o. refl;
  moved = λ j lo hi. absurd (omega (arith, lo, hi));
  below = λ j le. Same-refl p j;
  above = λ j le. Same-refl p j;
}
shift_left-ShiftedLeft p pos (suc k) h =
    let ne : pos + 1 ≢ pos = λ e. omega (arith, e) in
    let c = copy_entry p (pos + 1) pos in
    let r = shift_left-ShiftedLeft c (pos + 1) k (copy-IsBytes p (pos + 1) pos ne h) in
    let other = copy_other p (pos + 1) pos ne in
    record {
      bytes = r.bytes;
      cells = λ i o.
          r.cells i (ground (arith, o)) ∙ copy-Outside p (pos + 1) pos ne i (ground (arith, o));
      moved = λ j lo hi. elim (ℕ_discrete j pos) [
        | no after ↦
            Same-trans (r.moved j (omega (arith, lo, after)) (omega (arith, hi)))
              (other (j + 1) (λ e. omega (arith, e, lo)))
        | yes e ↦
            subst (λ x. Same (shift_left c (pos + 1) k) x p (x + 1)) (sym e)
              (Same-trans (r.below pos (omega arith)) (copy_self p (pos + 1) pos ne h))
      ];
      below =
          λ j le. Same-trans (r.below j (omega (arith, le))) (other j (λ e. omega (arith, e, le)));
      above =
          λ j le. Same-trans (r.above j (omega (arith, le))) (other j (λ e. omega (arith, e, le)));
    }
