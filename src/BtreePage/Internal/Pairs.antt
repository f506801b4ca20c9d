-- ===== src/BtreePage/Internal/Pairs.antt =====
-- A key with the child behind it: a store changes the bytes of one pair, and the shifting loop moves
-- pairs.
use persist_x.Base.{
  ℕ, zero, suc, ◌+◌, ◌*◌, ◌^◌, ◌≡◌, ◌≢◌, ◌<◌, ◌≤◌, ◌⊎◌, inl, inr, refl, sym, ap, ◌∙◌, arith,
  ℕ_discrete, dec_lt,
}
use mathlib.Core.Path.{subst}
use persist_x.Bytes.{rd, wr, rd_cong, rd-wr_self, rd-wr_outside, wr_outside, rd-lt}
use persist_x.Page.{Page}
use persist_x.BtreePage.Keys.{IsBytes, wr-IsBytes}
use persist_x.BtreePage.Internal.{
  key_offset, get_key_at, get_child_at, set_key_at, set_child_at, move_pair, shift_pairs,
}

pub record Same (p : Page) (i : ℕ) (q : Page) (j : ℕ) : Type 0 where
  pub key : get_key_at p i ≡ get_key_at q j
  pub child : get_child_at p (i + 1) ≡ get_child_at q (j + 1)

pub Same-refl : (p : Page) (i : ℕ) → Same p i p i
Same-refl p i = record { key = refl; child = refl }

pub Same-trans : {p q r : Page} {i j k : ℕ} → Same p i q j → Same q j r k → Same p i r k
Same-trans a b = record { key = a.key ∙ b.key; child = a.child ∙ b.child }

-- A cell outside a pair.
abbrev Outside : ℕ → ℕ → Type 0
Outside t i = (i < key_offset t) ⊎ (key_offset t + 12 ≤ i)

pub Same_cells :
    (p q : Page) (i : ℕ)
    → ((k : ℕ) → key_offset i ≤ k → k < key_offset i + 12 → p k ≡ q k)
    → Same p i q i
unfolding get_key_at get_child_at
Same_cells p q i h = record {
  key = rd_cong 8 p q (key_offset i) (λ k lo hi. h k lo (omega (arith, hi)));
  child =
      rd_cong 4 p q (11 + (i + 1) * 12) (λ k lo hi. h k (omega (arith, lo)) (omega (arith, hi)));
}

-- ─── one store ───

abbrev pub store : Page → ℕ → ℕ → ℕ → Page
store p t key child = set_child_at (set_key_at p t key) (t + 1) child

module _ (p : Page) (t key child : ℕ) where
  pub store-Outside : (i : ℕ) → Outside t i → store p t key child i ≡ p i
  unfolding set_key_at set_child_at
  store-Outside i h =
      wr_outside 4 _ (11 + (t + 1) * 12) child i (ground (arith, h))
      ∙ wr_outside 8 p (key_offset t) key i (ground (arith, h))

  pub store-IsBytes : IsBytes p → IsBytes (store p t key child)
  unfolding set_key_at set_child_at
  store-IsBytes h = wr-IsBytes 4 _ (11 + (t + 1) * 12) child (wr-IsBytes 8 p (key_offset t) key h)

  pub store_other : (j : ℕ) → j ≢ t → Same (store p t key child) j p j
  store_other j ne = Same_cells (store p t key child) p j (λ k lo hi.
      store-Outside k (elim (dec_lt j t) [
        | yes h ↦ inl (omega (arith, h, hi))
        | no h ↦ inr (omega (arith, h, lo, ne))
      ]))

  pub store_self :
      key < 2 ^ 64
      → child < 2 ^ 32
      → (get_key_at (store p t key child) t ≡ key)
        × (get_child_at (store p t key child) (t + 1) ≡ child)
  unfolding get_key_at get_child_at set_key_at set_child_at
  store_self h k =
      let a = wr 8 p (key_offset t) key in
      (
        rd-wr_outside 8 4 a (11 + (t + 1) * 12) (key_offset t) child (inl (omega arith))
            ∙ rd-wr_self 8 p (key_offset t) key h,
        rd-wr_self 4 a (11 + (t + 1) * 12) child k,
      )

-- ─── moves ───

move_pair_lem :
    (p : Page) (j : ℕ) → move_pair p j ≡ store p (j + 1) (get_key_at p j) (get_child_at p (j + 1))
unfolding move_pair set_key_at get_child_at
move_pair_lem p j =
    let same =
      rd-wr_outside 4 8 p (key_offset (j + 1)) (11 + (j + 1) * 12) (get_key_at p j)
        (inl (omega arith)) in
    let a = wr 8 p (key_offset (j + 1)) (get_key_at p j) in
    let next : j + 2 ≡ j + 1 + 1 = omega arith in
    ap (set_child_at a (j + 2)) same ∙ ap (λ t. set_child_at a t (rd 4 p (11 + (j + 1) * 12))) next

-- The `k` pairs from `i` on one place up.
pub record ShiftedUp (p : Page) (i k : ℕ) (q : Page) : Type 0 where
  pub bytes : IsBytes q
  pub cells : (c : ℕ) → (c < key_offset (i + 1)) ⊎ (key_offset (i + k + 1) ≤ c) → q c ≡ p c
  pub moved : (j : ℕ) → i ≤ j → j < i + k → Same q (j + 1) p j
  pub below : (j : ℕ) → j ≤ i → Same q j p j
  pub above : (j : ℕ) → i + k < j → Same q j p j

module _ (p : Page) (j : ℕ) where
  move-Outside : (c : ℕ) → Outside (j + 1) c → move_pair p j c ≡ p c
  move-Outside c h =
      ap (λ q. q c) (move_pair_lem p j)
      ∙ store-Outside p (j + 1) (get_key_at p j) (get_child_at p (j + 1)) c h

  move-IsBytes : IsBytes p → IsBytes (move_pair p j)
  move-IsBytes h =
      subst IsBytes (sym (move_pair_lem p j))
        (store-IsBytes p (j + 1) (get_key_at p j) (get_child_at p (j + 1)) h)

  move_other : (x : ℕ) → x ≢ j + 1 → Same (move_pair p j) x p x
  move_other x ne =
      subst (λ q. Same q x p x) (sym (move_pair_lem p j))
        (store_other p (j + 1) (get_key_at p j) (get_child_at p (j + 1)) x ne)

  move_self : IsBytes p → Same (move_pair p j) (j + 1) p j
  unfolding get_key_at get_child_at
  move_self h =
      let k =
        store_self p (j + 1) (get_key_at p j) (get_child_at p (j + 1)) (rd-lt 8 p (key_offset j) h)
          (rd-lt 4 p (11 + (j + 1) * 12) h) in
      subst (λ q. Same q (j + 1) p j) (sym (move_pair_lem p j)) (record { key = k.0; child = k.1 })

pub shift_pairs-ShiftedUp : (p : Page) (i k : ℕ) → IsBytes p → ShiftedUp p i k (shift_pairs p i k)
unfolding shift_pairs
shift_pairs-ShiftedUp p i zero h = record {
  bytes = h;
  cells = λ c o. refl;
  moved = λ j lo hi. absurd (omega (arith, lo, hi));
  below = λ j le. Same-refl p j;
  above = λ j le. Same-refl p j;
}
shift_pairs-ShiftedUp p i (suc k) h =
    let c = move_pair p (i + k) in
    let r = shift_pairs-ShiftedUp c i k (move-IsBytes p (i + k) h) in
    let other = move_other p (i + k) in
    record {
      bytes = r.bytes;
      cells = λ x o. r.cells x (ground (arith, o)) ∙ move-Outside p (i + k) x (ground (arith, o));
      moved = λ j lo hi. elim (ℕ_discrete j (i + k)) [
        | no before ↦
            Same-trans (r.moved j lo (omega (arith, hi, before)))
              (other j (λ e. omega (arith, e, hi)))
        | yes e ↦
            subst (λ x. Same (shift_pairs c i k) (x + 1) p x) (sym e)
              (Same-trans (r.above (i + k + 1) (omega arith)) (move_self p (i + k) h))
      ];
      below = λ j le. Same-trans (r.below j le) (other j (λ e. omega (arith, e, le)));
      above =
          λ j le. Same-trans (r.above j (omega (arith, le))) (other j (λ e. omega (arith, e, le)));
    }
