-- ===== src/TransactionManager/Table.antt =====
-- The table as a map from identifiers to transactions.
use persist_x.Base.{
  ℕ, ◌≡◌, ◌≢◌, refl, sym, ap, ◌∙◌, List, [], ◌∷◌, none, some, some_inj, ◌==◌, inl, inr, Bool-cases,
  ==→eq, eq→==, ne→==,
}
use persist_x.TransactionManager.{Transaction, find, assign, erase}

pub find-id :
    (ts : List Transaction) (id : ℕ) (t : Transaction) → find ts id ≡ some t → t.txn_id ≡ id
unfolding find
find-id [] id t e = absurd (cc e)
find-id (x ∷ ts) id t e = elim (Bool-cases (x.txn_id == id)) [
  | inl h ↦ ap (λ y. y.txn_id) (sym (some_inj.0 (rw h at e))) ∙ ==→eq x.txn_id id h
  | inr h ↦ find-id ts id t (rw h at e)
]

pub find-assign_self :
    (ts : List Transaction) (t : Transaction) → find (assign ts t) t.txn_id ≡ some t
unfolding find assign
find-assign_self [] t = rw (eq→== t.txn_id t.txn_id refl) refl
find-assign_self (x ∷ ts) t = elim (Bool-cases (x.txn_id == t.txn_id)) [
  | inl h ↦ rw (h, eq→== t.txn_id t.txn_id refl) refl
  | inr h ↦ rw (h, h) (find-assign_self ts t)
]

pub find-assign_other :
    (ts : List Transaction) (t : Transaction) (id : ℕ)
    → id ≢ t.txn_id
    → find (assign ts t) id ≡ find ts id
unfolding find assign
find-assign_other [] t id ne = rw (ne→== t.txn_id id (λ e. ne (sym e))) refl
find-assign_other (x ∷ ts) t id ne = elim (Bool-cases (x.txn_id == t.txn_id)) [
  | inl h ↦
      let x_other = ne→== x.txn_id id (λ e. ne (sym e ∙ ==→eq x.txn_id t.txn_id h)) in
      rw (h, ne→== t.txn_id id (λ e. ne (sym e)), x_other) refl
  | inr h ↦ rw h (elim (Bool-cases (x.txn_id == id)) [
    | inl k ↦ rw k refl
    | inr k ↦ rw k (find-assign_other ts t id ne)
  ])
]

pub find-erase_self : (ts : List Transaction) (id : ℕ) → find (erase ts id) id ≡ none
unfolding find erase
find-erase_self [] id = refl
find-erase_self (x ∷ ts) id = elim (Bool-cases (x.txn_id == id)) [
  | inl h ↦ rw h (find-erase_self ts id)
  | inr h ↦ rw (h, h) (find-erase_self ts id)
]

pub find-erase_other :
    (ts : List Transaction) (id other : ℕ) → other ≢ id → find (erase ts id) other ≡ find ts other
unfolding find erase
find-erase_other [] id other ne = refl
find-erase_other (x ∷ ts) id other ne = elim (Bool-cases (x.txn_id == id)) [
  | inl h ↦
      let x_other = ne→== x.txn_id other (λ e. ne (sym e ∙ ==→eq x.txn_id id h)) in
      rw (h, x_other) (find-erase_other ts id other ne)
  | inr h ↦ rw h (elim (Bool-cases (x.txn_id == other)) [
    | inl k ↦ rw k refl
    | inr k ↦ rw k (find-erase_other ts id other ne)
  ])
]
