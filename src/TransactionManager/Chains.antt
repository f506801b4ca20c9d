-- ===== src/TransactionManager/Chains.antt =====
-- The undo chain of a transaction: from its last record back to its BEGIN record.
use persist_x.Base.{
  ℕ, ◌≡◌, ◌<◌, refl, sym, ap, ◌∙◌, arith, List, [], ◌∷◌, ◌++◌, length, some, some_inj, append_assoc,
  length-append, ℕ_discrete,
}
use mathlib.Core.Path.{subst}
use persist_x.Types.{begin, invalid_lsn}
use persist_x.LogRecord.{LogRecord}
use persist_x.TransactionManager.{Transaction, find, assign, erase}
use persist_x.TransactionManager.Table.{
  find-assign_self, find-assign_other, find-erase_self, find-erase_other,
}

-- The record with the number `lsn`.
abbrev pub Stands : List LogRecord → ℕ → LogRecord → Type 0
Stands rs lsn r =
    (before : List LogRecord) × (after : List LogRecord) × (rs ≡ before ++ (r ∷ after))
    × (length before ≡ lsn)

pub Stands-append :
    (rs more : List LogRecord) (lsn : ℕ) (r : LogRecord)
    → Stands rs lsn r
    → Stands (rs ++ more) lsn r
Stands-append rs more lsn r (before, after, e, n) =
    (before, after ++ more, ap (λ x. x ++ more) e ∙ append_assoc before (r ∷ after) more, n)

pub Stands-last : (rs : List LogRecord) (r : LogRecord) → Stands (rs ++ (r ∷ [])) (length rs) r
Stands-last rs r = (rs, [], refl, refl)

-- A chain of records of one transaction, each linked to an earlier one, that ends at its BEGIN.
pub data Chain (rs : List LogRecord) (id : ℕ) : ℕ → Type 0 where
  started :
      (lsn : ℕ) (r : LogRecord)
      → Stands rs lsn r
      → r.txn_id ≡ id
      → r.type ≡ begin
      → r.prev_lsn ≡ invalid_lsn
      → Chain rs id lsn
  linked :
      (lsn : ℕ) (r : LogRecord)
      → Stands rs lsn r
      → r.txn_id ≡ id
      → r.prev_lsn < lsn
      → Chain rs id r.prev_lsn
      → Chain rs id lsn

pub Chain-append :
    (rs more : List LogRecord) (id lsn : ℕ) → Chain rs id lsn → Chain (rs ++ more) id lsn
Chain-append rs more id _ (started lsn r s i b p) =
    started lsn r (Stands-append rs more lsn r s) i b p
Chain-append rs more id _ (linked lsn r s i p c) =
    linked lsn r (Stands-append rs more lsn r s) i p (Chain-append rs more id r.prev_lsn c)

pub Chain-lt : (rs : List LogRecord) (id lsn : ℕ) → Chain rs id lsn → lsn < length rs
Chain-lt rs id _ (started lsn r (before, after, e, n) i b p) =
    let k = ap length e in omega (arith, k, n, length-append before (r ∷ after))
Chain-lt rs id _ (linked lsn r (before, after, e, n) i p c) =
    let k = ap length e in omega (arith, k, n, length-append before (r ∷ after))

-- Every transaction of the table has been given out, and its last record starts a chain in the log.
abbrev pub Active : List LogRecord → List Transaction → ℕ → Type 0
Active rs att next =
    (id : ℕ) (t : Transaction) → find att id ≡ some t → (id < next) × Chain rs id t.prev_lsn

pub Active-append :
    (rs more : List LogRecord) (att : List Transaction) (next : ℕ)
    → Active rs att next
    → Active (rs ++ more) att next
Active-append rs more att next a id t e =
    let k = a id t e in (k.0, Chain-append rs more id t.prev_lsn k.1)

-- A transaction takes its place with a chain.
pub Active-assign :
    (rs : List LogRecord) (att : List Transaction) (next : ℕ) (t : Transaction)
    → Active rs att next
    → t.txn_id < next
    → Chain rs t.txn_id t.prev_lsn
    → Active rs (assign att t) next
Active-assign rs att next t a lt c id u e = elim (ℕ_discrete id t.txn_id) [
  | yes same ↦
      let u_t : t ≡ u =
        some_inj.0 (sym (find-assign_self att t) ∙ ap (find (assign att t)) (sym same) ∙ e) in
      (
        omega (arith, same, lt),
        subst (λ v. Chain rs id v.prev_lsn) u_t (subst (λ i. Chain rs i t.prev_lsn) (sym same) c),
      )
  | no ne ↦ a id u (sym (find-assign_other att t id ne) ∙ e)
]

pub Active-erase :
    (rs : List LogRecord) (att : List Transaction) (next id : ℕ)
    → Active rs att next
    → Active rs (erase att id) next
Active-erase rs att next id a other u e = elim (ℕ_discrete other id) [
  | yes same ↦ absurd (cc (e, find-erase_self att id, same))
  | no ne ↦ a other u (sym (find-erase_other att id other ne) ∙ e)
]
