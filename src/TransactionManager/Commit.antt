-- ===== src/TransactionManager/Commit.antt =====
-- commit: its log records and their durability.
use persist_x.Base.{
  ℕ, ◌+◌, ◌^◌, ◌≡◌, ◌≢◌, ◌<◌, refl, sym, ap, ◌∙◌, arith, List, [], ◌∷◌, ◌++◌, length, none, some,
  append_assoc, length-append, ℕ_discrete,
}
use mathlib.Core.Path.{subst}
use persist_x.Types.{commit, txn_end, committed}
use persist_x.LogRecord.{LogRecord, set_lsn, simple_record}
use persist_x.LogManager.{LogManager, append, flush}
use persist_x.LogManager.Contents.{flush-durable}
use persist_x.TransactionManager.{Transaction, TransactionManager, find, assign, erase, commit_txn}
use persist_x.TransactionManager.Table.{
  find-id, find-assign_other, find-erase_self, find-erase_other,
}
use persist_x.TransactionManager.Chains.{Chain-lt, Active}
use persist_x.TransactionManager.Begin.{IsValid, simple-Fits, appended-IsValid}

abbrev commit_log : TransactionManager → Transaction → LogManager
commit_log m t =
    flush (append m.log_manager (simple_record t.txn_id t.prev_lsn commit)).0
      (append m.log_manager (simple_record t.txn_id t.prev_lsn commit)).1

abbrev after_commit : TransactionManager → Transaction → TransactionManager
after_commit m t =
    let lsn = (append m.log_manager (simple_record t.txn_id t.prev_lsn commit)).1 in
    record m {
      log_manager = (append (commit_log m t) (simple_record t.txn_id lsn txn_end)).0;
      att = erase (assign m.att (record t { prev_lsn = lsn; state = committed })) t.txn_id;
    }

commit_some :
    (m : TransactionManager) (id : ℕ) (t : Transaction)
    → find m.att id ≡ some t
    → commit_txn m id ≡ some (after_commit m t)
unfolding commit_txn
commit_some m id t e = rw (commit_txn, e) refl

-- The two records of a commit.
abbrev pub commit_records : ℕ → Transaction → List LogRecord
commit_records n t =
    set_lsn (simple_record t.txn_id t.prev_lsn commit) n
    ∷ (set_lsn (simple_record t.txn_id n txn_end) (n + 1) ∷ [])

erased-Active :
    (rs : List LogRecord) (att : List Transaction) (next : ℕ) (t : Transaction)
    → Active rs att next
    → Active rs (erase (assign att t) t.txn_id) next
erased-Active rs att next t a id u e = elim (ℕ_discrete id t.txn_id) [
  | yes same ↦ absurd (cc (e, find-erase_self (assign att t) t.txn_id, same))
  | no ne ↦
      a id u
        (sym (find-erase_other (assign att t) t.txn_id id ne ∙ find-assign_other att t id ne) ∙ e)
]

-- commit writes a COMMIT and a TXN_END record, and the COMMIT record is on stable storage when it
-- returns. The log keeps all its records in their order, the transaction is out of the table, and
-- the others are as before. Two numbers have to be left.
pub commit_txn-durable :
    (m : TransactionManager) (durable pending : List LogRecord) (id : ℕ) (t : Transaction)
    → IsValid m durable pending
    → find m.att id ≡ some t
    → m.log_manager.next_lsn + 2 < 2 ^ 64
    → m.next_txn_id < 2 ^ 64
    → (m' : TransactionManager) × (durable' : List LogRecord) × (pending' : List LogRecord)
      × (commit_txn m id ≡ some m')
      × IsValid m' durable' pending'
      × (durable' ++ pending'
          ≡ (durable ++ pending) ++ commit_records (length (durable ++ pending)) t)
      × (length (durable ++ pending) < length durable')
      × (find m'.att id ≡ none)
      × ((other : ℕ) → other ≢ id → find m'.att other ≡ find m.att other)
commit_txn-durable m durable pending id t v e room ids =
    let n = m.log_manager.next_lsn in
    let t_id : t.txn_id ≡ id = find-id m.att id t e in
    let act = v.active id t e in
    let prev = Chain-lt (durable ++ pending) id t.prev_lsn act.1 in
    let len = length-append durable pending in
    let full : n ≡ length (durable ++ pending) = v.logs.next_lsn ∙ sym len in
    let c = simple_record t.txn_id t.prev_lsn commit in
    let fits_c =
      simple-Fits n t.txn_id t.prev_lsn commit refl (omega arith) refl (omega (arith, room))
        (omega (arith, t_id, act.0, ids)) (omega (arith, prev, full, room)) refl refl in
    let a = appended-IsValid m durable pending c v fits_c (omega (arith, room)) in
    let log1 = (append m.log_manager c).0 in
    let lsn = (append m.log_manager c).1 in
    let next1 : log1.next_lsn ≡ n + 1 =
      omega (arith, a.0.next_lsn, v.logs.next_lsn, length-append pending (set_lsn c n ∷ [])) in
    let (d, p, l2, same, due) =
      flush-durable log1 durable (pending ++ (set_lsn c n ∷ [])) lsn a.0
        (omega (arith, a.2, full, next1)) in
    let next2 : (commit_log m t).next_lsn ≡ n + 1 = omega (
      arith,
      l2.next_lsn,
      length-append d p,
      ap length same,
      length-append durable (pending ++ (set_lsn c n ∷ [])),
      length-append pending (set_lsn c n ∷ []),
      v.logs.next_lsn,
    ) in
    let m2 : TransactionManager = record m { log_manager = commit_log m t } in
    let v2 : IsValid m2 d p = record {
      logs = l2;
      active = subst (λ rs. Active rs m.att m.next_txn_id) (sym same) a.1;
    } in
    let fin = simple_record t.txn_id lsn txn_end in
    let fits_e =
      simple-Fits (commit_log m t).next_lsn t.txn_id lsn txn_end refl (omega arith) refl
        (omega (arith, next2, room)) (omega (arith, t_id, act.0, ids))
        (omega (arith, a.2, full, room)) refl refl in
    let b = appended-IsValid m2 d p fin v2 fits_e (omega (arith, next2, room)) in
    let x = set_lsn fin (commit_log m t).next_lsn in
    let at_full : set_lsn c n ≡ set_lsn c (length (durable ++ pending)) = ap (set_lsn c) full in
    let at_end : x
        ≡ set_lsn (simple_record t.txn_id (length (durable ++ pending)) txn_end)
            (length (durable ++ pending) + 1) =
      ap (λ k. set_lsn (simple_record t.txn_id lsn txn_end) k) (next2 ∙ ap (λ k. k + 1) full)
      ∙ ap (λ k. set_lsn (simple_record t.txn_id k txn_end) (length (durable ++ pending) + 1))
          a.2 in
    (
      after_commit m t,
      d,
      p ++ (x ∷ []),
      commit_some m id t e,
      record {
        logs = b.0;
        active =
            erased-Active (d ++ (p ++ (x ∷ []))) m.att m.next_txn_id
              (record t { prev_lsn = lsn; state = committed }) b.1;
      },
      sym (append_assoc d p (x ∷ []))
          ∙ ap (λ y. y ++ (x ∷ [])) (same ∙ sym (append_assoc durable pending (set_lsn c n ∷ [])))
          ∙ append_assoc (durable ++ pending) (set_lsn c n ∷ []) (x ∷ [])
          ∙ ap (λ y. (durable ++ pending) ++ (y ∷ (x ∷ []))) at_full
          ∙ ap (λ y. (durable ++ pending) ++ (set_lsn c (length (durable ++ pending)) ∷ (y ∷ [])))
              at_end,
      omega (arith, due, a.2),
      subst (λ k. find (after_commit m t).att k ≡ none) t_id
          (find-erase_self (assign m.att (record t { prev_lsn = lsn; state = committed }))
            t.txn_id),
      λ other ne.
          let ne' : other ≢ t.txn_id = λ q. ne (q ∙ t_id) in
          find-erase_other (assign m.att (record t { prev_lsn = lsn; state = committed })) t.txn_id
            other ne'
          ∙ find-assign_other m.att (record t { prev_lsn = lsn; state = committed }) other ne',
    )
