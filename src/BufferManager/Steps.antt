-- ===== src/BufferManager/Steps.antt =====
-- Every operation of the cache keeps the write-ahead rule.
use persist_x.Base.{ℕ, inl, inr, sym, Bool, List, Bool-cases, Option-cases}
use mathlib.Core.Path.{subst}
use persist_x.LogRecord.{LogRecord}
use persist_x.BufferManager.Fetch.{fetch_hit, fetch_miss-none, fetch_miss-some}
use persist_x.BufferManager.New.{allocated, new_page-none, new_page-some}
use persist_x.BufferManager.Unpin.{unpin_none, unpin_zero, unpin_done}
use persist_x.BufferManager.Delete.{delete_none, delete_pinned, delete_done}
use persist_x.BufferManager.Flush.{flush_none, flush_done, flush_failed}
use persist_x.BufferManager.{
  BufferManager, take_frame, fetch_page, unpin_page, flush_page, new_page, delete_page,
  flush_all_pages, write_frame, positive,
}
use persist_x.BufferManager.Wal.{
  WalRule, KeepsLsn, Ruled, write_frame-Ruled, written-Ruled, take_frame-Ruled, install-Ruled,
  allocated-Ruled, flush_from-Ruled,
}

-- One call of an operation, and the cache after it.
pub data Step : BufferManager → BufferManager → Type 0 where
  fetched : (b : BufferManager) (id : ℕ) → Step b (fetch_page b id).0
  created : (b : BufferManager) → Step b (new_page b).0
  unpinned : (b : BufferManager) (id : ℕ) (is_dirty : Bool) → Step b (unpin_page b id is_dirty).0
  flushed : (b : BufferManager) (id : ℕ) → Step b (flush_page b id).0
  all_flushed : (b : BufferManager) → Step b (flush_all_pages b)
  deleted_page : (b : BufferManager) (id : ℕ) → Step b (delete_page b id).0

module _ (rs : List LogRecord) (b : BufferManager) (w : Ruled rs b) where
  fetch_page-Ruled : (id : ℕ) → Ruled rs (fetch_page b id).0
  fetch_page-Ruled id = elim (Option-cases (b.page_table id)) [
    | inr (f, at_f) ↦ subst (λ o. Ruled rs o.0) (sym (fetch_hit b id f at_f)) w
    | inl new ↦
        let t = take_frame-Ruled rs b w in
        elim (Option-cases (take_frame b).1) [
          | inl n ↦ subst (λ o. Ruled rs o.0) (sym (fetch_miss-none b id new n)) t
          | inr (f, x) ↦
              subst (λ o. Ruled rs o.0) (sym (fetch_miss-some b id f new x))
                (install-Ruled rs (take_frame b).0 f id _ t)
        ]
  ]

  new_page-Ruled : Ruled rs (new_page b).0
  new_page-Ruled =
      let t = take_frame-Ruled rs b w in
      elim (Option-cases (take_frame b).1) [
        | inl n ↦ subst (λ o. Ruled rs o.0) (sym (new_page-none b n)) t
        | inr (f, x) ↦
            subst (λ o. Ruled rs o.0) (sym (new_page-some b f x))
              (install-Ruled rs (allocated (take_frame b).0) f _ _
                (allocated-Ruled rs (take_frame b).0 t))
      ]

  unpin_page-Ruled : (id : ℕ) (is_dirty : Bool) → Ruled rs (unpin_page b id is_dirty).0
  unpin_page-Ruled id is_dirty = elim (Option-cases (b.page_table id)) [
    | inl e ↦ subst (λ o. Ruled rs o.0) (sym (unpin_none b id is_dirty e)) w
    | inr (f, e) ↦ elim (Bool-cases (positive (b.pin_count f))) [
      | inr z ↦ subst (λ o. Ruled rs o.0) (sym (unpin_zero b id f is_dirty e z)) w
      | inl ne ↦ subst (λ o. Ruled rs o.0) (sym (unpin_done b id f is_dirty e ne)) w
    ]
  ]

  flush_page-Ruled : (id : ℕ) → Ruled rs (flush_page b id).0
  flush_page-Ruled id = elim (Option-cases (b.page_table id)) [
    | inl e ↦ subst (λ o. Ruled rs o.0) (sym (flush_none b id e)) w
    | inr (f, e) ↦ elim (Bool-cases (write_frame b id f).1) [
      | inl ok ↦
          subst (λ o. Ruled rs o.0) (sym (flush_done b id f e ok)) (written-Ruled rs b id f w)
      | inr failed ↦
          subst (λ o. Ruled rs o.0) (sym (flush_failed b id f e failed))
            (write_frame-Ruled rs b id f w)
    ]
  ]

  delete_page-Ruled : (id : ℕ) → Ruled rs (delete_page b id).0
  delete_page-Ruled id = elim (Option-cases (b.page_table id)) [
    | inl e ↦ subst (λ o. Ruled rs o.0) (sym (delete_none b id e)) w
    | inr (f, e) ↦ elim (Bool-cases (positive (b.pin_count f))) [
      | inl h ↦ subst (λ o. Ruled rs o.0) (sym (delete_pinned b id f e h)) w
      | inr h ↦ subst (λ o. Ruled rs o.0) (sym (delete_done b id f e h)) w
    ]
  ]

Step-Ruled : (rs : List LogRecord) (b c : BufferManager) → Step b c → Ruled rs b → Ruled rs c
Step-Ruled rs _ _ (fetched b id) w = fetch_page-Ruled rs b w id
Step-Ruled rs _ _ (created b) w = new_page-Ruled rs b w
Step-Ruled rs _ _ (unpinned b id is_dirty) w = unpin_page-Ruled rs b w id is_dirty
Step-Ruled rs _ _ (flushed b id) w = flush_page-Ruled rs b w id
Step-Ruled rs _ _ (all_flushed b) w =
    unfold flush_all_pages in flush_from-Ruled rs b 0 b.pool_size w
Step-Ruled rs _ _ (deleted_page b id) w = delete_page-Ruled rs b w id

-- Every operation of the cache keeps the write-ahead rule, whether its writes go through or fail:
-- the log still holds the same records in the same order, and a page on disk whose LSN is the number
-- of one of them has that record on stable storage. A failed write may leave anything of its page on
-- disk, if the LSN there is the old one or the new one; this is true of the next write as well.
pub Step-WalRule :
    (rs : List LogRecord) (b c : BufferManager)
    → Step b c
    → KeepsLsn b.disk_manager
    → WalRule b.log_manager b.disk_manager rs
    → WalRule c.log_manager c.disk_manager rs × KeepsLsn c.disk_manager
Step-WalRule rs b c step whole w = Step-Ruled rs b c step (w, whole)
