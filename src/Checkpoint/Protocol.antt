-- ===== src/Checkpoint/Protocol.antt =====
-- The steps of a checkpoint: its two records are durable, and what was dirty is on disk.
use persist_x.Base.{
  ℕ, zero, suc, ◌+◌, ◌^◌, ◌≡◌, ◌≢◌, ◌<◌, ◌≤◌, ◌⊎◌, refl, sym, ap, ◌∙◌, arith, true, false, not,
  ◌&&◌, inl, inr, List, [], ◌∷◌, ◌++◌, length, Option, none, some, append_assoc, append-nil,
  length-append, Bool-cases, ◌==◌,
}
use mathlib.Core.Path.{subst}
use persist_x.Types.{invalid_page_id, invalid_lsn, invalid_txn_id, checkpoint_begin, checkpoint_end}
use persist_x.LogRecord.{LogRecord, set_lsn, simple_record, checkpoint_record, total_size}
use persist_x.LogRecord.RoundTrip.{Fits}
use persist_x.LogManager.{LogManager, append, flush}
use persist_x.LogManager.Contents.{Logs, append-Logs, flush-Logs}
use persist_x.Page.{get_page_lsn}
use persist_x.DiskManager.Pages.{SamePage, disk_page}
use persist_x.BufferManager.{
  BufferManager, flush_frame, flush_from, flush_all_pages, write_frame, enforce_wal, clean_frame,
  flush_log, get_dirty_pages,
}
use persist_x.BufferManager.Frames
use persist_x.BufferManager.Frames.{SameViews, view}
use persist_x.BufferManager.FlushAll.{flush_skip, flush_write, flush_all_pages-disk}
use persist_x.TransactionManager.{TransactionManager, get_att_snapshot}
use persist_x.Checkpoint.{checkpoint, serialize_att, serialize_dpt, log_of, attach}

-- The log holds the records `rs`, at least `n` of them on stable storage.
record Keeps (log : LogManager) (rs : List LogRecord) (n : ℕ) : Type 0 where
  durable : List LogRecord
  pending : List LogRecord
  logs : Logs log durable pending
  all : durable ++ pending ≡ rs
  least : n ≤ length durable

flush-Keeps :
    (log : LogManager) (rs : List LogRecord) (n lsn : ℕ)
    → Keeps log rs n
    → Keeps (flush log lsn) rs n
flush-Keeps log rs n lsn k =
    let (d, p, logs, same, grown, due) = flush-Logs log k.durable k.pending lsn k.logs in
    record {
      durable = d;
      pending = p;
      logs = logs;
      all = same ∙ k.all;
      least = let h = k.least in omega (arith, h, grown);
    }

flush_due :
    (log : LogManager) (rs : List LogRecord) (n lsn : ℕ)
    → Keeps log rs n
    → lsn < length rs
    → Keeps (flush log lsn) rs (lsn + 1)
flush_due log rs n lsn k h =
    let (d, p, logs, same, grown, due) = flush-Logs log k.durable k.pending lsn k.logs in
    record {
      durable = d;
      pending = p;
      logs = logs;
      all = same ∙ k.all;
      least =
          let e = due (
            omega
              (arith, h, k.logs.next_lsn, ap length k.all, length-append k.durable k.pending)) in
          omega (arith, e);
    }

-- The log of the cache, or the shared one where the cache has none, keeps its records, and the cache
-- keeps or lacks its log.
module _ (other : LogManager) where
  abbrev SameLog : Option LogManager → Option LogManager → Type 0
  SameLog l l' =
      ((rs : List LogRecord) (n : ℕ) → Keeps (log_of l other) rs n → Keeps (log_of l' other) rs n)
      × ((log : LogManager) → attach l' log ≡ attach l log)

  flush_log-SameLog : (l : Option LogManager) (lsn : ℕ) → SameLog l (flush_log l lsn)
  flush_log-SameLog none lsn = (λ rs n k. k, λ log. refl)
  flush_log-SameLog (some own) lsn = (λ rs n k. flush-Keeps own rs n lsn k, λ log. refl)

  written-SameLog :
      (b : BufferManager) (id f : ℕ)
      → SameLog b.log_manager (clean_frame (write_frame b id f).0 f).log_manager
  unfolding clean_frame write_frame enforce_wal
  written-SameLog b id f = flush_log-SameLog b.log_manager (get_page_lsn (b.pages f))

  flush_frame-SameLog :
      (b : BufferManager) (i : ℕ) → SameLog b.log_manager (flush_frame b i).log_manager
  flush_frame-SameLog b i = elim (Bool-cases (not (b.page_ids i == invalid_page_id) && b.dirty i)) [
    | inr e ↦
        subst (λ c. SameLog b.log_manager c.log_manager) (sym (flush_skip b i e))
          (λ rs n k. k, λ log. refl)
    | inl e ↦
        subst (λ c. SameLog b.log_manager c.log_manager) (sym (flush_write b i e))
          (written-SameLog b (b.page_ids i) i)
  ]

  flush_from-SameLog :
      (b : BufferManager) (i n : ℕ) → SameLog b.log_manager (flush_from b i n).log_manager
  unfolding flush_from
  flush_from-SameLog b i zero = (λ rs n k. k, λ log. refl)
  flush_from-SameLog b i (suc n) =
      let first = flush_frame-SameLog b i in
      let rest = flush_from-SameLog (flush_frame b i) (i + 1) n in
      (λ rs m k. rest.0 rs m (first.0 rs m k), λ log. rest.1 log ∙ first.1 log)

log_of-attach : (l : Option LogManager) (log : LogManager) → log_of (attach l log) log ≡ log
log_of-attach none log = refl
log_of-attach (some own) log = refl

attach_twice :
    (l : Option LogManager) (log new : LogManager) → attach (attach l log) new ≡ attach l new
attach_twice none log new = refl
attach_twice (some own) log new = refl

-- The two records of a checkpoint from the number `n` on.
abbrev pub checkpoint_records : ℕ → TransactionManager → BufferManager → List LogRecord
checkpoint_records n m b =
    set_lsn (simple_record invalid_txn_id invalid_lsn checkpoint_begin) n
    ∷ (set_lsn
          (checkpoint_record checkpoint_end (serialize_att (get_att_snapshot m))
            (serialize_dpt (get_dirty_pages b)))
          (n + 1)
        ∷ [])

begin-Fits :
    (n : ℕ)
    → n < 2 ^ 64
    → Fits (set_lsn (simple_record invalid_txn_id invalid_lsn checkpoint_begin) n)
begin-Fits n h = record {
  lsn = h;
  txn_id = omega arith;
  prev_lsn = omega arith;
  tag = refl;
  tag_byte = omega arith;
  page_id = omega arith;
  slot_id = omega arith;
  index_key = omega arith;
  undo_next_lsn = omega arith;
  size = unfold total_size in omega arith;
}

length_nil : (rs : List LogRecord) → length rs ≡ 0 → rs ≡ []
length_nil [] h = refl
length_nil (r ∷ rs) h = absurd (omega (arith, h))

-- When the last record is durable, nothing is pending.
Keeps-all : (log : LogManager) (rs : List LogRecord) → Keeps log rs (length rs) → Logs log rs []
Keeps-all log rs k =
    let e = ap length k.all in
    let n = k.least in
    let none_left : k.pending ≡ [] =
      length_nil k.pending (omega (arith, e, n, length-append k.durable k.pending)) in
    let same : k.durable ≡ rs =
      sym (append-nil k.durable) ∙ ap (λ x. k.durable ++ x) (sym none_left) ∙ k.all in
    subst (λ x. Logs log x []) same (subst (Logs log k.durable) none_left k.logs)

-- A cache that had a log has the shared one now, and one without has none.
abbrev pub SharesLog : Option LogManager → LogManager → Option LogManager → Type 0
SharesLog before log after =
    ((before ≡ none) × (after ≡ none))
    ⊎ ((own : LogManager) × (before ≡ some own) × (after ≡ some log))

attach-SharesLog :
    (before : Option LogManager) (log : LogManager) → SharesLog before log (attach before log)
attach-SharesLog none log = inl (refl, refl)
attach-SharesLog (some own) log = inr (own, refl, refl)

-- When every write of a page goes through, a checkpoint appends CHECKPOINT_BEGIN and
-- CHECKPOINT_END, the latter with the tables as they were, and both are on stable storage
-- afterwards, with everything before them. No page of the cache is dirty any more, and those that
-- were are on disk; no page is seen differently. The cache shares the log, or still has none if it
-- was built without. Two numbers have to be left, and the tables have to fit a record.
pub checkpoint-durable :
    (m : TransactionManager) (b : BufferManager) (durable pending : List LogRecord)
    → Logs m.log_manager durable pending
    → Frames.IsValid b
    → ((id : ℕ) → b.disk_manager.writable id ≡ true)
    → m.log_manager.next_lsn + 2 < 2 ^ 64
    → Fits (
        set_lsn
          (checkpoint_record checkpoint_end
            (serialize_att (get_att_snapshot m))
            (serialize_dpt (get_dirty_pages b)))
          (m.log_manager.next_lsn + 1))
    → Logs
        (checkpoint m b).0.log_manager
        ((durable ++ pending) ++ checkpoint_records (length (durable ++ pending)) m b)
        []
      × SharesLog b.log_manager (checkpoint m b).0.log_manager (checkpoint m b).1.log_manager
      × Frames.IsValid (checkpoint m b).1
      × SameViews b (checkpoint m b).1
      × ((f : ℕ)
          → f < b.pool_size
          → b.page_ids f ≢ invalid_page_id
          → ((checkpoint m b).1.dirty f ≡ false)
            × (b.dirty f ≡ true
                → SamePage (disk_page (checkpoint m b).1.disk_manager (b.page_ids f)) (b.pages f)))
unfolding checkpoint
checkpoint-durable m b durable pending l v w room fits =
    let n = m.log_manager.next_lsn in
    let c1 = simple_record invalid_txn_id invalid_lsn checkpoint_begin in
    let c2 =
      checkpoint_record checkpoint_end (serialize_att (get_att_snapshot m))
        (serialize_dpt (get_dirty_pages b)) in
    let s1 = set_lsn c1 n in
    let log1 = (append m.log_manager c1).0 in
    let a1 =
      append-Logs m.log_manager durable pending c1 l (begin-Fits n (omega (arith, room)))
        (omega (arith, room)) in
    let le1 = length-append pending (s1 ∷ []) in
    let next1 : log1.next_lsn ≡ n + 1 = omega (arith, a1.0.next_lsn, l.next_lsn, le1) in
    let s2 = set_lsn c2 log1.next_lsn in
    let a2 =
      append-Logs log1 durable (pending ++ (s1 ∷ [])) c2 a1.0
        (subst (λ k. Fits (set_lsn c2 k)) (sym next1) fits) (omega (arith, next1, room)) in
    let log2 = (append log1 c2).0 in
    let end_lsn = (append log1 c2).1 in
    let rs = durable ++ ((pending ++ (s1 ∷ [])) ++ (s2 ∷ [])) in
    let b0 : BufferManager = record b { log_manager = attach b.log_manager log2 } in
    let k0 : Keeps log2 rs 0 = record {
      durable = durable;
      pending = (pending ++ (s1 ∷ [])) ++ (s2 ∷ []);
      logs = a2.0;
      all = refl;
      least = omega arith;
    } in
    let v0 : Frames.IsValid b0 = record {
      links = v.links;
      counts = v.counts;
      owned = v.owned;
      clean = v.clean;
    } in
    let kept : SameLog log2 b0.log_manager (flush_all_pages b0).log_manager =
      unfold flush_all_pages in flush_from-SameLog log2 b0 0 b.pool_size in
    let log3 = log_of (flush_all_pages b0).log_manager log2 in
    let k1 : Keeps log3 rs 0 =
      kept.0 rs 0 (subst (λ x. Keeps x rs 0) (sym (log_of-attach b.log_manager log2)) k0) in
    let size : length rs ≡ end_lsn + 1 = omega (
      arith,
      a2.1,
      length-append durable ((pending ++ (s1 ∷ [])) ++ (s2 ∷ [])),
      length-append (pending ++ (s1 ∷ [])) (s2 ∷ []),
    ) in
    let k2 = flush_due log3 rs 0 end_lsn k1 (omega (arith, size)) in
    let flushed = flush log3 end_lsn in
    let k3 = Keeps-all flushed rs (subst (Keeps flushed rs) (sym size) k2) in
    let d = flush_all_pages-disk b0 v0 w in
    let full : n ≡ length (durable ++ pending) = l.next_lsn ∙ sym (length-append durable pending) in
    let order : rs ≡ (durable ++ pending) ++ checkpoint_records (length (durable ++ pending)) m b =
      sym (append_assoc durable (pending ++ (s1 ∷ [])) (s2 ∷ []))
      ∙ ap (λ x. x ++ (s2 ∷ [])) (sym (append_assoc durable pending (s1 ∷ [])))
      ∙ append_assoc (durable ++ pending) (s1 ∷ []) (s2 ∷ [])
      ∙ ap (λ k. (durable ++ pending) ++ (s1 ∷ (set_lsn c2 k ∷ []))) next1
      ∙ ap (λ k. (durable ++ pending) ++ (set_lsn c1 k ∷ (set_lsn c2 (k + 1) ∷ []))) full in
    (
      subst (λ x. Logs flushed x []) order k3,
      subst (SharesLog b.log_manager flushed)
          (sym (kept.1 flushed ∙ attach_twice b.log_manager log2 flushed))
          (attach-SharesLog b.log_manager flushed),
      record { links = d.0.links; counts = d.0.counts; owned = d.0.owned; clean = d.0.clean },
      d.1,
      d.2,
    )
