-- ===== src/BufferManager/Wal.antt =====
-- The write-ahead rule: a page on disk never runs ahead of the log.
use persist_x.Base.{
  ℕ, zero, suc, ◌+◌, ◌≡◌, ◌<◌, ◌⊎◌, inl, inr, refl, sym, ap, ◌∙◌, arith, true, false, not, ◌&&◌,
  List, ◌++◌, length, Option, none, some, Bool-cases, Option-cases, ℕ_discrete, ◌==◌, length-append,
}
use mathlib.Core.Path.{subst}
use persist_x.Types.{invalid_page_id}
use persist_x.Bytes.{rd_cong}
use persist_x.LogRecord.{LogRecord}
use persist_x.LogManager.{LogManager, flush}
use persist_x.LogManager.Contents.{Logs, flush-Logs}
use persist_x.Page.{Page, get_page_lsn}
use persist_x.Replacer.{evict}
use persist_x.BufferManager.Take.{
  evicted, victim_outcome, free_cases, take_frame-empty, take_frame-cons,
}
use persist_x.BufferManager.New.{allocated}
use persist_x.BufferManager.FlushAll.{flush_skip, flush_write}
use persist_x.DiskManager.{DiskManager, write_page, allocate_page, byte_at}
use persist_x.DiskManager.Pages.{
  SamePage, disk_page, write_page_self, write_page-other, write_page-failed,
}
use persist_x.BufferManager.{
  BufferManager, take_frame, flush_frame, flush_from, write_frame, flush_log, enforce_wal,
  clean_frame, unmap, install,
}

-- The log holds the records `rs`, and every page on disk whose LSN is the number of one of them has
-- that record on stable storage.
pub record WalRule (log_manager : Option LogManager) (disk : DiskManager) (rs : List LogRecord)
    : Type 0 where
  pub log : LogManager
  pub durable : List LogRecord
  pub pending : List LogRecord
  pub present : log_manager ≡ some log
  pub logs : Logs log durable pending
  pub all : durable ++ pending ≡ rs
  pub ahead :
      (id : ℕ)
      → get_page_lsn (disk_page disk id) < length rs
      → get_page_lsn (disk_page disk id) < length durable

-- A failed write does not tear the page's LSN: what it leaves has the LSN of the page on disk or
-- that of the page written.
abbrev pub KeepsLsn : DiskManager → Type 0
KeepsLsn disk =
    (id : ℕ) (old src : Page)
    → (get_page_lsn (disk.after_failure id old src) ≡ get_page_lsn old)
      ⊎ (get_page_lsn (disk.after_failure id old src) ≡ get_page_lsn src)

written-KeepsLsn :
    (disk : DiskManager) (id : ℕ) (p : Page) → KeepsLsn disk → KeepsLsn (write_page disk id p).0
unfolding write_page
written-KeepsLsn disk id p k = k

lsn-SamePage : (p q : Page) → SamePage p q → get_page_lsn p ≡ get_page_lsn q
unfolding get_page_lsn
lsn-SamePage p q h = rd_cong 8 p q 13 (λ k lo hi. h k (omega (arith, hi)))

-- A write after a flush up to the LSN of the page.
written-WalRule :
    (log_manager : Option LogManager) (disk : DiskManager) (id : ℕ) (p : Page) (rs : List LogRecord)
    → WalRule log_manager disk rs
    → KeepsLsn disk
    → WalRule (flush_log log_manager (get_page_lsn p)) (write_page disk id p).0 rs
written-WalRule log_manager disk id p rs w whole =
    let (durable, pending, logs, same, grown, due) =
      flush-Logs w.log w.durable w.pending (get_page_lsn p) w.logs in
    record {
      log = flush w.log (get_page_lsn p);
      durable = durable;
      pending = pending;
      present = ap (λ l. flush_log l (get_page_lsn p)) w.present;
      logs = logs;
      all = same ∙ w.all;
      ahead = λ x h.
          let old : get_page_lsn (disk_page (write_page disk id p).0 x)
                ≡ get_page_lsn (disk_page disk x)
              → get_page_lsn (disk_page (write_page disk id p).0 x) < length durable =
            λ e. omega (arith, w.ahead x (omega (arith, e, h)), e, grown) in
          let new : get_page_lsn (disk_page (write_page disk id p).0 x) ≡ get_page_lsn p
              → get_page_lsn (disk_page (write_page disk id p).0 x) < length durable =
            λ k.
              let size = length-append w.durable w.pending in
              omega
                (arith, k, h, due (omega (arith, k, h, w.logs.next_lsn, ap length w.all, size))) in
          elim (ℕ_discrete x id) [
            | no ne ↦ old (lsn-SamePage _ _ (write_page-other disk id x p ne))
            | yes e ↦ elim (Bool-cases (write_page disk id p).1) [
              | inl ok ↦ new (
                  lsn-SamePage (disk_page (write_page disk id p).0 x) p
                    (rw e (write_page_self disk id p ok)))
              | inr failed ↦
                  let k = lsn-SamePage _ _ (write_page-failed disk id p failed) in
                  let same = ap (λ y. get_page_lsn (disk_page (write_page disk id p).0 y)) e in
                  elim (whole id (disk_page disk id) p) [
                    | inl before ↦
                        old (same ∙ k ∙ before ∙ ap (λ y. get_page_lsn (disk_page disk y)) (sym e))
                    | inr written ↦ new (same ∙ k ∙ written)
                  ]
            ]
          ];
    }

abbrev pub Ruled : List LogRecord → BufferManager → Type 0
Ruled rs b = WalRule b.log_manager b.disk_manager rs × KeepsLsn b.disk_manager

pub write_frame-Ruled :
    (rs : List LogRecord) (b : BufferManager) (id f : ℕ)
    → Ruled rs b
    → Ruled rs (write_frame b id f).0
unfolding write_frame enforce_wal
write_frame-Ruled rs b id f w = (
  written-WalRule b.log_manager b.disk_manager id (b.pages f) rs w.0 w.1,
  written-KeepsLsn b.disk_manager id (b.pages f) w.1,
)

pub written-Ruled :
    (rs : List LogRecord) (b : BufferManager) (id f : ℕ)
    → Ruled rs b
    → Ruled rs (clean_frame (write_frame b id f).0 f)
unfolding clean_frame
written-Ruled rs b id f w = write_frame-Ruled rs b id f w

victim_none :
    (b : BufferManager) → (evict b.replacer).0 ≡ none → victim_outcome b ≡ (evicted b, none)
victim_none b n = rw (victim_outcome, n) refl

victim_clean :
    (b : BufferManager) (f : ℕ)
    → (evict b.replacer).0 ≡ some f
    → b.dirty f ≡ false
    → victim_outcome b ≡ (unmap (evicted b) f, some f)
victim_clean b f x c = rw (victim_outcome, x, c) refl

victim_written :
    (b : BufferManager) (f : ℕ)
    → (evict b.replacer).0 ≡ some f
    → b.dirty f ≡ true
    → (write_frame (evicted b) (b.page_ids f) f).1 ≡ true
    → victim_outcome b
      ≡ (unmap (clean_frame (write_frame (evicted b) (b.page_ids f) f).0 f) f, some f)
victim_written b f x d ok = rw (victim_outcome, x, d, ok) refl

victim_failed :
    (b : BufferManager) (f : ℕ)
    → (evict b.replacer).0 ≡ some f
    → b.dirty f ≡ true
    → (write_frame (evicted b) (b.page_ids f) f).1 ≡ false
    → victim_outcome b ≡ ((write_frame (evicted b) (b.page_ids f) f).0, none)
victim_failed b f x d failed = rw (victim_outcome, x, d, failed) refl

unmap-Ruled : (rs : List LogRecord) (b : BufferManager) (f : ℕ) → Ruled rs b → Ruled rs (unmap b f)
unfolding unmap
unmap-Ruled rs b f w = w

module _ (rs : List LogRecord) (b : BufferManager) (w : Ruled rs b) where
  victim_outcome-Ruled : Ruled rs (victim_outcome b).0
  victim_outcome-Ruled = elim (Option-cases (evict b.replacer).0) [
    | inl n ↦ subst (λ o. Ruled rs o.0) (sym (victim_none b n)) w
    | inr (f, x) ↦ elim (Bool-cases (b.dirty f)) [
      | inr c ↦
          subst (λ o. Ruled rs o.0) (sym (victim_clean b f x c)) (unmap-Ruled rs (evicted b) f w)
      | inl d ↦ elim (Bool-cases (write_frame (evicted b) (b.page_ids f) f).1) [
        | inl ok ↦
            subst (λ o. Ruled rs o.0) (sym (victim_written b f x d ok))
              (unmap-Ruled rs (clean_frame (write_frame (evicted b) (b.page_ids f) f).0 f) f
                (written-Ruled rs (evicted b) (b.page_ids f) f w))
        | inr failed ↦
            subst (λ o. Ruled rs o.0) (sym (victim_failed b f x d failed))
              (write_frame-Ruled rs (evicted b) (b.page_ids f) f w)
      ]
    ]
  ]

  pub take_frame-Ruled : Ruled rs (take_frame b).0
  take_frame-Ruled = elim (free_cases b.free_list) [
    | inr (f, rest, e) ↦ subst (λ o. Ruled rs o.0) (sym (take_frame-cons b f rest e)) w
    | inl e ↦ subst (λ o. Ruled rs o.0) (sym (take_frame-empty b e)) victim_outcome-Ruled
  ]

pub install-Ruled :
    (rs : List LogRecord) (b : BufferManager) (f id : ℕ) (page : Page)
    → Ruled rs b
    → Ruled rs (install b f id page)
unfolding install
install-Ruled rs b f id page w = w

pub allocated-Ruled :
    (rs : List LogRecord) (b : BufferManager) → Ruled rs b → Ruled rs (allocated b)
unfolding allocate_page byte_at
allocated-Ruled rs b (w, whole) = (
  record {
    log = w.log;
    durable = w.durable;
    pending = w.pending;
    present = w.present;
    logs = w.logs;
    all = w.all;
    ahead = w.ahead;
  },
  whole,
)

flush_frame-Ruled :
    (rs : List LogRecord) (b : BufferManager) (i : ℕ) → Ruled rs b → Ruled rs (flush_frame b i)
flush_frame-Ruled rs b i w =
    elim (Bool-cases (not (b.page_ids i == invalid_page_id) && b.dirty i)) [
      | inr e ↦ subst (Ruled rs) (sym (flush_skip b i e)) w
      | inl e ↦ subst (Ruled rs) (sym (flush_write b i e)) (written-Ruled rs b (b.page_ids i) i w)
    ]

pub flush_from-Ruled :
    (rs : List LogRecord) (b : BufferManager) (i n : ℕ) → Ruled rs b → Ruled rs (flush_from b i n)
unfolding flush_from
flush_from-Ruled rs b i zero w = w
flush_from-Ruled rs b i (suc n) w =
    flush_from-Ruled rs (flush_frame b i) (i + 1) n (flush_frame-Ruled rs b i w)
