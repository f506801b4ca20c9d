-- ===== src/LogManager/Contents.antt =====
-- What the log manager holds: the records on stable storage and those that wait in its buffer;
-- append, flush and flush_all.
use persist_x.Base.{
  ℕ, ◌+◌, ◌^◌, ◌≡◌, ◌≢◌, ◌≤◌, ◌<◌, inl, inr, refl, sym, ap, ◌∙◌, arith, List, [], ◌∷◌, ◌++◌, length,
  All, length-append, append_assoc, append-nil, ltb, leb, Bool-cases, ltb→lt, not, ◌&&◌, true, ◌==◌,
}
use persist_x.Types.{invalid_lsn}
use persist_x.LogRecord.{LogRecord, serialize, set_lsn}
use persist_x.LogRecord.RoundTrip.{Fits}
use persist_x.LogManager.{open_log, LogManager, append, flush, flush_all, is_empty}
use persist_x.LogManager.Frames.{frames, total_size-le, length-frames, frames-append, All-append}
use persist_x.LogManager.Index.{Indexed, Indexed-snoc}

-- The manager holds `durable` in its file and `pending` in its buffer.
pub record Logs (m : LogManager) (durable pending : List LogRecord) : Type 0 where
  pub file : m.file ≡ frames durable
  pub buffer : m.buffer ≡ frames pending
  pub next_lsn : m.next_lsn ≡ length durable + length pending
  pub write_offset : m.write_offset ≡ length m.file
  pub flushed_lsn : m.flushed_lsn ≢ invalid_lsn → m.flushed_lsn < length durable
  pub lsn_index : Indexed m.lsn_index 0 0 (durable ++ pending)
  pub durable_fits : All Fits durable
  pub pending_fits : All Fits pending

-- ─── append ───

-- Appending stamps the record with the next number, puts it behind the records in the buffer and
-- leaves the file as it is. The record has to fit the format, and numbers have to be left.
pub append-Logs :
    (m : LogManager) (durable pending : List LogRecord) (r : LogRecord)
    → Logs m durable pending
    → Fits (set_lsn r m.next_lsn)
    → m.next_lsn + 1 < 2 ^ 64
    → Logs (append m r).0 durable (pending ++ (set_lsn r m.next_lsn ∷ []))
      × ((append m r).1 ≡ length durable + length pending)
append-Logs m durable pending r l f h =
    unfold append in
    let s = set_lsn r m.next_lsn in
    let fb = ap length l.buffer in
    let ff = ap length l.file in
    let fa = ap length (frames-append durable pending) in
    let la = length-append (frames durable) (frames pending) in
    let ls = length-append durable pending in
    (
      record {
        file = l.file;
        buffer = rw (l.buffer, frames-append pending (s ∷ []), append-nil (serialize s)) refl;
        next_lsn = omega (arith, l.next_lsn, length-append pending (s ∷ []), h);
        write_offset = l.write_offset;
        flushed_lsn = l.flushed_lsn;
        lsn_index = rw (← append_assoc durable pending (s ∷ [])) (
            Indexed-snoc m.lsn_index 0 0 (durable ++ pending) s m.next_lsn
              (m.write_offset + length m.buffer) refl (omega (arith, l.next_lsn, ls))
              (omega (arith, l.write_offset, fb, ff, fa, la)) l.lsn_index);
        durable_fits = l.durable_fits;
        pending_fits = All-append pending (s ∷ []) l.pending_fits (f, tt);
      },
      l.next_lsn,
    )

-- ─── flush ───

is_empty-length : (xs : List ℕ) → is_empty xs ≡ true → length xs ≡ 0
is_empty-length [] h = refl
is_empty-length (x ∷ xs) h = absurd (ground (arith, h))

frames-nil : (rs : List LogRecord) → is_empty (frames rs) ≡ true → rs ≡ []
frames-nil [] h = refl
frames-nil (r ∷ rs) h =
    absurd (omega (arith, is_empty-length (frames (r ∷ rs)) h, length-frames r rs, total_size-le r))

-- Writing the buffer out makes every record durable.
pub flush_all-Logs :
    (m : LogManager) (durable pending : List LogRecord)
    → Logs m durable pending
    → Logs (flush_all m) (durable ++ pending) []
unfolding flush_all
flush_all-Logs m durable pending l = elim (Bool-cases (is_empty m.buffer)) [
  | inl e ↦
      let p = frames-nil pending (ap is_empty (sym l.buffer) ∙ e) in
      rw (e, p, append-nil durable) (rw p at l)
  | inr e ↦
      let la = length-append durable pending in
      rw e (record {
        file = rw (l.file, l.buffer, frames-append durable pending) refl;
        buffer = refl;
        next_lsn = omega (arith, la, l.next_lsn);
        write_offset = omega (arith, l.write_offset, length-append m.file m.buffer);
        flushed_lsn = elim (Bool-cases (ltb 0 m.next_lsn)) [
          | inl p ↦ λ ne. rw p (omega (arith, la, l.next_lsn, ltb→lt 0 m.next_lsn p))
          | inr p ↦ rw p (λ ne. omega (arith, la, l.flushed_lsn ne))
        ];
        lsn_index = rw (append-nil (durable ++ pending)) l.lsn_index;
        durable_fits = All-append durable pending l.durable_fits l.pending_fits;
        pending_fits = tt;
      })
]

-- A flush keeps the records in their order and takes nothing off the file; a number that has been
-- given out is durable afterwards.
pub flush-Logs :
    (m : LogManager) (durable pending : List LogRecord) (lsn : ℕ)
    → Logs m durable pending
    → (durable' : List LogRecord) × (pending' : List LogRecord) × Logs
        (flush m lsn)
        durable'
        pending'
      × (durable' ++ pending' ≡ durable ++ pending)
      × (length durable ≤ length durable')
      × (lsn < m.next_lsn → lsn < length durable')
unfolding flush
flush-Logs m durable pending lsn l =
    elim (Bool-cases (not (m.flushed_lsn == invalid_lsn) && leb lsn m.flushed_lsn)) [
      | inl e ↦ rw e (
        durable,
        pending,
        l,
        refl,
        omega arith,
        λ h.
            let p : (m.flushed_lsn ≢ invalid_lsn) × (lsn ≤ m.flushed_lsn) = ground (arith, e) in
            omega (arith, l.flushed_lsn p.0, p.1),
      )
      | inr e ↦ rw e (
        durable ++ pending,
        [],
        flush_all-Logs m durable pending l,
        append-nil (durable ++ pending),
        omega (arith, length-append durable pending),
        λ h. omega (arith, h, length-append durable pending, l.next_lsn),
      )
    ]

-- Asking for a number that has been given out makes its record durable: nothing is lost or
-- reordered, and the records up to that number are in the file.
pub flush-durable :
    (m : LogManager) (durable pending : List LogRecord) (lsn : ℕ)
    → Logs m durable pending
    → lsn < m.next_lsn
    → (durable' : List LogRecord) × (pending' : List LogRecord) × Logs
        (flush m lsn)
        durable'
        pending'
      × (durable' ++ pending' ≡ durable ++ pending)
      × (lsn < length durable')
flush-durable m durable pending lsn l h =
    let (d, p, m', same, grown, due) = flush-Logs m durable pending lsn l in (d, p, m', same, due h)

-- A manager opened on an empty file holds nothing.
pub open_log-Logs : Logs (open_log []) [] []
unfolding open_log
open_log-Logs = record {
  file = refl;
  buffer = refl;
  next_lsn = refl;
  write_offset = refl;
  flushed_lsn = λ ne. absurd (ne refl);
  lsn_index = tt;
  durable_fits = tt;
  pending_fits = tt;
}
