-- ===== src/LogManager/Reopen.antt =====
-- read_log on a file that an earlier run of the manager left.
use persist_x.Base.{
  update_at, update_elsewhere, ℕ, ◌+◌, ◌%◌, ◌^◌, ◌≡◌, ◌<◌, refl, sym, ap, ◌∙◌, arith, List, [], ◌∷◌,
  ◌++◌, Option, some, length, All, length-append, append-nil, if◌then◌else◌, leb, update, le→leb,
}
use mathlib.Core.List.{map}
use mathlib.Core.Path.{subst}
use persist_x.LogRecord.{LogRecord, total_size}
use persist_x.LogRecord.RoundTrip.{Fits, stored}
use persist_x.LogManager.{LogManager, open_log, note, read_log, records, scan, read_frame}
use persist_x.LogManager.Frames.{frames, entries, entries, Torn, scan-frames}
use persist_x.LogManager.Index.{Indexed, Numbered}
use persist_x.LogManager.Contents.{Logs}

records-entries : (off : ℕ) (rs : List LogRecord) → records (entries off rs) ≡ map stored rs
records-entries off [] = refl
records-entries off (r ∷ rs) = ap (◌∷◌ (stored r)) (records-entries (off + total_size r) rs)

-- The manager after it has noted a record that carries the next number.
noted : LogManager → ℕ → LogManager
noted m off = record m {
  lsn_index = update m.lsn_index m.next_lsn (some off);
  next_lsn = m.next_lsn + 1;
}

note_next :
    (m : LogManager) (n off : ℕ)
    → n ≡ m.next_lsn
    → m.next_lsn + 1 < 2 ^ 64
    → record m {
      lsn_index = update m.lsn_index n (some off);
      next_lsn = if leb m.next_lsn n then (n + 1) % 2 ^ 64 else m.next_lsn;
    }
      ≡ noted m off
unfolding noted
note_next m n off a h =
    let e : (m.next_lsn + 1) % 2 ^ 64 ≡ m.next_lsn + 1 = omega (arith, h) in
    rw (a, le→leb m.next_lsn m.next_lsn (omega arith), e) refl

-- What noting the records found by a scan leaves: the numbers and the index of those records.
note-entries :
    (m : LogManager) (off : ℕ) (rs : List LogRecord)
    → Numbered m.next_lsn rs
    → m.next_lsn + length rs < 2 ^ 64
    → Indexed (note m (entries off rs)).lsn_index m.next_lsn off rs
      × ((note m (entries off rs)).next_lsn ≡ m.next_lsn + length rs)
      × ((j : ℕ) → j < m.next_lsn → (note m (entries off rs)).lsn_index j ≡ m.lsn_index j)
unfolding note noted
note-entries m off [] n h = (tt, omega arith, λ j p. refl)
note-entries m off (r ∷ rs) (a, n) h =
    let rest = entries (off + total_size r) rs in
    let ih = note-entries (noted m off) (off + total_size r) rs n (omega arith) in
    let step = ap (λ x. note x rest) (note_next m r.lsn off a (omega arith)) in
    subst
      (λ x.
        Indexed x.lsn_index m.next_lsn off (r ∷ rs)
        × (x.next_lsn ≡ m.next_lsn + length (r ∷ rs))
        × ((j : ℕ) → j < m.next_lsn → x.lsn_index j ≡ m.lsn_index j))
      (sym step)
      (
        (
          a,
          ih.2 m.next_lsn (omega arith)
              ∙ update_at m.lsn_index m.next_lsn (some off) m.next_lsn refl,
          ih.0,
        ),
        omega (arith, ih.1),
        λ j p.
            ih.2 j (omega arith)
            ∙ update_elsewhere m.lsn_index m.next_lsn (some off) j (omega arith),
      )

note_other :
    (m : LogManager) (es : List (LogRecord × ℕ))
    → ((note m es).file ≡ m.file)
      × ((note m es).buffer ≡ m.buffer)
      × ((note m es).write_offset ≡ m.write_offset)
      × ((note m es).flushed_lsn ≡ m.flushed_lsn)
unfolding note
note_other m [] = (refl, refl, refl, refl)
note_other m ((r, off) ∷ es) =
    note_other
      (record m {
        lsn_index = update m.lsn_index r.lsn (some off);
        next_lsn = if leb m.next_lsn r.lsn then (r.lsn + 1) % 2 ^ 64 else m.next_lsn;
      })
      es

Indexed-Numbered :
    (index : ℕ → Option ℕ) (i off : ℕ) (xs ys : List LogRecord)
    → Indexed index i off (xs ++ ys)
    → Numbered i xs
Indexed-Numbered index i off [] ys x = tt
Indexed-Numbered index i off (r ∷ xs) ys (a, b, x) =
    (a, Indexed-Numbered index (i + 1) (off + total_size r) xs ys x)

pub read_log-frames :
    (file : List ℕ) (rs : List LogRecord) (tail : List ℕ)
    → file ≡ frames rs ++ tail
    → All Fits rs
    → Torn tail
    → read_log (open_log file) ≡ some (map stored rs, note (open_log file) (entries 0 rs))
unfolding read_log open_log
read_log-frames file rs tail e fs t =
    let found =
      scan-frames (length file) 0 rs tail fs t
        (omega (arith, ap length e, length-append (frames rs) tail)) in
    let s : scan (length file) 0 file ≡ some (entries 0 rs) = ap (scan (length file) 0) e ∙ found in
    rw (read_log, s, records-entries 0 rs) refl

-- A crash loses the buffer and may leave a torn record behind the file's last one: bytes too few
-- for a size, or for the record that a size of 4 or more counts. A manager
-- opened on that file reads back the durable records, each as the format keeps it, gives out the
-- number after the last one next, and has the offset of each in its index. The numbers of the
-- records have to be below 2^64.
pub read_log_after_crash :
    (m : LogManager) (durable pending : List LogRecord) (tail : List ℕ)
    → Logs m durable pending
    → Torn tail
    → length durable < 2 ^ 64
    → (m' : LogManager) × (read_log (open_log (m.file ++ tail)) ≡ some (map stored durable, m'))
      × (m'.next_lsn ≡ length durable)
      × Indexed m'.lsn_index 0 0 durable
unfolding open_log
read_log_after_crash m durable pending tail l t h =
    let file = m.file ++ tail in
    let k = Indexed-Numbered m.lsn_index 0 0 durable pending l.lsn_index in
    let n = note-entries (open_log file) 0 durable k (omega arith) in
    (
      note (open_log file) (entries 0 durable),
      read_log-frames file durable tail (ap (λ x. x ++ tail) l.file) l.durable_fits t,
      omega (arith, n.1),
      n.0,
    )

-- A manager that is closed with an empty buffer and opened again on its file holds the same
-- records. Their numbers have to be below 2^64.
pub reopen-Logs :
    (m : LogManager) (durable : List LogRecord)
    → Logs m durable []
    → length durable < 2 ^ 64
    → (m' : LogManager) × (read_log (open_log m.file) ≡ some (map stored durable, m'))
      × Logs m' durable []
unfolding open_log
reopen-Logs m durable l h =
    let torn : Torn [] = unfold read_frame in refl in
    let k = Indexed-Numbered m.lsn_index 0 0 durable [] l.lsn_index in
    let n = note-entries (open_log m.file) 0 durable k (omega arith) in
    let o = note_other (open_log m.file) (entries 0 durable) in
    (
      note (open_log m.file) (entries 0 durable),
      read_log-frames m.file durable [] (l.file ∙ sym (append-nil (frames durable))) l.durable_fits
          torn,
      record {
        file = o.0 ∙ l.file;
        buffer = o.1;
        next_lsn = omega (arith, n.1);
        write_offset = o.2 ∙ ap length (sym o.0);
        flushed_lsn = λ ne. absurd (ne o.3);
        lsn_index = rw (append-nil durable) n.0;
        durable_fits = l.durable_fits;
        pending_fits = tt;
      },
    )
