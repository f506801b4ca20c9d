-- ===== src/LogManager/Lookup.antt =====
-- read_record_at_lsn.
use persist_x.Base.{
  ◌≡◌, refl, ap, ◌∙◌, arith, List, [], ◌∷◌, ◌++◌, some, length, drop, All, drop-append_length,
  append-nil,
}
use mathlib.Core.Path.{subst}
use persist_x.LogRecord.{LogRecord}
use persist_x.LogRecord.RoundTrip.{Fits, stored, deserialize-serialize}
use persist_x.LogManager.{LogManager, flush_all, read_at, read_record_at_lsn}
use persist_x.LogManager.Frames.{frames, read_frame-serialize, frames-append}
use persist_x.LogManager.Index.{Indexed, Indexed-lookup}
use persist_x.LogManager.Contents.{Logs, flush_all-Logs}

All-middle :
    (before : List LogRecord) (r : LogRecord) (after : List LogRecord)
    → All Fits (before ++ (r ∷ after))
    → Fits r
All-middle [] r after (f, fs) = f
All-middle (s ∷ before) r after (f, fs) = All-middle before r after fs

read_at-frames :
    (before : List LogRecord) (r : LogRecord) (after : List LogRecord)
    → Fits r
    → read_at (drop (length (frames before)) (frames (before ++ (r ∷ after)))) ≡ some (stored r)
read_at-frames before r after f =
    rw
      (
        frames-append before (r ∷ after),
        drop-append_length (length (frames before)) (frames before) (frames (r ∷ after)) refl,
        read_at,
        read_frame-serialize r (frames after) f,
        deserialize-serialize r f,
      )
      refl

-- Reading back the record with a given number finds it wherever it is, in the file or still in
-- the buffer, and leaves every record durable.
pub read_record_at_lsn-lookup :
    (m : LogManager) (durable pending before : List LogRecord) (r : LogRecord)
    (after : List LogRecord)
    → Logs m durable pending
    → durable ++ pending ≡ before ++ (r ∷ after)
    → (read_record_at_lsn m (length before) ≡ some (stored r, flush_all m))
      × Logs (flush_all m) (durable ++ pending) []
unfolding read_record_at_lsn
read_record_at_lsn-lookup m durable pending before r after l e =
    let l' = flush_all-Logs m durable pending l in
    let x : Indexed (flush_all m).lsn_index 0 0 (before ++ (r ∷ after)) =
      rw (← e, ← append-nil (durable ++ pending)) l'.lsn_index in
    let i : (flush_all m).lsn_index (length before) ≡ some (length (frames before)) =
      ap (flush_all m).lsn_index (omega arith)
      ∙ Indexed-lookup (flush_all m).lsn_index 0 0 before r after x
      ∙ ap some (omega arith) in
    let file = l'.file ∙ ap frames e in
    let f = All-middle before r after (subst (All Fits) e l'.durable_fits) in
    let read =
      ap (λ x. read_at (drop (length (frames before)) x)) file ∙ read_at-frames before r after f in
    (rw (read_record_at_lsn, i, read) refl, l')
