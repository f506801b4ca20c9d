-- ===== src/LogManager/Torn.antt =====
-- Appending to a log file that ends in a torn record.
use persist_x.Base.{
  ℕ, ◌+◌, ◌-◌, ◌^◌, ◌≡◌, ◌<◌, refl, ap, ◌∙◌, arith, false, List, [], ◌++◌, some, length, All,
  length-append, take-append_length, drop-append_length, append_assoc, lt→ltb, le→ltb,
}
use mathlib.Core.List.{map}
use persist_x.Bytes.{le_bytes, length-le_bytes, from_le-le_bytes}
use persist_x.LogRecord.{LogRecord, total_size, serialize, set_lsn}
use persist_x.LogRecord.RoundTrip.{Fits, stored, length-serialize}
use persist_x.LogManager.{
  LogManager, open_log, append, flush_all, is_empty, read_frame, read_log, note,
}
use persist_x.LogManager.Frames.{frames, entries, Torn}
use persist_x.LogManager.Reopen.{read_log-frames}

-- A size and fewer bytes than it counts are a torn record.
Torn-le_bytes : (n : ℕ) (xs : List ℕ) → n < 2 ^ 32 → length xs + 4 < n → Torn (le_bytes 4 n ++ xs)
unfolding read_frame
Torn-le_bytes n xs h short =
    let k = length-le_bytes 4 n in
    rw
      (
        le→ltb (length (le_bytes 4 n ++ xs)) 4 (omega (arith, length-append (le_bytes 4 n) xs, k)),
        take-append_length 4 (le_bytes 4 n) xs k,
        drop-append_length 4 (le_bytes 4 n) xs k,
        from_le-le_bytes 4 n (omega arith),
        le→ltb n 4 (omega (arith, short)),
        lt→ltb (length xs) (n - 4) (omega arith),
      )
      refl

serialize-nonempty : (r : LogRecord) → is_empty (serialize r) ≡ false
unfolding serialize le_bytes
serialize-nonempty r = refl

-- An append followed by a flush puts the record at the end of the file.
flush_all-append :
    (m : LogManager) (r : LogRecord)
    → m.buffer ≡ []
    → (flush_all (append m r).0).file ≡ m.file ++ serialize (set_lsn r m.next_lsn)
unfolding flush_all append
flush_all-append m r e = rw (e, serialize-nonempty (set_lsn r m.next_lsn)) refl

-- A record appended behind a torn one, whose size counts past it, is in the file but is not found
-- again: reading the log gives the records before the torn one, as if nothing had been appended.
pub append-behind_torn :
    (m : LogManager) (before : List LogRecord) (n : ℕ) (body : List ℕ) (r : LogRecord)
    → m.file ≡ frames before ++ (le_bytes 4 n ++ body)
    → m.buffer ≡ []
    → All Fits before
    → n < 2 ^ 32
    → length body + total_size (set_lsn r m.next_lsn) + 4 < n
    → (m' : LogManager) × ((flush_all (append m r).0).file
        ≡ m.file ++ serialize (set_lsn r m.next_lsn))
      × (read_log (open_log (flush_all (append m r).0).file) ≡ some (map stored before, m'))
append-behind_torn m before n body r e empty fs h short =
    let s = serialize (set_lsn r m.next_lsn) in
    let f = flush_all-append m r empty in
    let file =
      f
      ∙ ap (λ x. x ++ s) e
      ∙ append_assoc (frames before) (le_bytes 4 n ++ body) s
      ∙ ap (◌++◌ (frames before)) (append_assoc (le_bytes 4 n) body s) in
    let torn =
      Torn-le_bytes n (body ++ s) h
        (omega (arith, length-append body s, length-serialize (set_lsn r m.next_lsn), short)) in
    (
      note (open_log (flush_all (append m r).0).file) (entries 0 before),
      f,
      read_log-frames (flush_all (append m r).0).file before (le_bytes 4 n ++ (body ++ s)) file fs
          torn,
    )
