-- ===== src/LogManager/Frames.antt =====
-- The log file as a sequence of serialized records: what read_log finds in it.
use persist_x.Base.{
  ℕ, zero, suc, ◌+◌, ◌-◌, ◌≡◌, ◌≤◌, refl, sym, ap, ◌∙◌, arith, List, [], ◌∷◌, ◌++◌, none, some,
  length, All, length-append, take-append_length, drop-append_length, append_assoc, le→ltb,
}
use persist_x.Bytes.{le_bytes, length-le_bytes, from_le-le_bytes}
use persist_x.LogRecord.{LogRecord, total_size, serialize}
use persist_x.LogRecord.RoundTrip.{Fits, stored, length-serialize, deserialize-serialize}
use persist_x.LogManager.{read_frame, scan}

abbrev pub frames : List LogRecord → List ℕ
frames [] = []
frames (r ∷ rs) = serialize r ++ frames rs

-- What the scan finds: each record as the format keeps it, with its offset.
abbrev pub entries : ℕ → List LogRecord → List (LogRecord × ℕ)
entries off [] = []
entries off (r ∷ rs) = (stored r, off) ∷ entries (off + total_size r) rs

-- Bytes too few for the size of a record, or for the record that their size, 4 or more, counts.
abbrev pub Torn : List ℕ → Type 0
Torn bs = read_frame bs ≡ some none

pub total_size-le : (r : LogRecord) → 29 ≤ total_size r
unfolding total_size
total_size-le r = omega arith

-- A serialized record is its size prefix and the bytes that the prefix counts.
serialize-prefix :
    (r : LogRecord)
    → (body : List ℕ) × (serialize r ≡ le_bytes 4 (total_size r) ++ body)
      × (length body + 4 ≡ total_size r)
serialize-prefix r =
    let p : (body : List ℕ) × (serialize r ≡ le_bytes 4 (total_size r) ++ body) =
      unfold serialize in (_, refl) in
    let n = length-serialize r in
    let l = rw p.1 at n in
    (
      p.0,
      p.1,
      omega (
        arith,
        l,
        length-append (le_bytes 4 (total_size r)) p.0,
        length-le_bytes 4 (total_size r),
      ),
    )

-- The frame of a record is read off the front of any bytes that it begins.
pub read_frame-serialize :
    (r : LogRecord) (rest : List ℕ)
    → Fits r
    → read_frame (serialize r ++ rest) ≡ some (some (serialize r, rest))
unfolding read_frame
read_frame-serialize r rest f =
    let p = serialize-prefix r in
    let ts = le_bytes 4 (total_size r) in
    let n = length-le_bytes 4 (total_size r) in
    let e : total_size r - 4 ≡ length p.0 = omega (arith, p.2) in
    let l1 = length-append ts (p.0 ++ rest) in
    let l2 = length-append p.0 rest in
    rw
      (
        p.1,
        append_assoc ts p.0 rest,
        le→ltb (length (ts ++ (p.0 ++ rest))) 4 (omega (arith, l1, n)),
        take-append_length 4 ts (p.0 ++ rest) n,
        drop-append_length 4 ts (p.0 ++ rest) n,
        from_le-le_bytes 4 (total_size r) f.size,
        le→ltb (total_size r) 4 (omega (arith, total_size-le r)),
        e,
        le→ltb (length (p.0 ++ rest)) (length p.0) (omega (arith, l2)),
        take-append_length (length p.0) p.0 rest refl,
        drop-append_length (length p.0) p.0 rest refl,
      )
      refl

pub length-frames :
    (r : LogRecord) (rs : List LogRecord)
    → length (frames (r ∷ rs)) ≡ total_size r + length (frames rs)
length-frames r rs =
    length-append (serialize r) (frames rs) ∙ ap (λ n. n + length (frames rs)) (length-serialize r)

-- Reading whole records with a torn one behind them (bytes too few for a size, or for the record that
-- a size of 4 or more counts) finds exactly the whole ones, each at its offset, given a round for
-- every byte.
pub scan-frames :
    (fuel off : ℕ) (rs : List LogRecord) (tail : List ℕ)
    → All Fits rs
    → Torn tail
    → length (frames rs) ≤ fuel
    → scan fuel off (frames rs ++ tail) ≡ some (entries off rs)
unfolding scan
scan-frames zero off [] tail fs t h = unfold scan in refl
scan-frames (suc fuel) off [] tail fs t h = rw (t, scan) refl
scan-frames zero off (r ∷ rs) tail fs t h =
    absurd (omega (arith, length-frames r rs, total_size-le r))
scan-frames (suc fuel) off (r ∷ rs) tail (f, fs) t h =
    let ih =
      scan-frames fuel (off + total_size r) rs tail fs t
        (omega (arith, length-frames r rs, total_size-le r)) in
    rw
      (
        append_assoc (serialize r) (frames rs) tail,
        read_frame-serialize r (frames rs ++ tail) f,
        deserialize-serialize r f,
        length-serialize r,
        ih,
        scan,
      )
      refl

pub frames-append : (xs ys : List LogRecord) → frames (xs ++ ys) ≡ frames xs ++ frames ys
frames-append [] ys = refl
frames-append (x ∷ xs) ys =
    ap (◌++◌ (serialize x)) (frames-append xs ys)
    ∙ sym (append_assoc (serialize x) (frames xs) (frames ys))

pub All-append : (xs ys : List LogRecord) → All Fits xs → All Fits ys → All Fits (xs ++ ys)
All-append [] ys f g = g
All-append (x ∷ xs) ys (h, f) g = (h, All-append xs ys f g)
