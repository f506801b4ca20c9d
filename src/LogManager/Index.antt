-- ===== src/LogManager/Index.antt =====
-- lsn_index: the offsets of consecutively numbered records.
use persist_x.Base.{
  update_at, update_elsewhere, ℕ, ◌+◌, ◌≡◌, ◌≤◌, ap, ◌∙◌, arith, List, [], ◌∷◌, ◌++◌, Option, some,
  length, update,
}
use persist_x.LogRecord.{LogRecord, total_size}
use persist_x.LogManager.Frames.{frames, length-frames}

-- The records carry the numbers from `i` on, and the index has the offset of each.
abbrev pub Indexed : (ℕ → Option ℕ) → ℕ → ℕ → List LogRecord → Type 0
Indexed index i off [] = Unit
Indexed index i off (r ∷ rs) =
    (r.lsn ≡ i) × (index i ≡ some off) × Indexed index (i + 1) (off + total_size r) rs

-- The records carry the numbers from `i` on.
abbrev pub Numbered : ℕ → List LogRecord → Type 0
Numbered i [] = Unit
Numbered i (r ∷ rs) = (r.lsn ≡ i) × Numbered (i + 1) rs

-- Another entry, behind the last record, changes nothing.
pub Indexed-update :
    (index : ℕ → Option ℕ) (i off : ℕ) (rs : List LogRecord) (j : ℕ) (o : Option ℕ)
    → i + length rs ≤ j
    → Indexed index i off rs
    → Indexed (update index j o) i off rs
Indexed-update index i off [] j o h x = x
Indexed-update index i off (r ∷ rs) j o h (a, b, x) = (
  a,
  update_elsewhere index j o i (omega arith) ∙ b,
  Indexed-update index (i + 1) (off + total_size r) rs j o (omega arith) x,
)

pub Indexed-snoc :
    (index : ℕ → Option ℕ) (i off : ℕ) (rs : List LogRecord) (r : LogRecord) (j o : ℕ)
    → r.lsn ≡ j
    → j ≡ i + length rs
    → o ≡ off + length (frames rs)
    → Indexed index i off rs
    → Indexed (update index j (some o)) i off (rs ++ (r ∷ []))
Indexed-snoc index i off [] r j o h hj ho x =
    (omega arith, update_at index j (some o) i (omega arith) ∙ ap some (omega arith), x)
Indexed-snoc index i off (s ∷ rs) r j o h hj ho (a, b, x) = (
  a,
  update_elsewhere index j (some o) i (omega arith) ∙ b,
  Indexed-snoc index (i + 1) (off + total_size s) rs r j o h (omega arith)
      (omega (arith, length-frames s rs)) x,
)

pub Indexed-lookup :
    (index : ℕ → Option ℕ) (i off : ℕ) (before : List LogRecord) (r : LogRecord)
    (after : List LogRecord)
    → Indexed index i off (before ++ (r ∷ after))
    → index (i + length before) ≡ some (off + length (frames before))
Indexed-lookup index i off [] r after (a, b, x) = ap index (omega arith) ∙ b ∙ ap some (omega arith)
Indexed-lookup index i off (s ∷ rs) r after (a, b, x) =
    let ih = Indexed-lookup index (i + 1) (off + total_size s) rs r after x in
    ap index (omega arith) ∙ ih ∙ ap some (omega (arith, length-frames s rs))
