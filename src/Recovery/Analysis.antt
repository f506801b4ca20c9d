-- ===== src/Recovery/Analysis.antt =====
-- What the analysis pass leaves in the two tables.
use persist_x.Base.{
  ℕ, ◌^◌, ◌≡◌, ◌<◌, inl, inr, refl, ap, ◌∙◌, Bool, true, false, List, [], ◌∷◌, ◌++◌, Option, none,
  some, ◌==◌, ◌&&◌, if◌then◌else◌, update, Bool-cases, Option-cases, ==→eq, length, All,
}
use persist_x.Types.{
  LogRecordType, invalid, begin, commit, abort, txn_end, clr, checkpoint_begin, checkpoint_end,
  other,
}
use persist_x.LogRecord.{LogRecord}
use persist_x.Checkpoint.{serialize_att, serialize_dpt}
use persist_x.Checkpoint.RoundTrip.{Fit, deserialize_att-serialize_att}
use persist_x.Recovery.{
  deserialize_att, deserialize_dpt, Tables, seed, is_checkpoint_end, last_checkpoint,
  add_if_missing, analyze_type, scan_forward, seed_tables, analyze,
}

-- ─── what the log says ───

-- What a record says about its transaction: nothing, that it is over, or that it goes on.
abbrev pub status : LogRecord → LogRecordType → Option (Option ℕ)
status r begin = some (some r.lsn)
status r LogRecordType.update = some (some r.lsn)
status r commit = some none
status r abort = some (some r.lsn)
status r txn_end = some none
status r clr = some (some r.lsn)
status r _ = none

abbrev pub changes_page : LogRecordType → Bool
changes_page LogRecordType.update = true
changes_page clr = true
changes_page _ = false

-- What the last record that says something about a transaction says.
unfoldable pub last_status : ℕ → List LogRecord → Option (Option ℕ)
last_status tid [] = none
last_status tid (r ∷ rs) = elim (last_status tid rs) [
  | some s ↦ some s
  | none ↦ if tid == r.txn_id then status r r.type else none
]

-- The LSN of the first record that changes a page.
unfoldable pub first_change : ℕ → List LogRecord → Option ℕ
first_change pid [] = none
first_change pid (r ∷ rs) =
    let rest = first_change pid rs in
    if (pid == r.page_id) && changes_page r.type then some r.lsn else rest

abbrev pub or_else {ℓ} : {A : Type ℓ} → Option A → A → A
or_else none d = d
or_else (some a) d = a

abbrev pub first_of : Option ℕ → Option ℕ → Option ℕ
first_of none b = b
first_of (some a) b = some a

-- ─── the scan ───

if_same {ℓ} : {A : Type ℓ} (b : Bool) (a : A) → a ≡ (if b then a else a)
if_same true a = refl
if_same false a = refl

analyze_type-att :
    (t : Tables) (r : LogRecord) (ty : LogRecordType) (tid : ℕ)
    → (analyze_type t r ty).att tid
      ≡ (if tid == r.txn_id then or_else (status r ty) (t.att tid) else t.att tid)
unfolding analyze_type
analyze_type-att t r begin tid = refl
analyze_type-att t r LogRecordType.update tid = refl
analyze_type-att t r commit tid = refl
analyze_type-att t r abort tid = refl
analyze_type-att t r txn_end tid = refl
analyze_type-att t r clr tid = refl
analyze_type-att t r invalid tid = if_same (tid == r.txn_id) (t.att tid)
analyze_type-att t r checkpoint_begin tid = if_same (tid == r.txn_id) (t.att tid)
analyze_type-att t r checkpoint_end tid = if_same (tid == r.txn_id) (t.att tid)
analyze_type-att t r (other n) tid = if_same (tid == r.txn_id) (t.att tid)

first_of_nothing :
    (o : Option ℕ) (b : Bool) (l : ℕ) → o ≡ first_of o (if b && false then some l else none)
first_of_nothing none true l = refl
first_of_nothing none false l = refl
first_of_nothing (some a) b l = refl

add_if_missing_lem :
    (table : ℕ → Option ℕ) (key lsn pid : ℕ)
    → add_if_missing table key lsn pid
      ≡ first_of (table pid) (if (pid == key) && true then some lsn else none)
unfolding add_if_missing
add_if_missing_lem table key lsn pid = elim (Option-cases (table key)) [
  | inl e ↦ elim (Bool-cases (pid == key)) [
    | inl b ↦
        let q : table pid ≡ none = ap table (==→eq pid key b) ∙ e in
        rw (add_if_missing, e, b, q) refl
    | inr b ↦ rw (add_if_missing, e, b) (first_of_nothing (table pid) false lsn)
  ]
  | inr (l, e) ↦ elim (Bool-cases (pid == key)) [
    | inl b ↦
        let q : table pid ≡ some l = ap table (==→eq pid key b) ∙ e in
        rw (add_if_missing, e, q) refl
    | inr b ↦ rw (add_if_missing, e, b) (first_of_nothing (table pid) false lsn)
  ]
]

analyze_type-dpt :
    (t : Tables) (r : LogRecord) (ty : LogRecordType) (pid : ℕ)
    → (analyze_type t r ty).dpt pid
      ≡ first_of (t.dpt pid) (if (pid == r.page_id) && changes_page ty then some r.lsn else none)
unfolding analyze_type
analyze_type-dpt t r LogRecordType.update pid = add_if_missing_lem t.dpt r.page_id r.lsn pid
analyze_type-dpt t r clr pid = add_if_missing_lem t.dpt r.page_id r.lsn pid
analyze_type-dpt t r begin pid = first_of_nothing (t.dpt pid) (pid == r.page_id) r.lsn
analyze_type-dpt t r commit pid = first_of_nothing (t.dpt pid) (pid == r.page_id) r.lsn
analyze_type-dpt t r abort pid = first_of_nothing (t.dpt pid) (pid == r.page_id) r.lsn
analyze_type-dpt t r txn_end pid = first_of_nothing (t.dpt pid) (pid == r.page_id) r.lsn
analyze_type-dpt t r invalid pid = first_of_nothing (t.dpt pid) (pid == r.page_id) r.lsn
analyze_type-dpt t r checkpoint_begin pid = first_of_nothing (t.dpt pid) (pid == r.page_id) r.lsn
analyze_type-dpt t r checkpoint_end pid = first_of_nothing (t.dpt pid) (pid == r.page_id) r.lsn
analyze_type-dpt t r (other n) pid = first_of_nothing (t.dpt pid) (pid == r.page_id) r.lsn

or_else_chain :
    (o p : Option (Option ℕ)) (b : Bool) (d : Option ℕ)
    → or_else o (if b then or_else p d else d)
      ≡ or_else (elim o [ some s ↦ some s | none ↦ if b then p else none ]) d
or_else_chain (some s) p b d = refl
or_else_chain none p true d = refl
or_else_chain none p false d = refl

first_of_chain :
    (o : Option ℕ) (b : Bool) (l : ℕ) (rest : Option ℕ)
    → first_of (first_of o (if b then some l else none)) rest
      ≡ first_of o (if b then some l else rest)
first_of_chain (some a) b l rest = refl
first_of_chain none true l rest = refl
first_of_chain none false l rest = refl

-- After the scan a transaction stands as the last record that says something about it says: absent
-- after COMMIT or TXN_END, else with that record's LSN; and a page that was not in the table has
-- the LSN of the first record that changes it. What the records do not touch stays.
pub scan_forward-tables :
    (t : Tables) (rs : List LogRecord)
    → ((tid : ℕ) → (scan_forward t rs).att tid ≡ or_else (last_status tid rs) (t.att tid))
      × ((pid : ℕ) → (scan_forward t rs).dpt pid ≡ first_of (t.dpt pid) (first_change pid rs))
unfolding scan_forward last_status first_change
scan_forward-tables t [] = (λ tid. refl, λ pid. first_of_nothing (t.dpt pid) false 0)
scan_forward-tables t (r ∷ rs) =
    let ih = scan_forward-tables (analyze_type t r r.type) rs in
    (
      λ tid.
          ih.0 tid
          ∙ ap (or_else (last_status tid rs)) (analyze_type-att t r r.type tid)
          ∙ or_else_chain (last_status tid rs) (status r r.type) (tid == r.txn_id) (t.att tid),
      λ pid.
          ih.1 pid
          ∙ ap (λ x. first_of x (first_change pid rs)) (analyze_type-dpt t r r.type pid)
          ∙ first_of_chain (t.dpt pid) ((pid == r.page_id) && changes_page r.type) r.lsn
              (first_change pid rs),
    )

-- ─── the checkpoint ───

last_checkpoint-none :
    (rs : List LogRecord)
    → All (λ r. is_checkpoint_end r.type ≡ false) rs
    → last_checkpoint rs ≡ none
unfolding last_checkpoint
last_checkpoint-none [] a = refl
last_checkpoint-none (r ∷ rs) (e, a) = rw (last_checkpoint-none rs a, e) refl

last_checkpoint_found :
    (before : List LogRecord) (c : LogRecord) (after : List LogRecord)
    → is_checkpoint_end c.type ≡ true
    → All (λ r. is_checkpoint_end r.type ≡ false) after
    → last_checkpoint (before ++ (c ∷ after)) ≡ some (c, after)
unfolding last_checkpoint
last_checkpoint_found [] c after e a = rw (last_checkpoint-none after a, e) refl
last_checkpoint_found (b ∷ before) c after e a = rw (last_checkpoint_found before c after e a) refl

-- The last entry of a table for a key.
unfoldable pub entry : List (ℕ × ℕ) → ℕ → Option ℕ
entry [] key = none
entry ((k, lsn) ∷ rest) key = first_of (entry rest key) (if key == k then some lsn else none)

first_of_assoc : (a b c : Option ℕ) → first_of a (first_of b c) ≡ first_of (first_of a b) c
first_of_assoc none b c = refl
first_of_assoc (some x) b c = refl

update_first :
    (table : ℕ → Option ℕ) (k lsn key : ℕ)
    → update table k (some lsn) key ≡ first_of (if key == k then some lsn else none) (table key)
update_first table k lsn key = elim (Bool-cases (key == k)) [
  | inl e ↦ rw e refl
  | inr e ↦ rw e refl
]

-- A key with an entry has the last one's LSN; the others are as they were.
seed-entry :
    (table : ℕ → Option ℕ) (es : List (ℕ × ℕ)) (key : ℕ)
    → seed table es key ≡ first_of (entry es key) (table key)
unfolding seed entry
seed-entry table [] key = refl
seed-entry table ((k, lsn) ∷ rest) key =
    seed-entry (update table k (some lsn)) rest key
    ∙ ap (first_of (entry rest key)) (update_first table k lsn key)
    ∙ first_of_assoc (entry rest key) (if key == k then some lsn else none) (table key)

seed_tables_lem :
    (t : Tables) (c : LogRecord) (att dpt : List (ℕ × ℕ))
    → deserialize_att c.old_tuple_data ≡ some att
    → deserialize_dpt c.new_tuple_data ≡ some dpt
    → seed_tables t c ≡ some (record { att = seed t.att att; dpt = seed t.dpt dpt })
unfolding seed_tables
seed_tables_lem t c att dpt ea ed = rw (seed_tables, ea, ed) refl

-- If the log has a CHECKPOINT_END, whose tables have fewer than 2^28 entries that fit their widths,
-- the pass succeeds. A transaction then stands as the last record behind the last CHECKPOINT_END
-- that says something about it says, else as the last entry for it in the table written, else as
-- before. A page has the LSN of the last entry for it in the table written, else the one it had,
-- else that of the first record behind the checkpoint that changes it.
pub analyze_checkpoint :
    (t : Tables) (before : List LogRecord) (c : LogRecord) (after : List LogRecord)
    (att dpt : List (ℕ × ℕ))
    → is_checkpoint_end c.type ≡ true
    → c.old_tuple_data ≡ serialize_att att
    → c.new_tuple_data ≡ serialize_dpt dpt
    → Fit 8 att
    → Fit 4 dpt
    → length att < 2 ^ 28
    → length dpt < 2 ^ 28
    → All (λ r. is_checkpoint_end r.type ≡ false) after
    → (u : Tables) × (analyze t (before ++ (c ∷ after)) ≡ some u)
      × ((tid : ℕ)
          → u.att tid ≡ or_else (last_status tid after) (first_of (entry att tid) (t.att tid)))
      × ((pid : ℕ)
          → u.dpt pid ≡ first_of (first_of (entry dpt pid) (t.dpt pid)) (first_change pid after))
unfolding analyze
analyze_checkpoint t before c after att dpt e ea ed fa fd na nd a =
    let rt = deserialize_att-serialize_att att dpt fa fd na nd in
    let s =
      seed_tables_lem t c att dpt (ap deserialize_att ea ∙ rt.0) (ap deserialize_dpt ed ∙ rt.1) in
    let seeded : Tables = record { att = seed t.att att; dpt = seed t.dpt dpt } in
    let scanned = scan_forward-tables seeded after in
    (
      scan_forward seeded after,
      rw (analyze, last_checkpoint_found before c after e a, s) refl,
      λ tid. scanned.0 tid ∙ ap (or_else (last_status tid after)) (seed-entry t.att att tid),
      λ pid.
          scanned.1 pid ∙ ap (λ x. first_of x (first_change pid after)) (seed-entry t.dpt dpt pid),
    )

-- Without one it starts from the tables given and scans the whole log.
analyze_no_checkpoint :
    (t : Tables) (rs : List LogRecord)
    → All (λ r. is_checkpoint_end r.type ≡ false) rs
    → analyze t rs ≡ some (scan_forward t rs)
unfolding analyze
analyze_no_checkpoint t rs a = rw (analyze, last_checkpoint-none rs a) refl
