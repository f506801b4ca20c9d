-- ===== src/Recovery/Redo.antt =====
-- The redo pass of src/recovery_manager.cpp, as it acts on one page: fetch_page is taken to give
-- the page, and each record of the log is looked at in turn.
use persist_x.Base.{
  ℕ, ◌%◌, ◌^◌, ◌≡◌, ◌≤◌, ◌<◌, refl, sym, ap, ◌∙◌, arith, Bool, true, false, not, ◌&&◌, List, [],
  ◌∷◌, ◌++◌, Option, none, some, leb, ◌==◌, if◌then◌else◌, length, take, All, Bool-cases, inl, inr,
  le→leb,
}
use persist_x.Bytes.{rd-wr_self}
use persist_x.LogRecord.{LogRecord, is_update, is_clr}
use persist_x.LogManager.{is_empty}
use persist_x.Page.{Page, get_page_lsn, set_page_lsn, redo_insert, delete_record, update_record}

-- The bytes handed over with `static_cast<uint16_t>(data.size())`.
abbrev pub sized : List ℕ → List ℕ
sized bytes = take (length bytes % 2 ^ 16) bytes

-- update_record, or delete_record and redo_insert if the size differs.
unfoldable pub overwrite : Page → ℕ → List ℕ → ℕ → Page
overwrite p sid bytes lsn =
    let (q, ok) = update_record p sid (sized bytes) lsn in
    if ok then q else redo_insert (delete_record q sid 0).0 sid (sized bytes) lsn

unfoldable pub apply_record : LogRecord → Page → Page
apply_record r p =
    if is_update r.type && is_empty r.old_tuple_data
    then redo_insert p r.slot_id (sized r.new_tuple_data) r.lsn
    else (if is_empty r.new_tuple_data
        then (delete_record p r.slot_id r.lsn).0
        else overwrite p r.slot_id r.new_tuple_data r.lsn)

-- Whether the tests before the page is fetched let a record through, for page `pid`.
unfoldable pub is_for_page : (ℕ → Option ℕ) → ℕ → ℕ → LogRecord → Bool
is_for_page dpt start_lsn pid r =
    let in_table : Bool = elim (dpt pid) [ none ↦ false | some rec_lsn ↦ leb rec_lsn r.lsn ] in
    leb start_lsn r.lsn
    && (if is_update r.type then true else is_clr r.type)
    && r.page_id == pid
    && in_table

unfoldable pub redo_record : (ℕ → Option ℕ) → ℕ → ℕ → LogRecord → Page → Page
redo_record dpt start_lsn pid r p =
    if is_for_page dpt start_lsn pid r && not (leb r.lsn (get_page_lsn p))
    then set_page_lsn (apply_record r p) r.lsn
    else p

unfoldable pub redo : (ℕ → Option ℕ) → ℕ → ℕ → List LogRecord → Page → Page
redo dpt start_lsn pid [] p = p
redo dpt start_lsn pid (r ∷ rs) p = redo dpt start_lsn pid rs (redo_record dpt start_lsn pid r p)

get_page_lsn-set_page_lsn :
    (p : Page) (lsn : ℕ) → lsn < 2 ^ 64 → get_page_lsn (set_page_lsn p lsn) ≡ lsn
unfolding get_page_lsn set_page_lsn
get_page_lsn-set_page_lsn p lsn h = rd-wr_self 8 p 13 lsn (omega arith)

leb→le : (m n : ℕ) → leb m n ≡ true → m ≤ n
leb→le m n h = ground (arith, h)

leb→lt : (m n : ℕ) → leb m n ≡ false → n < m
leb→lt m n h = ground (arith, h)

module _ (dpt : ℕ → Option ℕ) (start_lsn pid : ℕ) where
  -- What a record leaves on the page: the page's LSN does not go back, and it reaches the record's
  -- if that is let through.
  redo_record-lsn :
      (r : LogRecord) (p : Page)
      → r.lsn < 2 ^ 64
      → (get_page_lsn p ≤ get_page_lsn (redo_record dpt start_lsn pid r p))
        × (is_for_page dpt start_lsn pid r ≡ true
            → r.lsn ≤ get_page_lsn (redo_record dpt start_lsn pid r p))
  unfolding redo_record
  redo_record-lsn r p h =
      let e = get_page_lsn-set_page_lsn (apply_record r p) r.lsn h in
      elim (Bool-cases (is_for_page dpt start_lsn pid r)) [
        | inl f ↦ elim (Bool-cases (leb r.lsn (get_page_lsn p))) [
          | inl g ↦ rw (f, g) (omega arith, λ x. leb→le r.lsn (get_page_lsn p) g)
          | inr g ↦ rw (f, g, e) (omega (arith, leb→lt r.lsn (get_page_lsn p) g), λ x. omega arith)
        ]
        | inr f ↦ rw f (omega arith, λ x. absurd (cc))
      ]

  -- A record whose LSN the page has reached is skipped.
  redo_record-reached :
      (r : LogRecord) (p : Page)
      → (is_for_page dpt start_lsn pid r ≡ true → r.lsn ≤ get_page_lsn p)
      → redo_record dpt start_lsn pid r p ≡ p
  unfolding redo_record
  redo_record-reached r p h = elim (Bool-cases (is_for_page dpt start_lsn pid r)) [
    | inl f ↦ rw (redo_record, f, le→leb r.lsn (get_page_lsn p) (h f)) refl
    | inr f ↦ rw (redo_record, f) refl
  ]

  -- After the pass the page's LSN has reached each record that was let through.
  abbrev Reached : List LogRecord → ℕ → Type 0
  Reached rs lsn = All (λ r. is_for_page dpt start_lsn pid r ≡ true → r.lsn ≤ lsn) rs

  Reached-le : (rs : List LogRecord) (l m : ℕ) → l ≤ m → Reached rs l → Reached rs m
  Reached-le [] l m h a = a
  Reached-le (r ∷ rs) l m h (f, a) = (λ e. omega (arith, f e), Reached-le rs l m h a)

  redo-lsn :
      (rs : List LogRecord) (p : Page)
      → All (λ r. r.lsn < 2 ^ 64) rs
      → (get_page_lsn p ≤ get_page_lsn (redo dpt start_lsn pid rs p))
        × Reached rs (get_page_lsn (redo dpt start_lsn pid rs p))
  unfolding redo
  redo-lsn [] p a = (omega arith, tt)
  redo-lsn (r ∷ rs) p (h, a) =
      let one = redo_record-lsn r p h in
      let ih = redo-lsn rs (redo_record dpt start_lsn pid r p) a in
      (omega (arith, one.0, ih.0), (λ e. omega (arith, one.1 e, ih.0), ih.1))

  redo-Reached :
      (rs : List LogRecord) (p : Page)
      → Reached rs (get_page_lsn p)
      → redo dpt start_lsn pid rs p ≡ p
  unfolding redo
  redo-Reached [] p a = refl
  redo-Reached (r ∷ rs) p (f, a) = rw (redo_record-reached r p f) (redo-Reached rs p a)

  redo-append :
      (xs ys : List LogRecord) (p : Page)
      → redo dpt start_lsn pid (xs ++ ys) p
        ≡ redo dpt start_lsn pid ys (redo dpt start_lsn pid xs p)
  unfolding redo
  redo-append [] ys p = refl
  redo-append (x ∷ xs) ys p = redo-append xs ys (redo_record dpt start_lsn pid x p)

  -- Redo can be interrupted: if the pass has brought a page past the first records of the log and
  -- is then run again on the whole log, it leaves the page that an uninterrupted pass leaves. LSNs
  -- have to be below 2^64.
  pub redo-restart :
      (xs ys : List LogRecord) (p : Page)
      → All (λ r. r.lsn < 2 ^ 64) xs
      → redo dpt start_lsn pid (xs ++ ys) (redo dpt start_lsn pid xs p)
        ≡ redo dpt start_lsn pid (xs ++ ys) p
  redo-restart xs ys p a =
      let q = redo dpt start_lsn pid xs p in
      redo-append xs ys q
      ∙ ap (redo dpt start_lsn pid ys) (redo-Reached xs q (redo-lsn xs p a).1)
      ∙ sym (redo-append xs ys p)
