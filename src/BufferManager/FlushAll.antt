-- ===== src/BufferManager/FlushAll.antt =====
-- flush_all_pages: what is on disk afterwards.
use persist_x.Base.{
  ℕ, zero, suc, ◌+◌, ◌≡◌, ◌≢◌, ◌≤◌, ◌<◌, inl, inr, refl, sym, ap, ◌∙◌, arith, true, false, not,
  ◌&&◌, some, some_inj, update_at, update_elsewhere, Bool-cases, ℕ_discrete, ◌==◌, ne→==,
}
use mathlib.Core.Path.{subst}
use persist_x.Types.{invalid_page_id}
use persist_x.DiskManager.Pages.{
  SamePage, disk_page, write_page-writable, write_page-keeps_writable,
}
use persist_x.BufferManager.{
  BufferManager, flush_frame, flush_from, flush_all_pages, write_frame, enforce_wal, clean_frame,
}
use persist_x.BufferManager.Frames.{IsValid, SameViews, write_frame-SameViews, write_frame-disk}
use persist_x.BufferManager.Flush.{written-IsValid}

-- The frame's page is on disk.
abbrev OnDisk : BufferManager → ℕ → Type 0
OnDisk b f = SamePage (disk_page b.disk_manager (b.page_ids f)) (b.pages f)

-- What rounds of flush_all_pages leave as it was.
record Rounds (b c : BufferManager) : Type 0 where
  valid : IsValid c
  views : SameViews b c
  pages : c.pages ≡ b.pages
  ids : c.page_ids ≡ b.page_ids
  table : c.page_table ≡ b.page_table
  writable : (id : ℕ) → c.disk_manager.writable id ≡ true
  settled : (g : ℕ) → b.dirty g ≡ false → c.dirty g ≡ false
  kept : (g : ℕ) → b.page_table (b.page_ids g) ≡ some g → OnDisk b g → OnDisk c g

Rounds-trans : {b c d : BufferManager} → Rounds b c → Rounds c d → Rounds b d
Rounds-trans {b} {c} {d} r s = record {
  valid = s.valid;
  views = λ x i h. s.views x i h ∙ r.views x i h;
  pages = s.pages ∙ r.pages;
  ids = s.ids ∙ r.ids;
  table = s.table ∙ r.table;
  writable = s.writable;
  settled = λ g h. s.settled g (r.settled g h);
  kept = λ g m k.
      s.kept g (ap (λ t. t (c.page_ids g)) r.table ∙ ap (λ x. b.page_table (x g)) r.ids ∙ m)
        (r.kept g m k);
}

abbrev pub Due : BufferManager → ℕ → Type 0
Due b i = not (b.page_ids i == invalid_page_id) && b.dirty i ≡ true

pub flush_skip :
    (b : BufferManager) (i : ℕ)
    → not (b.page_ids i == invalid_page_id) && b.dirty i ≡ false
    → flush_frame b i ≡ b
unfolding flush_frame
flush_skip b i e = rw (flush_frame, e) refl

pub flush_write :
    (b : BufferManager) (i : ℕ)
    → Due b i
    → flush_frame b i ≡ clean_frame (write_frame b (b.page_ids i) i).0 i
unfolding flush_frame
flush_write b i e = rw (flush_frame, e) refl

-- A round at a frame, and the whole sweep.
abbrev Round : BufferManager → ℕ → BufferManager → Type 0
Round b i c =
    Rounds b c
    × (b.page_ids i ≢ invalid_page_id → (c.dirty i ≡ false) × (b.dirty i ≡ true → OnDisk c i))
    × ((g : ℕ) → g ≢ i → c.dirty g ≡ b.dirty g)

abbrev Sweep : BufferManager → ℕ → ℕ → BufferManager → Type 0
Sweep b i n c =
    Rounds b c
    × ((g : ℕ)
        → i ≤ g
        → g < i + n
        → b.page_ids g ≢ invalid_page_id
        → (c.dirty g ≡ false) × (b.dirty g ≡ true → OnDisk c g))

module _ (b : BufferManager) (i : ℕ) (v : IsValid b)
    (w : (id : ℕ) → b.disk_manager.writable id ≡ true) where
  -- A round that writes a frame.
  written-Rounds :
      b.dirty i ≡ true
      → Rounds b (clean_frame (write_frame b (b.page_ids i) i).0 i)
        × OnDisk (clean_frame (write_frame b (b.page_ids i) i).0 i) i
  unfolding clean_frame write_frame enforce_wal
  written-Rounds d =
      let at_i = v.owned i d in
      let ok = write_page-writable b.disk_manager (b.page_ids i) (b.pages i) ∙ w (b.page_ids i) in
      let disk = write_frame-disk b (b.page_ids i) i v at_i in
      (
        record {
          valid = written-IsValid b (b.page_ids i) i v at_i ok;
          views = write_frame-SameViews b (b.page_ids i) i v at_i;
          pages = refl;
          ids = refl;
          table = refl;
          writable = λ id.
              ap (λ k. k id) (write_page-keeps_writable b.disk_manager (b.page_ids i) (b.pages i))
              ∙ w id;
          settled = λ g c. elim (ℕ_discrete g i) [
            | yes e ↦ update_at b.dirty i false g e
            | no ne ↦ update_elsewhere b.dirty i false g ne ∙ c
          ];
          kept = λ g m k. elim (ℕ_discrete g i) [
            | yes e ↦ rw e (disk.0 ok)
            | no ne ↦ λ j h.
                disk.1 (b.page_ids g) (λ e. ne (some_inj.0 (sym m ∙ ap b.page_table e ∙ at_i))) j h
                ∙ k j h
          ];
        },
        disk.0 ok,
      )

  Rounds-refl : Rounds b b
  Rounds-refl = record {
    valid = v;
    views = λ x j h. refl;
    pages = refl;
    ids = refl;
    table = refl;
    writable = w;
    settled = λ g c. c;
    kept = λ g m k. k;
  }

  flush_frame-Round : Round b i (flush_frame b i)
  flush_frame-Round = elim (Bool-cases (not (b.page_ids i == invalid_page_id) && b.dirty i)) [
    | inr e ↦ subst (Round b i) (sym (flush_skip b i e)) (
      Rounds-refl,
      λ ne.
          let c : b.dirty i ≡ false = sym (rw (ne→== (b.page_ids i) invalid_page_id ne) refl) ∙ e in
          (c, λ d. absurd (cc (c, d))),
      λ g ne. refl,
    )
    | inl e ↦
        let d : b.dirty i ≡ true = ground (arith, e) in
        let r = written-Rounds d in
        subst (Round b i) (sym (flush_write b i e)) (
          r.0,
          λ ne. (
            (unfold clean_frame in
                update_at (write_frame b (b.page_ids i) i).0.dirty i false i refl),
            λ d. r.1,
          ),
          λ g ne.
              unfold clean_frame write_frame enforce_wal in update_elsewhere b.dirty i false g ne,
        )
  ]

Sweep-next :
    (b c d : BufferManager) (i n : ℕ)
    → IsValid b
    → Round b i c
    → Sweep c (i + 1) n d
    → Sweep b i (suc n) d
Sweep-next b c d i n v r s = (
  Rounds-trans r.0 s.0,
  λ g lo hi ne. elim (ℕ_discrete g i) [
    | yes e ↦
        let k = r.1 (λ q. ne (ap b.page_ids e ∙ q)) in
        (
          s.0.settled g (ap c.dirty e ∙ k.0),
          λ dirty.
              s.0.kept g
                (ap (λ t. t (c.page_ids g)) r.0.table
                  ∙ ap (λ x. b.page_table (x g)) r.0.ids
                  ∙ v.owned g dirty)
                (subst (OnDisk c) (sym e) (k.1 (ap b.dirty (sym e) ∙ dirty))),
        )
    | no other ↦
        let k =
          s.1 g (omega (arith, lo, other)) (omega (arith, hi))
            (λ q. ne (sym (ap (λ x. x g) r.0.ids) ∙ q)) in
        (k.0, λ dirty. k.1 (r.2 g other ∙ dirty))
  ],
)

flush_from-Sweep :
    (b : BufferManager) (i n : ℕ)
    → IsValid b
    → ((id : ℕ) → b.disk_manager.writable id ≡ true)
    → Sweep b i n (flush_from b i n)
unfolding flush_from
flush_from-Sweep b i zero v w = (Rounds-refl b i v w, λ g lo hi. absurd (omega (arith, lo, hi)))
flush_from-Sweep b i (suc n) v w =
    let r = flush_frame-Round b i v w in
    Sweep-next b (flush_frame b i) (flush_from (flush_frame b i) (i + 1) n) i n v r
      (flush_from-Sweep (flush_frame b i) (i + 1) n r.0.valid r.0.writable)

-- When every write goes through, flush_all_pages leaves no page of the cache dirty, and every page
-- that was dirty is on disk as it is in its frame. No page is seen differently, and the cache stays
-- valid.
pub flush_all_pages-disk :
    (b : BufferManager)
    → IsValid b
    → ((id : ℕ) → b.disk_manager.writable id ≡ true)
    → IsValid (flush_all_pages b)
      × SameViews b (flush_all_pages b)
      × ((f : ℕ)
          → f < b.pool_size
          → b.page_ids f ≢ invalid_page_id
          → ((flush_all_pages b).dirty f ≡ false)
            × (b.dirty f ≡ true
                → SamePage (disk_page (flush_all_pages b).disk_manager (b.page_ids f)) (b.pages f)))
unfolding flush_all_pages
flush_all_pages-disk b v w =
    let s = flush_from-Sweep b 0 b.pool_size v w in
    (
      s.0.valid,
      s.0.views,
      λ f h ne.
          let k = s.1 f (omega arith) (omega (arith, h)) ne in
          (
            k.0,
            λ d i h.
                ap (λ x. disk_page (flush_from b 0 b.pool_size).disk_manager (x f) i) (sym s.0.ids)
                ∙ k.1 d i h
                ∙ ap (λ x. x f i) s.0.pages,
          ),
    )
