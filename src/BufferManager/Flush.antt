-- ===== src/BufferManager/Flush.antt =====
-- flush_page and flush_all_pages: what is on disk afterwards.
use persist_x.Base.{
  ℕ, ◌≡◌, ◌≢◌, ◌⊎◌, inl, inr, refl, sym, ap, ◌∙◌, Bool, true, false, none, some, some_inj,
  update_at, Bool-cases, Option-cases, ℕ_discrete,
}
use mathlib.Core.Path.{subst}
use persist_x.DiskManager.Pages.{SamePage, disk_page}
use persist_x.BufferManager.{BufferManager, flush_page, write_frame, enforce_wal, clean_frame}
use persist_x.BufferManager.Take.{write_frame-writable}
use persist_x.BufferManager.Frames.{
  IsValid, seen, view, SameViews, write_frame-IsValid, write_frame-SameViews, write_frame-disk,
  clean_frame-IsValid,
}

-- ─── flush_page ───

-- The write of a clean page that nobody has pinned fails: the frame is still marked clean.
abbrev pub Spoilt : BufferManager → ℕ → BufferManager × Bool → Type 0
Spoilt b id o =
    (o.1 ≡ false)
    × ((f : ℕ) × (b.page_table id ≡ some f) × (b.pin_count f ≡ 0) × (b.dirty f ≡ false))

-- The page is on disk and its frame clean, or the marks are as before. Nothing else on disk changes.
abbrev pub Flushed : BufferManager → ℕ → BufferManager × Bool → Type 0
Flushed b id o =
    (IsValid o.0 ⊎ Spoilt b id o)
    × SameViews b o.0
    × ((other : ℕ)
        → other ≢ id
        → SamePage (disk_page o.0.disk_manager other) (disk_page b.disk_manager other))
    × (((o.1 ≡ true)
          × SamePage (disk_page o.0.disk_manager id) (view b id)
          × ((f : ℕ) → b.page_table id ≡ some f → o.0.dirty f ≡ false))
        ⊎ ((o.1 ≡ false)
            × (o.0.dirty ≡ b.dirty)
            × ((b.page_table id ≡ none) × (o.0 ≡ b) ⊎ (b.disk_manager.writable id ≡ false))))

pub flush_none :
    (b : BufferManager) (id : ℕ) → b.page_table id ≡ none → flush_page b id ≡ (b, false)
unfolding flush_page
flush_none b id e = rw (flush_page, e) refl

pub flush_done :
    (b : BufferManager) (id f : ℕ)
    → b.page_table id ≡ some f
    → (write_frame b id f).1 ≡ true
    → flush_page b id ≡ (clean_frame (write_frame b id f).0 f, true)
unfolding flush_page
flush_done b id f e ok = rw (flush_page, e, ok) refl

pub flush_failed :
    (b : BufferManager) (id f : ℕ)
    → b.page_table id ≡ some f
    → (write_frame b id f).1 ≡ false
    → flush_page b id ≡ ((write_frame b id f).0, false)
unfolding flush_page
flush_failed b id f e failed = rw (flush_page, e, failed) refl

-- A mapped frame is written and marked clean.
pub written-IsValid :
    (b : BufferManager) (id f : ℕ)
    → IsValid b
    → b.page_table id ≡ some f
    → (write_frame b id f).1 ≡ true
    → IsValid (clean_frame (write_frame b id f).0 f)
unfolding write_frame enforce_wal
written-IsValid b id f v at_f ok =
    clean_frame-IsValid (write_frame b id f).0 id f (write_frame-IsValid b id f v at_f (λ p c. ok))
      at_f (λ i h. sym ((write_frame-disk b id f v at_f).0 ok i h))

-- A failed write keeps the cache valid, but for a clean page that nobody has pinned.
failed-IsValid :
    (b : BufferManager) (id f : ℕ)
    → IsValid b
    → b.page_table id ≡ some f
    → IsValid (write_frame b id f).0 ⊎ Spoilt b id ((write_frame b id f).0, false)
failed-IsValid b id f v at_f = elim (Bool-cases (b.dirty f)) [
  | inl d ↦ inl (write_frame-IsValid b id f v at_f (λ p c. absurd (cc (c, d))))
  | inr c ↦ elim (ℕ_discrete (b.pin_count f) 0) [
    | yes p ↦ inr (refl, (f, at_f, p, c))
    | no ne ↦ inl (write_frame-IsValid b id f v at_f (λ p d. absurd (ne p)))
  ]
]

write_frame-dirty : (b : BufferManager) (id f : ℕ) → (write_frame b id f).0.dirty ≡ b.dirty
unfolding write_frame enforce_wal
write_frame-dirty b id f = refl

-- If flush_page answers true, the page is on disk as a client sees it and its frame is clean. If it
-- answers false, the dirty marks are as before, and the page is not in the cache and nothing
-- changes, or the disk refuses the page. Other pages on disk stay and no page is seen differently.
-- The cache stays valid, unless the write of a clean page that nobody has pinned fails.
pub flush_page-disk : (b : BufferManager) (id : ℕ) → IsValid b → Flushed b id (flush_page b id)
flush_page-disk b id v = elim (Option-cases (b.page_table id)) [
  | inl e ↦
      subst (Flushed b id) (sym (flush_none b id e))
        (inl v, λ x i h. refl, λ x ne i h. refl, inr (refl, refl, inl (e, refl)))
  | inr (f, e) ↦
      let d = write_frame-disk b id f v e in
      elim (Bool-cases (write_frame b id f).1) [
        | inl ok ↦ subst (Flushed b id) (sym (flush_done b id f e ok)) (
          inl (written-IsValid b id f v e ok),
          (unfold clean_frame in write_frame-SameViews b id f v e),
          (unfold clean_frame in d.1),
          inl (
            refl,
            (unfold clean_frame in
                λ i h.
                  d.0 ok i h ∙ ap (λ t. seen t b.pages (disk_page b.disk_manager id) i) (sym e)),
            λ g m.
                unfold clean_frame in
                update_at (write_frame b id f).0.dirty f false g (some_inj.0 (sym m ∙ e)),
          ),
        )
        | inr failed ↦ subst (Flushed b id) (sym (flush_failed b id f e failed)) (
          failed-IsValid b id f v e,
          write_frame-SameViews b id f v e,
          d.1,
          inr (refl, write_frame-dirty b id f, inr (sym (write_frame-writable b id f) ∙ failed)),
        )
      ]
]
