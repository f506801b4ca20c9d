-- ===== src/BufferManager/Frames.antt =====
-- The invariant of the frame table, what a client sees of the cache, and the steps that the
-- operations share.
use persist_x.Base.{
  ℕ, ◌^◌, ◌<◌, ◌≡◌, ◌≢◌, inl, inr, refl, sym, ap, ◌∙◌, true, false, List, Option, none, some,
  some_inj, update, update_at, update_elsewhere, Bool-cases, Option-cases, ℕ_discrete,
}
use persist_x.Page.{Page}
use persist_x.DiskManager.{write_page}
use persist_x.DiskManager.Pages.{disk_page, SamePage, write_page_self, write_page-other}
use persist_x.Replacer.{Replacer}
use persist_x.Replacer.Nodes.{frames, holds}
use persist_x.Replacer.Lru.{evict-without}
use persist_x.Replacer.Held.{Once}
use persist_x.Replacer.Lru
use persist_x.BufferManager.{BufferManager, enforce_wal, write_frame, unmap, clean_frame}

-- The table and the frames agree: a mapped frame knows its page, a free frame is not mapped, and
-- the replacer holds only mapped frames that nobody has pinned.
pub record Linked (table : ℕ → Option ℕ) (ids pins : ℕ → ℕ) (r : Replacer) (free_list : List ℕ)
    : Type 0 where
  pub replacer : Lru.IsValid r
  pub mapped : (id f : ℕ) → table id ≡ some f → ids f ≡ id
  pub once : Once free_list
  pub free : (id f : ℕ) → holds f free_list ≡ true → table id ≢ some f
  pub victim : (f : ℕ) → holds f (frames r.frame_list) ≡ true → table (ids f) ≡ some f
  pub unpinned : (f : ℕ) → holds f (frames r.frame_list) ≡ true → pins f ≡ 0

abbrev pub Links : BufferManager → Type 0
Links b = Linked b.page_table b.page_ids b.pin_count b.replacer b.free_list

-- Besides, a dirty frame is mapped, and an unpinned clean page is the same in memory and on disk; a
-- pin count is not negative as an int32_t.
pub record IsValid (b : BufferManager) : Type 0 where
  pub links : Links b
  pub counts : (f : ℕ) → b.pin_count f < 2 ^ 31
  pub owned : (f : ℕ) → b.dirty f ≡ true → b.page_table (b.page_ids f) ≡ some f
  pub clean :
      (id f : ℕ)
      → b.page_table id ≡ some f
      → b.pin_count f ≡ 0
      → b.dirty f ≡ false
      → SamePage (b.pages f) (disk_page b.disk_manager id)

-- The page that a client gets for an identifier: the cached one, else the one on disk.
abbrev pub seen : Option ℕ → (ℕ → Page) → Page → Page
seen (some f) pages on_disk = pages f
seen none pages on_disk = on_disk

abbrev pub view : BufferManager → ℕ → Page
view b id = seen (b.page_table id) b.pages (disk_page b.disk_manager id)

abbrev pub SameViews : BufferManager → BufferManager → Type 0
SameViews b c = (id : ℕ) → SamePage (view c id) (view b id)

-- A frame that nothing refers to.
pub record Loose (b : BufferManager) (f : ℕ) : Type 0 where
  pub unmapped : (id : ℕ) → b.page_table id ≢ some f
  pub not_free : holds f b.free_list ≡ false
  pub not_victim : holds f (frames b.replacer.frame_list) ≡ false

-- ─── writing a frame ───

module _ (b : BufferManager) (id f : ℕ) (v : IsValid b) (at_f : b.page_table id ≡ some f) where
  -- The pages on disk after the write.
  pub write_frame-disk :
      ((write_frame b id f).1 ≡ true
        → SamePage (disk_page (write_frame b id f).0.disk_manager id) (b.pages f))
      × ((other : ℕ)
          → other ≢ id
          → SamePage
              (disk_page (write_frame b id f).0.disk_manager other)
              (disk_page b.disk_manager other))
  unfolding write_frame enforce_wal
  write_frame-disk = (
    write_page_self b.disk_manager id (b.pages f),
    λ other ne. write_page-other b.disk_manager id other (b.pages f) ne,
  )

  -- A write that fails must not be that of an unpinned clean page, of which it may leave less on
  -- disk than there was.
  pub write_frame-IsValid :
      (b.pin_count f ≡ 0 → b.dirty f ≡ false → (write_frame b id f).1 ≡ true)
      → IsValid (write_frame b id f).0
  unfolding write_frame enforce_wal
  write_frame-IsValid safe = record {
    links = v.links;
    counts = v.counts;
    owned = v.owned;
    clean = λ other g m p c i h. elim (ℕ_discrete other id) [
      | no ne ↦
          v.clean other g m p c i h
          ∙ sym (write_page-other b.disk_manager id other (b.pages f) ne i h)
      | yes e ↦
          let same : g ≡ f = some_inj.0 (sym m ∙ ap b.page_table e ∙ at_f) in
          let ok = safe (sym (ap b.pin_count same) ∙ p) (sym (ap b.dirty same) ∙ c) in
          ap (λ x. b.pages x i) same
          ∙ sym (write_page_self b.disk_manager id (b.pages f) ok i h)
          ∙ ap (λ x. disk_page (write_page b.disk_manager id (b.pages f)).0 x i) (sym e)
    ];
  }

  pub write_frame-SameViews : SameViews b (write_frame b id f).0
  unfolding write_frame enforce_wal
  write_frame-SameViews other i h = elim (Option-cases (b.page_table other)) [
    | inr (g, m) ↦ rw (view, m) refl
    | inl m ↦
        rw (view, m)
          (write_page-other b.disk_manager id other (b.pages f) (λ e. cc (m, at_f, e)) i h)
  ]

-- A frame may be marked clean if its page is on disk.
pub clean_frame-IsValid :
    (b : BufferManager) (id f : ℕ)
    → IsValid b
    → b.page_table id ≡ some f
    → SamePage (b.pages f) (disk_page b.disk_manager id)
    → IsValid (clean_frame b f)
unfolding clean_frame
clean_frame-IsValid b id f v at_f same = record {
  links = v.links;
  counts = v.counts;
  owned = λ g d. elim (ℕ_discrete g f) [
    | no ne ↦ v.owned g (sym (update_elsewhere b.dirty f false g ne) ∙ d)
    | yes e ↦ absurd (cc (d, update_at b.dirty f false g e))
  ];
  clean = λ other g m p c i h. elim (ℕ_discrete g f) [
    | no ne ↦ v.clean other g m p (sym (update_elsewhere b.dirty f false g ne) ∙ c) i h
    | yes e ↦
        let e' : other ≡ id =
          sym (v.links.mapped other g m) ∙ ap b.page_ids e ∙ v.links.mapped id f at_f in
        ap (λ x. b.pages x i) e ∙ same i h ∙ ap (λ x. disk_page b.disk_manager x i) (sym e')
  ];
}

-- ─── taking a page out of the table ───

-- An unpinned clean frame that is not to be evicted otherwise.
pub unmap-IsValid :
    (b : BufferManager) (f : ℕ)
    → IsValid b
    → b.page_table (b.page_ids f) ≡ some f
    → b.pin_count f ≡ 0
    → b.dirty f ≡ false
    → holds f (frames b.replacer.frame_list) ≡ false
    → IsValid (unmap b f) × Loose (unmap b f) f × SameViews b (unmap b f)
unfolding unmap
unmap-IsValid b f v at_f pin c out =
    let was : (id g : ℕ)
        → update b.page_table (b.page_ids f) none id ≡ some g
        → (id ≢ b.page_ids f) × (b.page_table id ≡ some g) =
      λ id g m. elim (ℕ_discrete id (b.page_ids f)) [
        | yes e ↦ absurd (cc (m, update_at b.page_table (b.page_ids f) none id e))
        | no ne ↦ (ne, sym (update_elsewhere b.page_table (b.page_ids f) none id ne) ∙ m)
      ] in
    let gone : (id : ℕ) → update b.page_table (b.page_ids f) none id ≢ some f =
      λ id m. (was id f m).0 (sym (v.links.mapped id f (was id f m).1)) in
    (
      record {
        links = record {
          replacer = v.links.replacer;
          mapped = λ id g m. v.links.mapped id g (was id g m).1;
          once = v.links.once;
          free = λ id g h m. v.links.free id g h (was id g m).1;
          victim = λ g h.
              update_elsewhere b.page_table (b.page_ids f) none (b.page_ids g)
                (λ e. cc (v.links.victim g h, e, at_f, h, out))
              ∙ v.links.victim g h;
          unpinned = v.links.unpinned;
        };
        counts = v.counts;
        owned = λ g d.
            update_elsewhere b.page_table (b.page_ids f) none (b.page_ids g)
              (λ e. cc (v.owned g d, e, at_f, d, c))
            ∙ v.owned g d;
        clean = λ id g m. v.clean id g (was id g m).1;
      },
      record {
        unmapped = gone;
        not_free = elim (Bool-cases (holds f b.free_list)) [
          | inl e ↦ absurd (v.links.free (b.page_ids f) f e at_f)
          | inr e ↦ e
        ];
        not_victim = out;
      },
      λ id i h. elim (ℕ_discrete id (b.page_ids f)) [
        | yes e ↦
            ap (λ t. seen t b.pages (disk_page b.disk_manager id) i)
              (update_at b.page_table (b.page_ids f) none id e)
            ∙ ap (λ x. disk_page b.disk_manager x i) e
            ∙ sym (v.clean (b.page_ids f) f at_f pin c i h)
            ∙ ap (λ t. seen t b.pages (disk_page b.disk_manager id) i)
                (sym (ap b.page_table e ∙ at_f))
        | no ne ↦
            ap (λ t. seen t b.pages (disk_page b.disk_manager id) i)
              (update_elsewhere b.page_table (b.page_ids f) none id ne)
      ],
    )
