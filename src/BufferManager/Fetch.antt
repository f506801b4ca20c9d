-- ===== src/BufferManager/Fetch.antt =====
-- fetch_page: a pinned frame with the page, and no other page changed.
use persist_x.Base.{
  ℕ, ◌+◌, ◌%◌, ◌^◌, ◌≡◌, ◌<◌, ◌⊎◌, inl, inr, refl, sym, ap, ◌∙◌, arith, false, Option, none, some,
  update, update_at, update_elsewhere, Option-cases, ℕ_discrete,
}
use mathlib.Core.Path.{subst}
use persist_x.DiskManager.{read_page}
use persist_x.DiskManager.Pages.{SamePage, disk_page, read_page-SamePage}
use persist_x.Replacer.{record_access, set_evictable}
use persist_x.BufferManager.{BufferManager, take_frame, install, fetch_page}
use persist_x.BufferManager.Frames.{IsValid, Loose, seen, view, SameViews}
use persist_x.BufferManager.Take.{NoFrame, take_frame-Taken}
use persist_x.BufferManager.Install.{accessed-Only, install-IsValid, install-view}

-- The frame returned: mapped for the page, pinned, and holding what a client saw of the page.
abbrev pub Holds : BufferManager → BufferManager → ℕ → ℕ → Type 0
Holds b c id f = (c.page_table id ≡ some f) × (0 < c.pin_count f) × SamePage (c.pages f) (view b id)

fetch_hit-IsValid :
    (b : BufferManager) (id f : ℕ)
    → IsValid b
    → b.page_table id ≡ some f
    → b.pin_count f + 1 < 2 ^ 31
    → IsValid (record b {
      pin_count = update b.pin_count f ((b.pin_count f + 1) % 2 ^ 32);
      replacer = record_access (set_evictable b.replacer f false) f;
    })
fetch_hit-IsValid b id f v at_f room =
    let only = accessed-Only b.replacer f v.links.replacer in
    record {
      links = record {
        replacer = only.0;
        mapped = v.links.mapped;
        once = v.links.once;
        free = v.links.free;
        victim = λ g h. v.links.victim g (only.1 g h).0;
        unpinned = λ g h.
            update_elsewhere b.pin_count f ((b.pin_count f + 1) % 2 ^ 32) g (only.1 g h).1
            ∙ v.links.unpinned g (only.1 g h).0;
      };
      counts = λ g. elim (ℕ_discrete g f) [
        | yes e ↦
            let q = update_at b.pin_count f ((b.pin_count f + 1) % 2 ^ 32) g e in
            omega (arith, q, room)
        | no ne ↦
            let q = update_elsewhere b.pin_count f ((b.pin_count f + 1) % 2 ^ 32) g ne in
            omega (arith, q, v.counts g)
      ];
      owned = v.owned;
      clean = λ x g m p c. elim (ℕ_discrete g f) [
        | yes e ↦ absurd (
            let q = sym (update_at b.pin_count f ((b.pin_count f + 1) % 2 ^ 32) g e) ∙ p in
            omega (arith, q, room))
        | no ne ↦
            v.clean x g m
              (sym (update_elsewhere b.pin_count f ((b.pin_count f + 1) % 2 ^ 32) g ne) ∙ p) c
      ];
    }

abbrev pub Fetched : BufferManager → ℕ → BufferManager × Option ℕ → Type 0
Fetched b id o =
    IsValid o.0
    × SameViews b o.0
    × (((o.1 ≡ none) × (b.page_table id ≡ none) × NoFrame b)
        ⊎ ((f : ℕ) × (o.1 ≡ some f) × Holds b o.0 id f))

abbrev pub hit : BufferManager → ℕ → BufferManager
hit b f = record b {
  pin_count = update b.pin_count f ((b.pin_count f + 1) % 2 ^ 32);
  replacer = record_access (set_evictable b.replacer f false) f;
}

pub fetch_hit :
    (b : BufferManager) (id f : ℕ) → b.page_table id ≡ some f → fetch_page b id ≡ (hit b f, some f)
unfolding fetch_page
fetch_hit b id f e = rw (fetch_page, e) refl

pub fetch_miss-none :
    (b : BufferManager) (id : ℕ)
    → b.page_table id ≡ none
    → (take_frame b).1 ≡ none
    → fetch_page b id ≡ ((take_frame b).0, none)
unfolding fetch_page
fetch_miss-none b id e n = rw (fetch_page, e, n) refl

pub fetch_miss-some :
    (b : BufferManager) (id f : ℕ)
    → b.page_table id ≡ none
    → (take_frame b).1 ≡ some f
    → fetch_page b id ≡ (
      install
          (take_frame b).0
          f
          id
          (read_page (take_frame b).0.disk_manager id ((take_frame b).0.pages f)),
      some f,
    )
unfolding fetch_page
fetch_miss-some b id f e x = rw (fetch_page, e, x) refl

-- A page read into a loose frame.
read-Fetched :
    (b t : BufferManager) (id f : ℕ)
    → IsValid t
    → SameViews b t
    → Loose t f
    → t.page_table id ≡ none
    → Fetched b id (install t f id (read_page t.disk_manager id (t.pages f)), some f)
read-Fetched b t id f v views loose new =
    let page = read_page t.disk_manager id (t.pages f) in
    let w = install-view t f id page v loose new in
    let on_disk : SamePage page (view b id) = λ i h.
      read_page-SamePage t.disk_manager id (t.pages f) i h
      ∙ ap (λ x. seen x t.pages (disk_page t.disk_manager id) i) (sym new)
      ∙ views id i h in
    (
      install-IsValid t f id page v loose new,
      λ x i h. elim (ℕ_discrete x id) [
        | yes e ↦ rw e (ap (λ q. q i) w.0 ∙ on_disk i h)
        | no ne ↦ ap (λ q. q i) (w.1 x ne) ∙ views x i h
      ],
      inr (
        f,
        refl,
        (
          unfold install in update_at t.page_table id (some f) id refl,
          unfold install in (let q = update_at t.pin_count f 1 f refl in omega (arith, q)),
          λ i h. unfold install in ap (λ q. q i) (update_at t.pages f page f refl) ∙ on_disk i h,
        ),
      ),
    )

-- Fetching a page gives a pinned frame that holds the page. It gives none only for a page that is
-- not in the cache, when no frame is free and there is no victim, or the victim is dirty and the disk
-- refuses its page. Every page is seen as before, and the cache stays valid. One more pin of a
-- cached page must not run over int32_t.
pub fetch_page-view :
    (b : BufferManager) (id : ℕ)
    → IsValid b
    → ((f : ℕ) → b.page_table id ≡ some f → b.pin_count f + 1 < 2 ^ 31)
    → Fetched b id (fetch_page b id)
fetch_page-view b id v room = elim (Option-cases (b.page_table id)) [
  | inr (f, at_f) ↦ subst (Fetched b id) (sym (fetch_hit b id f at_f)) (
    fetch_hit-IsValid b id f v at_f (room f at_f),
    λ x i h. refl,
    inr (
      f,
      refl,
      (
        at_f,
        (let q = update_at b.pin_count f ((b.pin_count f + 1) % 2 ^ 32) f refl in
            omega (arith, q, room f at_f)),
        λ i h. ap (λ t. seen t b.pages (disk_page b.disk_manager id) i) (sym at_f),
      ),
    ),
  )
  | inl new ↦
      let t = take_frame-Taken b v in
      elim (Option-cases (take_frame b).1) [
        | inl n ↦
            subst (Fetched b id) (sym (fetch_miss-none b id new n))
              (t.valid, t.views, inl (refl, new, t.refused n))
        | inr (f, x) ↦
            subst (Fetched b id) (sym (fetch_miss-some b id f new x)) (
              read-Fetched b (take_frame b).0 id f t.valid t.views (t.loose f x) (t.shrinks id new))
      ]
]
