-- ===== src/BufferManager/New.antt =====
-- new_page: a pinned frame with an empty page under a new identifier.
use persist_x.Base.{
  ℕ, ◌≡◌, ◌≢◌, ◌<◌, ◌⊎◌, inl, inr, refl, sym, ap, ◌∙◌, arith, Option, none, some, update_at,
  Option-cases,
}
use mathlib.Core.Path.{subst}
use persist_x.Types.{data_page}
use persist_x.Page.{Page, init}
use persist_x.DiskManager.{byte_at, allocate_page}
use persist_x.DiskManager.Pages.{SamePage}
use persist_x.BufferManager.{BufferManager, take_frame, install, new_page}
use persist_x.BufferManager.Frames.{IsValid, Loose, view, SameViews}
use persist_x.BufferManager.Take.{NoFrame, take_frame-Taken}
use persist_x.BufferManager.Install.{install-IsValid, install-view}

-- The frame and identifier returned: mapped, pinned, and holding a page as init leaves it.
abbrev pub IsNew : BufferManager → ℕ → ℕ → Type 0
IsNew c f id =
    (c.page_table id ≡ some f)
    × (0 < c.pin_count f)
    × ((p : Page) × (c.pages f ≡ init p id data_page))

abbrev pub Created : BufferManager → BufferManager × Option (ℕ × ℕ) → Type 0
Created b o =
    IsValid o.0
    × (((o.1 ≡ none) × SameViews b o.0 × NoFrame b)
        ⊎ ((f : ℕ) × (o.1 ≡ some (f, b.disk_manager.next_page_id))
            × IsNew o.0 f b.disk_manager.next_page_id
            × ((x : ℕ) → x ≢ b.disk_manager.next_page_id → SamePage (view o.0 x) (view b x))))

pub new_page-none :
    (b : BufferManager) → (take_frame b).1 ≡ none → new_page b ≡ ((take_frame b).0, none)
unfolding new_page
new_page-none b n = rw (new_page, n) refl

abbrev pub allocated : BufferManager → BufferManager
allocated t = record t { disk_manager = (allocate_page t.disk_manager).0 }

pub new_page-some :
    (b : BufferManager) (f : ℕ)
    → (take_frame b).1 ≡ some f
    → new_page b ≡ (
      install
          (allocated (take_frame b).0)
          f
          (take_frame b).0.disk_manager.next_page_id
          (init ((take_frame b).0.pages f) (take_frame b).0.disk_manager.next_page_id data_page),
      some (f, (take_frame b).0.disk_manager.next_page_id),
    )
unfolding new_page allocate_page
new_page-some b f x = rw (new_page, x) refl

allocated-IsValid : (t : BufferManager) → IsValid t → IsValid (allocated t)
unfolding allocate_page byte_at
allocated-IsValid t v = record {
  links = v.links;
  counts = v.counts;
  clean = v.clean;
  owned = v.owned;
}

init-Created :
    (b t : BufferManager) (f : ℕ)
    → IsValid t
    → SameViews b t
    → Loose t f
    → t.page_table b.disk_manager.next_page_id ≡ none
    → Created b (
      install
          (allocated t)
          f
          b.disk_manager.next_page_id
          (init (t.pages f) b.disk_manager.next_page_id data_page),
      some (f, b.disk_manager.next_page_id),
    )
unfolding allocate_page byte_at
init-Created b t f v views loose new =
    let id = b.disk_manager.next_page_id in
    let page = init (t.pages f) id data_page in
    let a = allocated-IsValid t v in
    let free : Loose (allocated t) f = record {
      unmapped = loose.unmapped;
      not_free = loose.not_free;
      not_victim = loose.not_victim;
    } in
    let w = install-view (allocated t) f id page a free new in
    (
      install-IsValid (allocated t) f id page a free new,
      inr (
        f,
        refl,
        (
          unfold install in update_at t.page_table id (some f) id refl,
          unfold install in (let q = update_at t.pin_count f 1 f refl in omega (arith, q)),
          (t.pages f, unfold install in update_at t.pages f page f refl),
        ),
        λ x ne i h. ap (λ q. q i) (w.1 x ne) ∙ views x i h,
      ),
    )

-- new_page gives a pinned frame with an empty data page under the next identifier of the disk, or
-- none, only when no frame is free and there is no victim, or the victim is dirty and the disk
-- refuses its page. Every other page is seen as before, and the cache stays valid. The identifier
-- must not be in the cache.
pub new_page-view :
    (b : BufferManager)
    → IsValid b
    → b.page_table b.disk_manager.next_page_id ≡ none
    → Created b (new_page b)
new_page-view b v new =
    let t = take_frame-Taken b v in
    elim (Option-cases (take_frame b).1) [
      | inl n ↦
          subst (Created b) (sym (new_page-none b n)) (t.valid, inl (refl, t.views, t.refused n))
      | inr (f, x) ↦
          subst (Created b)
            (sym (
              new_page-some b f x
              ∙ ap
                  (λ id. (
                    install (allocated (take_frame b).0) f id
                        (init ((take_frame b).0.pages f) id data_page),
                    some (f, id),
                  ))
                  t.next_page_id))
            (init-Created b (take_frame b).0 f t.valid t.views (t.loose f x)
              (t.shrinks b.disk_manager.next_page_id new))
    ]
