-- ===== src/BufferManager/Install.antt =====
-- The frame of a page that comes into the cache.
use persist_x.Base.{
  ℕ, ◌≡◌, ◌≢◌, ◌⊎◌, inl, inr, refl, sym, ap, ◌∙◌, arith, true, false, none, some, some_inj, update,
  update_at, update_elsewhere, Option-cases, ℕ_discrete,
}
use persist_x.Page.{Page}
use persist_x.Replacer.{Replacer, record_access, set_evictable}
use persist_x.Replacer.Nodes.{frames, holds}
use persist_x.Replacer.Lru.{record_access-frames, set_evictable-frames}
use persist_x.Replacer.Lru
use persist_x.Replacer.Held.{holds-without, holds-used}
use persist_x.BufferManager.{BufferManager, install}
use persist_x.BufferManager.Frames.{IsValid, Loose, view}

-- Using a frame and taking it from the victims, in either order.
abbrev pub Only : Replacer → Replacer → ℕ → Type 0
Only r s f =
    Lru.IsValid s
    × ((g : ℕ)
        → holds g (frames s.frame_list) ≡ true
        → (holds g (frames r.frame_list) ≡ true) × (g ≢ f))

pub pinned-Only :
    (r : Replacer) (f : ℕ) → Lru.IsValid r → Only r (set_evictable (record_access r f) f false) f
pinned-Only r f v =
    let a = record_access-frames r f v in
    let s = set_evictable-frames (record_access r f) f false a.0 in
    (
      s.0,
      λ g h.
          let w = holds-without g f (frames (record_access r f).frame_list) (rw s.1 at h) in
          (holds-used g f (frames r.frame_list) (rw a.1 at w.0), w.1),
    )

pub accessed-Only :
    (r : Replacer) (f : ℕ) → Lru.IsValid r → Only r (record_access (set_evictable r f false) f) f
accessed-Only r f v =
    let s = set_evictable-frames r f false v in
    let a = record_access-frames (set_evictable r f false) f s.0 in
    (
      a.0,
      λ g h.
          holds-without g f (frames r.frame_list) (
            rw s.1 at (holds-used g f (frames (set_evictable r f false).frame_list) (rw a.1 at h))),
    )

module _ (b : BufferManager) (f id : ℕ) (page : Page) (v : IsValid b) (loose : Loose b f)
    (new : b.page_table id ≡ none) where
  -- A frame that the table maps to after the installation.
  now :
      (x g : ℕ)
      → update b.page_table id (some f) x ≡ some g
      → ((x ≡ id) × (g ≡ f)) ⊎ ((x ≢ id) × (g ≢ f) × (b.page_table x ≡ some g))
  now x g m = elim (ℕ_discrete x id) [
    | yes e ↦ inl (e, sym (some_inj.0 (sym (update_at b.page_table id (some f) x e) ∙ m)))
    | no ne ↦
        let was = sym (update_elsewhere b.page_table id (some f) x ne) ∙ m in
        inr (ne, (λ e. loose.unmapped x (was ∙ ap some e)), was)
  ]

  pub install-IsValid : IsValid (install b f id page)
  unfolding install
  install-IsValid =
      let only = pinned-Only b.replacer f v.links.replacer in
      record {
        links = record {
          replacer = only.0;
          mapped = λ x g m. elim (now x g m) [
            | inl (e, same) ↦ update_at b.page_ids f id g same ∙ sym e
            | inr (ne, other, was) ↦
                update_elsewhere b.page_ids f id g other ∙ v.links.mapped x g was
          ];
          once = v.links.once;
          free = λ x g h m. elim (now x g m) [
            | inl (e, same) ↦ cc (h, loose.not_free, same)
            | inr (ne, other, was) ↦ v.links.free x g h was
          ];
          victim = λ g h.
              let k = only.1 g h in
              let at_g = v.links.victim g k.0 in
              ap (update b.page_table id (some f)) (update_elsewhere b.page_ids f id g k.1)
              ∙ update_elsewhere b.page_table id (some f) (b.page_ids g) (λ e. cc (at_g, new, e))
              ∙ at_g;
          unpinned = λ g h.
              let k = only.1 g h in update_elsewhere b.pin_count f 1 g k.1 ∙ v.links.unpinned g k.0;
        };
        counts = λ g. elim (ℕ_discrete g f) [
          | yes e ↦ let q = update_at b.pin_count f 1 g e in omega (arith, q)
          | no ne ↦ let q = update_elsewhere b.pin_count f 1 g ne in omega (arith, q, v.counts g)
        ];
        owned = λ g d. elim (ℕ_discrete g f) [
          | yes e ↦ absurd (cc (d, update_at b.dirty f false g e))
          | no ne ↦
              let at_g = v.owned g (sym (update_elsewhere b.dirty f false g ne) ∙ d) in
              ap (update b.page_table id (some f)) (update_elsewhere b.page_ids f id g ne)
              ∙ update_elsewhere b.page_table id (some f) (b.page_ids g) (λ e. cc (at_g, new, e))
              ∙ at_g
        ];
        clean = λ x g m p c i h. elim (now x g m) [
          | inl (e, same) ↦
              absurd (let q = sym (update_at b.pin_count f 1 g same) ∙ p in omega arith)
          | inr (ne, other, was) ↦
              ap (λ q. q i) (update_elsewhere b.pages f page g other)
              ∙ v.clean x g was (sym (update_elsewhere b.pin_count f 1 g other) ∙ p)
                  (sym (update_elsewhere b.dirty f false g other) ∙ c) i h
        ];
      }

  -- The new page is seen under its identifier, and every other page as before.
  pub install-view :
      (view (install b f id page) id ≡ page)
      × ((x : ℕ) → x ≢ id → view (install b f id page) x ≡ view b x)
  unfolding install
  install-view = (
    rw (view, update_at b.page_table id (some f) id refl) (update_at b.pages f page f refl),
    λ x ne. elim (Option-cases (b.page_table x)) [
      | inl e ↦ rw (view, update_elsewhere b.page_table id (some f) x ne, e) refl
      | inr (g, e) ↦
          rw (view, update_elsewhere b.page_table id (some f) x ne, e)
            (update_elsewhere b.pages f page g (λ same. loose.unmapped x (e ∙ ap some same)))
    ],
  )
