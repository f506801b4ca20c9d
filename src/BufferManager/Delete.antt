-- ===== src/BufferManager/Delete.antt =====
-- delete_page: the page leaves the cache unless it is pinned.
use persist_x.Base.{
  ℕ, ◌≡◌, ◌≢◌, ◌<◌, ◌⊎◌, inl, inr, refl, sym, ap, ◌∙◌, arith, Bool, true, false, [], ◌∷◌, ◌++◌,
  none, some, some_inj, update, update_at, update_elsewhere, Bool-cases, Option-cases, ℕ_discrete,
}
use mathlib.Core.Path.{subst}
use persist_x.Types.{invalid_page_id}
use persist_x.DiskManager.Pages.{SamePage, disk_page}
use persist_x.Replacer.{remove_from_replacer}
use persist_x.Replacer.Nodes.{frames, holds}
use persist_x.Replacer.Lru.{remove_from_replacer-frames}
use persist_x.Replacer.Held.{holds-without, holds-snoc, Once-snoc}
use persist_x.BufferManager.{BufferManager, delete_page, positive}
use persist_x.BufferManager.Frames.{IsValid, seen, view}

abbrev pub deleted : BufferManager → ℕ → ℕ → BufferManager
deleted b id f = record b {
  page_table = update b.page_table id none;
  replacer = remove_from_replacer b.replacer f;
  page_ids = update b.page_ids f invalid_page_id;
  dirty = update b.dirty f false;
  pin_count = update b.pin_count f 0;
  free_list = b.free_list ++ (f ∷ []);
}

deleted-IsValid :
    (b : BufferManager) (id f : ℕ) → IsValid b → b.page_table id ≡ some f → IsValid (deleted b id f)
deleted-IsValid b id f v at_f =
    let r = remove_from_replacer-frames b.replacer f v.links.replacer in
    let was : (x g : ℕ)
        → update b.page_table id none x ≡ some g
        → (x ≢ id) × (g ≢ f) × (b.page_table x ≡ some g) =
      λ x g m. elim (ℕ_discrete x id) [
        | yes e ↦ absurd (cc (m, update_at b.page_table id none x e))
        | no ne ↦
            let k = sym (update_elsewhere b.page_table id none x ne) ∙ m in
            (
              ne,
              (λ e. ne (sym (v.links.mapped x g k) ∙ ap b.page_ids e ∙ v.links.mapped id f at_f)),
              k,
            )
      ] in
    record {
      links = record {
        replacer = r.0;
        mapped = λ x g m.
            let k = was x g m in
            update_elsewhere b.page_ids f invalid_page_id g k.1 ∙ v.links.mapped x g k.2;
        once =
            Once-snoc f b.free_list
              (elim (Bool-cases (holds f b.free_list)) [
                | inl e ↦ absurd (v.links.free id f e at_f)
                | inr e ↦ e
              ])
              v.links.once;
        free = λ x g h m.
            let k = was x g m in
            elim (holds-snoc g f b.free_list h) [
              | inl same ↦ k.1 same
              | inr held ↦ v.links.free x g held k.2
            ];
        victim = λ g h.
            let k = holds-without g f (frames b.replacer.frame_list) (rw r.1 at h) in
            let at_g = v.links.victim g k.0 in
            ap (update b.page_table id none) (update_elsewhere b.page_ids f invalid_page_id g k.1)
            ∙ update_elsewhere b.page_table id none (b.page_ids g)
                (λ e. k.1 (some_inj.0 (sym at_g ∙ ap b.page_table e ∙ at_f)))
            ∙ at_g;
        unpinned = λ g h.
            let k = holds-without g f (frames b.replacer.frame_list) (rw r.1 at h) in
            update_elsewhere b.pin_count f 0 g k.1 ∙ v.links.unpinned g k.0;
      };
      counts = λ g. elim (ℕ_discrete g f) [
        | yes e ↦ let q = update_at b.pin_count f 0 g e in omega (arith, q)
        | no ne ↦ let q = update_elsewhere b.pin_count f 0 g ne in omega (arith, q, v.counts g)
      ];
      owned = λ g d. elim (ℕ_discrete g f) [
        | yes e ↦ absurd (cc (d, update_at b.dirty f false g e))
        | no ne ↦
            let at_g = v.owned g (sym (update_elsewhere b.dirty f false g ne) ∙ d) in
            ap (update b.page_table id none) (update_elsewhere b.page_ids f invalid_page_id g ne)
            ∙ update_elsewhere b.page_table id none (b.page_ids g)
                (λ e. ne (some_inj.0 (sym at_g ∙ ap b.page_table e ∙ at_f)))
            ∙ at_g
      ];
      clean = λ x g m p c.
          let k = was x g m in
          v.clean x g k.2 (sym (update_elsewhere b.pin_count f 0 g k.1) ∙ p)
            (sym (update_elsewhere b.dirty f false g k.1) ∙ c);
    }

-- The page after a delete: gone from the cache, or pinned and untouched.
abbrev pub Deleted : BufferManager → ℕ → BufferManager × Bool → Type 0
Deleted b id o =
    IsValid o.0
    × ((x : ℕ) → x ≢ id → SamePage (view o.0 x) (view b x))
    × (((o.1 ≡ true)
          × ((f : ℕ) → b.page_table id ≡ some f → b.pin_count f ≡ 0)
          × (o.0.page_table id ≡ none)
          × SamePage (view o.0 id) (disk_page b.disk_manager id))
        ⊎ ((o.1 ≡ false)
            × (o.0 ≡ b)
            × ((f : ℕ) × (b.page_table id ≡ some f) × (0 < b.pin_count f))))

pub delete_none :
    (b : BufferManager) (id : ℕ) → b.page_table id ≡ none → delete_page b id ≡ (b, true)
unfolding delete_page
delete_none b id e = rw (delete_page, e) refl

pub delete_pinned :
    (b : BufferManager) (id f : ℕ)
    → b.page_table id ≡ some f
    → positive (b.pin_count f) ≡ true
    → delete_page b id ≡ (b, false)
unfolding delete_page
delete_pinned b id f e h = rw (delete_page, e, h) refl

pub delete_done :
    (b : BufferManager) (id f : ℕ)
    → b.page_table id ≡ some f
    → positive (b.pin_count f) ≡ false
    → delete_page b id ≡ (deleted b id f, true)
unfolding delete_page
delete_done b id f e h = rw (delete_page, e, h) refl

-- delete_page refuses a page that is pinned, and no other, and leaves everything as it is then.
-- Otherwise the page is out of the cache, what is seen of it is the page on disk, and every other page is seen as before. The cache
-- stays valid.
pub delete_page-IsValid : (b : BufferManager) (id : ℕ) → IsValid b → Deleted b id (delete_page b id)
delete_page-IsValid b id v = elim (Option-cases (b.page_table id)) [
  | inl e ↦ subst (Deleted b id) (sym (delete_none b id e)) (
    v,
    λ x ne i h. refl,
    inl (
      refl,
      (λ f m. absurd (cc (e, m))),
      e,
      λ i h. ap (λ t. seen t b.pages (disk_page b.disk_manager id) i) e,
    ),
  )
  | inr (f, e) ↦ elim (Bool-cases (positive (b.pin_count f))) [
    | inl h ↦
        subst (Deleted b id) (sym (delete_pinned b id f e h))
          (v, λ x ne i h. refl, inr (refl, refl, (f, e, ground (arith, h))))
    | inr h ↦
        let gone = update_at b.page_table id none id refl in
        subst (Deleted b id) (sym (delete_done b id f e h)) (
          deleted-IsValid b id f v e,
          λ x ne i h.
              ap (λ t. seen t b.pages (disk_page b.disk_manager x) i)
                (update_elsewhere b.page_table id none x ne),
          inl (
            refl,
            (λ g m. ap b.pin_count (some_inj.0 (sym m ∙ e)) ∙ ground (arith, h, v.counts f)),
            gone,
            λ i h. ap (λ t. seen t b.pages (disk_page b.disk_manager id) i) gone,
          ),
        )
  ]
]
