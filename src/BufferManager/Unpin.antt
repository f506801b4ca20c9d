-- ===== src/BufferManager/Unpin.antt =====
-- unpin_page and delete_page.
use persist_x.Base.{
  ℕ, ◌-◌, ◌≡◌, ◌≢◌, ◌<◌, ◌⊎◌, inl, inr, refl, sym, ap, ◌∙◌, arith, Bool, true, false, none, some,
  some_inj, if◌then◌else◌, update, update_at, update_elsewhere, Bool-cases, Option-cases,
  ℕ_discrete, ◌==◌, ==→eq,
}
use mathlib.Core.Path.{subst}
use persist_x.DiskManager.Pages.{SamePage, disk_page}
use persist_x.Replacer.{set_evictable}
use persist_x.Replacer.Nodes.{frames, holds}
use persist_x.Replacer.Lru.{set_evictable-frames, remove_from_replacer-frames}
use persist_x.Replacer.Lru
use persist_x.Replacer.Held.{holds-made}
use persist_x.BufferManager.{BufferManager, unpin_page, positive}
use persist_x.BufferManager.Frames.{IsValid, SameViews}

-- ─── unpin_page ───

-- The cache after an unpin of a mapped and pinned frame.
abbrev pub released : BufferManager → ℕ → Bool → BufferManager
released b f is_dirty =
    let left = b.pin_count f - 1 in
    record b {
      pin_count = update b.pin_count f left;
      dirty = if is_dirty then update b.dirty f true else b.dirty;
      replacer = if left == 0 then set_evictable b.replacer f true else b.replacer;
    }

pub unpin_done :
    (b : BufferManager) (id f : ℕ) (is_dirty : Bool)
    → b.page_table id ≡ some f
    → positive (b.pin_count f) ≡ true
    → unpin_page b id is_dirty ≡ (released b f is_dirty, true)
unfolding unpin_page
unpin_done b id f is_dirty e h = rw (unpin_page, e, h) refl

-- The replacer holds the frame besides those before, if at all.
released-replacer :
    (b : BufferManager) (f : ℕ) (is_dirty : Bool)
    → IsValid b
    → Lru.IsValid (released b f is_dirty).replacer
      × ((g : ℕ)
          → holds g (frames (released b f is_dirty).replacer.frame_list) ≡ true
          → ((g ≡ f) × (b.pin_count f - 1 ≡ 0)) ⊎ (holds g (frames b.replacer.frame_list) ≡ true))
released-replacer b f is_dirty v = elim (Bool-cases (b.pin_count f - 1 == 0)) [
  | inr e ↦ rw e (v.links.replacer, λ g h. inr h)
  | inl e ↦
      let s = set_evictable-frames b.replacer f true v.links.replacer in
      rw e (
        s.0,
        λ g h. elim (holds-made g f (frames b.replacer.frame_list) (rw s.1 at h)) [
          | inl same ↦ inl (same, ==→eq (b.pin_count f - 1) 0 e)
          | inr held ↦ inr held
        ],
      )
]

-- Dirt sticks.
released-clean :
    (b : BufferManager) (f g : ℕ) (is_dirty : Bool)
    → (if is_dirty then update b.dirty f true else b.dirty) g ≡ false
    → (b.dirty g ≡ false) × (g ≡ f → is_dirty ≡ false)
released-clean b f g false c = (c, λ e. refl)
released-clean b f g true c = elim (ℕ_discrete g f) [
  | yes e ↦ absurd (cc (c, update_at b.dirty f true g e))
  | no ne ↦ (sym (update_elsewhere b.dirty f true g ne) ∙ c, λ e. absurd (ne e))
]

released-owned :
    (b : BufferManager) (f g : ℕ) (is_dirty : Bool)
    → (if is_dirty then update b.dirty f true else b.dirty) g ≡ true
    → (g ≡ f) ⊎ (b.dirty g ≡ true)
released-owned b f g false d = inr d
released-owned b f g true d = elim (ℕ_discrete g f) [
  | yes e ↦ inl e
  | no ne ↦ inr (sym (update_elsewhere b.dirty f true g ne) ∙ d)
]

released-IsValid :
    (b : BufferManager) (id f : ℕ) (is_dirty : Bool)
    → IsValid b
    → b.page_table id ≡ some f
    → b.pin_count f ≢ 0
    → (is_dirty ≡ false → b.dirty f ≡ false → SamePage (b.pages f) (disk_page b.disk_manager id))
    → IsValid (released b f is_dirty)
released-IsValid b id f is_dirty v at_f pinned contract =
    let r = released-replacer b f is_dirty v in
    let pins = update_elsewhere b.pin_count f (b.pin_count f - 1) in
    record {
      links = record {
        replacer = r.0;
        mapped = v.links.mapped;
        once = v.links.once;
        free = v.links.free;
        victim = λ g h. elim (r.1 g h) [
          | inl (same, zero_left) ↦ rw same (ap b.page_table (v.links.mapped id f at_f) ∙ at_f)
          | inr held ↦ v.links.victim g held
        ];
        unpinned = λ g h. elim (r.1 g h) [
          | inl (same, zero_left) ↦ update_at b.pin_count f (b.pin_count f - 1) g same ∙ zero_left
          | inr held ↦
              pins g (λ same. pinned (ap b.pin_count (sym same) ∙ v.links.unpinned g held))
              ∙ v.links.unpinned g held
        ];
      };
      counts = λ g. elim (ℕ_discrete g f) [
        | yes e ↦
            let q = update_at b.pin_count f (b.pin_count f - 1) g e in omega (arith, q, v.counts f)
        | no ne ↦ let q = pins g ne in omega (arith, q, v.counts g)
      ];
      owned = λ g d. elim (released-owned b f g is_dirty d) [
        | inl e ↦ rw e (ap b.page_table (v.links.mapped id f at_f) ∙ at_f)
        | inr d' ↦ v.owned g d'
      ];
      clean = λ x g m p c i h.
          let d = released-clean b f g is_dirty c in
          elim (ℕ_discrete g f) [
            | no ne ↦ v.clean x g m (sym (pins g ne) ∙ p) d.0 i h
            | yes e ↦
                let e' : x ≡ id =
                  sym (v.links.mapped x g m) ∙ ap b.page_ids e ∙ v.links.mapped id f at_f in
                ap (λ k. b.pages k i) e
                ∙ contract (d.1 e) (sym (ap b.dirty e) ∙ d.0) i h
                ∙ ap (λ k. disk_page b.disk_manager k i) (sym e')
          ];
    }

-- The pin that goes, or the refusal.
abbrev pub Unpinned : BufferManager → ℕ → BufferManager × Bool → Type 0
Unpinned b id o =
    IsValid o.0
    × SameViews b o.0
    × (((f : ℕ) × (b.page_table id ≡ some f)
          × (0 < b.pin_count f)
          × (o.1 ≡ true)
          × (o.0.pin_count ≡ update b.pin_count f (b.pin_count f - 1)))
        ⊎ (((f : ℕ) → b.page_table id ≡ some f → b.pin_count f ≡ 0) × (o.0 ≡ b) × (o.1 ≡ false)))

pub unpin_none :
    (b : BufferManager) (id : ℕ) (is_dirty : Bool)
    → b.page_table id ≡ none
    → unpin_page b id is_dirty ≡ (b, false)
unfolding unpin_page
unpin_none b id is_dirty e = rw (unpin_page, e) refl

pub unpin_zero :
    (b : BufferManager) (id f : ℕ) (is_dirty : Bool)
    → b.page_table id ≡ some f
    → positive (b.pin_count f) ≡ false
    → unpin_page b id is_dirty ≡ (b, false)
unfolding unpin_page
unpin_zero b id f is_dirty e h = rw (unpin_page, e, h) refl

-- If the client keeps its side, that a page not marked dirty, now or before, is the one on disk,
-- then unpin_page keeps the cache valid, takes one pin off a cached page that is pinned, and refuses
-- otherwise; no page is seen differently.
pub unpin_page-IsValid :
    (b : BufferManager) (id : ℕ) (is_dirty : Bool)
    → IsValid b
    → ((f : ℕ)
        → b.page_table id ≡ some f
        → is_dirty ≡ false
        → b.dirty f ≡ false
        → SamePage (b.pages f) (disk_page b.disk_manager id))
    → Unpinned b id (unpin_page b id is_dirty)
unpin_page-IsValid b id is_dirty v contract = elim (Option-cases (b.page_table id)) [
  | inl e ↦
      subst (Unpinned b id) (sym (unpin_none b id is_dirty e))
        (v, λ x i h. refl, inr (λ f m. absurd (cc (e, m)), refl, refl))
  | inr (f, e) ↦ elim (Bool-cases (positive (b.pin_count f))) [
    | inr h ↦
        let z : b.pin_count f ≡ 0 = ground (arith, h, v.counts f) in
        subst (Unpinned b id) (sym (unpin_zero b id f is_dirty e h))
          (v, λ x i h. refl, inr (λ g m. ap b.pin_count (some_inj.0 (sym m ∙ e)) ∙ z, refl, refl))
    | inl h ↦
        let ne : b.pin_count f ≢ 0 = λ z. absurd (ground (arith, h, z)) in
        subst (Unpinned b id) (sym (unpin_done b id f is_dirty e h)) (
          released-IsValid b id f is_dirty v e ne (contract f e),
          λ x i q. refl,
          inl (f, e, omega (arith, ne), refl, refl),
        )
  ]
]
