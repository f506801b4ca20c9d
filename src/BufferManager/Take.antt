-- ===== src/BufferManager/Take.antt =====
-- How fetch_page and new_page get a frame.
use persist_x.Base.{
  ℕ, ◌≡◌, ◌⊎◌, inl, inr, refl, sym, ap, ◌∙◌, true, false, List, [], ◌∷◌, Option, none, some,
  some_inj, ◌==◌, if◌then◌else◌, update_at, Bool-cases, Option-cases,
}
use mathlib.Core.Path.{subst}
use persist_x.DiskManager.Pages.{write_page-next, write_page-writable}
use persist_x.Replacer.{evict}
use persist_x.Replacer.Nodes.{frames, holds}
use persist_x.Replacer.Lru.{evict-without, evict-frames}
use persist_x.Replacer.Held.{Once, holds-without, holds-without_self, holds-tail, holds-head}
use persist_x.BufferManager.{
  BufferManager, write_frame, enforce_wal, unmap, clean_frame, take_frame,
}
use persist_x.BufferManager.Frames.{
  IsValid, Loose, SameViews, write_frame-IsValid, write_frame-SameViews, write_frame-disk,
  clean_frame-IsValid, unmap-IsValid,
}

-- No frame can be had: none is free, and no victim, or a dirty one that cannot be written.
abbrev pub NoFrame : BufferManager → Type 0
NoFrame b =
    (b.free_list ≡ [])
    × (((evict b.replacer).0 ≡ none)
        ⊎ ((f : ℕ) × ((evict b.replacer).0 ≡ some f)
            × (b.dirty f ≡ true)
            × (b.disk_manager.writable (b.page_ids f) ≡ false)))

-- What taking a frame leaves: a valid cache in which every page is as before, and nothing refers to
-- the frame taken. No page has come in. No frame is given only where none can be had.
pub record Taken (b : BufferManager) (o : BufferManager × Option ℕ) : Type 0 where
  pub valid : IsValid o.0
  pub views : SameViews b o.0
  pub loose : (f : ℕ) → o.1 ≡ some f → Loose o.0 f
  pub shrinks : (id : ℕ) → b.page_table id ≡ none → o.0.page_table id ≡ none
  pub next_page_id : o.0.disk_manager.next_page_id ≡ b.disk_manager.next_page_id
  pub refused : o.1 ≡ none → NoFrame b

-- A frame of the free list.
take_free :
    (b : BufferManager) (f : ℕ) (rest : List ℕ)
    → IsValid b
    → b.free_list ≡ f ∷ rest
    → Taken b (record b { free_list = rest }, some f)
take_free b f rest v e =
    let once = subst Once e v.links.once in
    let kept : (g : ℕ) → holds g rest ≡ true → holds g b.free_list ≡ true =
      λ g h. rw e (holds-tail g f rest h) in
    let here : holds f b.free_list ≡ true = rw e (holds-head f rest) in
    record {
      valid = record {
        links = record {
          replacer = v.links.replacer;
          mapped = v.links.mapped;
          once = once.1;
          free = λ id g h. v.links.free id g (kept g h);
          victim = v.links.victim;
          unpinned = v.links.unpinned;
        };
        counts = v.counts;
        clean = v.clean;
        owned = v.owned;
      };
      views = λ id i h. refl;
      loose = λ g q. subst (Loose (record b { free_list = rest })) (some_inj.0 q) (record {
        unmapped = λ id. v.links.free id f here;
        not_free = once.0;
        not_victim = elim (Bool-cases (holds f (frames b.replacer.frame_list))) [
          | inl x ↦ absurd (v.links.free (b.page_ids f) f here (v.links.victim f x))
          | inr x ↦ x
        ];
      });
      shrinks = λ id n. n;
      next_page_id = refl;
      refused = λ q. absurd (cc q);
    }

unmap-shrinks :
    (b : BufferManager) (f id : ℕ) → b.page_table id ≡ none → (unmap b f).page_table id ≡ none
unfolding unmap
unmap-shrinks b f id n = elim (Bool-cases (id == b.page_ids f)) [
  | inl e ↦ rw e refl
  | inr e ↦ rw e n
]

write_frame-next :
    (b : BufferManager) (id f : ℕ)
    → (write_frame b id f).0.disk_manager.next_page_id ≡ b.disk_manager.next_page_id
unfolding write_frame enforce_wal
write_frame-next b id f = write_page-next b.disk_manager id (b.pages f)

pub write_frame-writable :
    (b : BufferManager) (id f : ℕ) → (write_frame b id f).1 ≡ b.disk_manager.writable id
unfolding write_frame enforce_wal
write_frame-writable b id f = write_page-writable b.disk_manager id (b.pages f)

abbrev pub evicted : BufferManager → BufferManager
evicted b = record b { replacer = (evict b.replacer).1 }

evicted-IsValid :
    (b : BufferManager) (f : ℕ)
    → IsValid b
    → (evict b.replacer).0 ≡ some f
    → IsValid (evicted b)
      × (b.page_table (b.page_ids f) ≡ some f)
      × (b.pin_count f ≡ 0)
      × (holds f (frames (evict b.replacer).1.frame_list) ≡ false)
evicted-IsValid b f v e =
    let x = evict-without b.replacer f v.links.replacer e in
    let kept : (g : ℕ)
        → holds g (frames (evict b.replacer).1.frame_list) ≡ true
        → holds g (frames b.replacer.frame_list) ≡ true =
      λ g h. (holds-without g f (frames b.replacer.frame_list) (rw x.2 at h)).0 in
    (
      record {
        links = record {
          replacer = x.0;
          mapped = v.links.mapped;
          once = v.links.once;
          free = v.links.free;
          victim = λ g h. v.links.victim g (kept g h);
          unpinned = λ g h. v.links.unpinned g (kept g h);
        };
        counts = v.counts;
        clean = v.clean;
        owned = v.owned;
      },
      v.links.victim f x.1,
      v.links.unpinned f x.1,
      rw x.2 (holds-without_self f (frames b.replacer.frame_list)),
    )

-- A victim whose page is on disk.
take_clean :
    (b : BufferManager) (f : ℕ)
    → IsValid b
    → (evict b.replacer).0 ≡ some f
    → b.dirty f ≡ false
    → Taken b (unmap (evicted b) f, some f)
take_clean b f v e c =
    let (w, at_f, pin, out) = evicted-IsValid b f v e in
    let u = unmap-IsValid (evicted b) f w at_f pin c out in
    record {
      valid = u.0;
      views = u.2;
      loose = λ g q. subst (Loose (unmap (evicted b) f)) (some_inj.0 q) u.1;
      shrinks = unmap-shrinks (evicted b) f;
      next_page_id = unfold unmap in refl;
      refused = λ q. absurd (cc q);
    }

-- A dirty victim whose write fails.
take_failed :
    (b : BufferManager) (f : ℕ)
    → IsValid b
    → (evict b.replacer).0 ≡ some f
    → b.dirty f ≡ true
    → (write_frame (evicted b) (b.page_ids f) f).1 ≡ false
    → b.free_list ≡ []
    → Taken b ((write_frame (evicted b) (b.page_ids f) f).0, none)
take_failed b f v e d failed empty =
    let (w, at_f, pin, out) = evicted-IsValid b f v e in
    record {
      valid = write_frame-IsValid (evicted b) (b.page_ids f) f w at_f (λ p c. absurd (cc (c, d)));
      views = write_frame-SameViews (evicted b) (b.page_ids f) f w at_f;
      loose = λ g q. absurd (cc);
      shrinks = λ id n. unfold write_frame enforce_wal in n;
      next_page_id = write_frame-next (evicted b) (b.page_ids f) f;
      refused = λ q.
          (empty, inr (f, e, d, sym (write_frame-writable (evicted b) (b.page_ids f) f) ∙ failed));
    }

-- A dirty victim whose page is written.
take_written :
    (b : BufferManager) (f : ℕ)
    → IsValid b
    → (evict b.replacer).0 ≡ some f
    → (write_frame (evicted b) (b.page_ids f) f).1 ≡ true
    → Taken b (unmap (clean_frame (write_frame (evicted b) (b.page_ids f) f).0 f) f, some f)
unfolding write_frame enforce_wal clean_frame
take_written b f v e ok =
    let (w, at_f, pin, out) = evicted-IsValid b f v e in
    let x = write_frame-IsValid (evicted b) (b.page_ids f) f w at_f (λ p c. ok) in
    let d = write_frame-disk (evicted b) (b.page_ids f) f w at_f in
    let y = write_frame-SameViews (evicted b) (b.page_ids f) f w at_f in
    let written = (write_frame (evicted b) (b.page_ids f) f).0 in
    let c = clean_frame-IsValid written (b.page_ids f) f x at_f (λ i h. sym (d.0 ok i h)) in
    let u =
      unmap-IsValid (clean_frame written f) f c at_f pin (update_at b.dirty f false f refl) out in
    record {
      valid = u.0;
      views = λ id i h. u.2 id i h ∙ y id i h;
      loose = λ g q. subst (Loose (unmap (clean_frame written f) f)) (some_inj.0 q) u.1;
      shrinks = unmap-shrinks (clean_frame written f) f;
      next_page_id = unfold unmap in write_frame-next (evicted b) (b.page_ids f) f;
      refused = λ q. absurd (cc q);
    }

take_none :
    (b : BufferManager)
    → IsValid b
    → (evict b.replacer).0 ≡ none
    → b.free_list ≡ []
    → Taken b (evicted b, none)
take_none b v e empty = elim (evict-frames b.replacer v.links.replacer) [
  | inl (no_victim, same) ↦
      subst (λ r. Taken b (record b { replacer = r }, none)) (sym (ap (λ x. x.1) same))
        (record {
          valid = v;
          views = λ id i h. refl;
          loose = λ g q. absurd (cc);
          shrinks = λ id n. n;
          next_page_id = refl;
          refused = λ q. (empty, inl e);
        })
  | inr (f, q, w, x) ↦ absurd (cc (q, e))
]

pub free_cases : (xs : List ℕ) → (xs ≡ []) ⊎ ((f : ℕ) × (rest : List ℕ) × (xs ≡ f ∷ rest))
free_cases [] = inl refl
free_cases (f ∷ rest) = inr (f, rest, refl)

-- The outcome of an eviction.
abbrev pub victim_outcome : BufferManager → BufferManager × Option ℕ
victim_outcome b = elim (evict b.replacer).0 [
  | none ↦ (evicted b, none)
  | some frame ↦
      let (w, ok) = write_frame (evicted b) (b.page_ids frame) frame in
      if b.dirty frame
      then (if ok then (unmap (clean_frame w frame) frame, some frame) else (w, none))
      else (unmap (evicted b) frame, some frame)
]

victim_outcome-Taken :
    (b : BufferManager) → IsValid b → b.free_list ≡ [] → Taken b (victim_outcome b)
victim_outcome-Taken b v empty = elim (Option-cases (evict b.replacer).0) [
  | inl n ↦ rw (victim_outcome, n) (take_none b v n empty)
  | inr (f, x) ↦ elim (Bool-cases (b.dirty f)) [
    | inr c ↦ rw (victim_outcome, x, c) (take_clean b f v x c)
    | inl d ↦ elim (Bool-cases (write_frame (evicted b) (b.page_ids f) f).1) [
      | inl ok ↦
          subst (Taken b) (sym (rw (victim_outcome, x, d, ok) refl)) (take_written b f v x ok)
      | inr failed ↦
          subst (Taken b) (sym (rw (victim_outcome, x, d, failed) refl))
            (take_failed b f v x d failed empty)
    ]
  ]
]

pub take_frame-empty : (b : BufferManager) → b.free_list ≡ [] → take_frame b ≡ victim_outcome b
unfolding take_frame
take_frame-empty b e =
    ap
      (λ xs. elim xs as (λ y. BufferManager × Option ℕ) [
        | f ∷ rest ↦ (record b { free_list = rest }, some f)
        | [] ↦ victim_outcome b
      ])
      e

pub take_frame-cons :
    (b : BufferManager) (f : ℕ) (rest : List ℕ)
    → b.free_list ≡ f ∷ rest
    → take_frame b ≡ (record b { free_list = rest }, some f)
unfolding take_frame
take_frame-cons b f rest e =
    ap
      (λ xs. elim xs as (λ y. BufferManager × Option ℕ) [
        | f ∷ rest ↦ (record b { free_list = rest }, some f)
        | [] ↦ victim_outcome b
      ])
      e

pub take_frame-Taken : (b : BufferManager) → IsValid b → Taken b (take_frame b)
take_frame-Taken b v = elim (free_cases b.free_list) [
  | inr (f, rest, e) ↦ subst (Taken b) (sym (take_frame-cons b f rest e)) (take_free b f rest v e)
  | inl e ↦ subst (Taken b) (sym (take_frame-empty b e)) (victim_outcome-Taken b v e)
]
