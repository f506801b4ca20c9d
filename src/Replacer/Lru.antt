-- ===== src/Replacer/Lru.antt =====
-- The replacer as a sequence of frames, used last first.
use persist_x.Base.{
  some_inj, ℕ, ◌+◌, ◌<◌, ◌≡◌, ◌≢◌, ◌⊎◌, refl, sym, ap, ◌∙◌, arith, Bool, true, false, List, [], ◌∷◌,
  ◌++◌, none, some, ◌==◌, if◌then◌else◌, All, update, Bool-cases, Option-cases, inl, inr, ==→eq,
  eq→==, ==→ne, ne→==,
}
use persist_x.Replacer.{
  Node, Replacer, new_replacer, back, pop_back, erase, push_front, evict, record_access,
  remove_from_replacer, set_evictable,
}
use persist_x.Replacer.Nodes.{
  frames, locate, pop_back-erase, Distinct, without, holds, holds-locate, All-erase, Distinct-erase,
  erase-locate,
}

-- The map and the list agree, and handles are used once.
pub record IsValid (r : Replacer) : Type 0 where
  pub distinct : Distinct r.frame_list
  pub fresh : All (λ n. n.0 < r.next_node) r.frame_list
  pub frame_map : (f : ℕ) → r.frame_map f ≡ locate f r.frame_list

-- ─── what the operations do to the sequence ───

abbrev pub used : ℕ → List ℕ → List ℕ
used f xs = if holds f xs then f ∷ without f xs else xs

abbrev pub made_evictable : ℕ → List ℕ → List ℕ
made_evictable f xs = if holds f xs then xs else f ∷ xs

locate_head : (f h : ℕ) (ns : List Node) → locate f ((h, f) ∷ ns) ≡ some h
unfolding locate
locate_head f h ns = rw (eq→== f f refl) refl

locate_tail : (g f h : ℕ) (ns : List Node) → g ≢ f → locate g ((h, f) ∷ ns) ≡ locate g ns
unfolding locate
locate_tail g f h ns ne = rw (ne→== g f ne) refl

others :
    (next f : ℕ) (ns : List Node)
    → All (λ n. n.0 < next) ns
    → locate f ns ≡ none
    → All (λ m. (m.0 ≢ next) × (m.1 ≢ f)) ns
unfolding locate
others next f [] a e = a
others next f (n ∷ ns) (p, a) e = elim (Bool-cases (f == n.1)) [
  | inl t ↦ absurd (let q = rw t at e in cc)
  | inr t ↦ ((λ y. omega arith, λ y. ==→ne f n.1 t (sym y)), others next f ns a (rw t at e))
]

less_suc : (next : ℕ) (ns : List Node) → All (λ n. n.0 < next) ns → All (λ n. n.0 < next + 1) ns
less_suc next [] a = a
less_suc next (n ∷ ns) (p, a) = (omega arith, less_suc next ns a)

-- Putting a frame that is not in the list in front of it.
push_front-IsValid :
    (r : Replacer) (f : ℕ)
    → Distinct r.frame_list
    → All (λ n. n.0 < r.next_node) r.frame_list
    → locate f r.frame_list ≡ none
    → ((g : ℕ) → g ≢ f → r.frame_map g ≡ locate g r.frame_list)
    → IsValid (push_front r f) × (frames (push_front r f).frame_list ≡ f ∷ frames r.frame_list)
unfolding push_front
push_front-IsValid r f d a e k = (
  record {
    distinct = (others r.next_node f r.frame_list a e, d);
    fresh = (omega arith, less_suc r.next_node r.frame_list a);
    frame_map = λ g. elim (Bool-cases (g == f)) [
      | inl t ↦ rw (t, ==→eq g f t) (sym (locate_head f r.next_node r.frame_list))
      | inr t ↦
          rw t (k g (==→ne g f t) ∙ sym (locate_tail g f r.next_node r.frame_list (==→ne g f t)))
    ];
  },
  refl,
)

-- Taking a frame out of the list and the map.
dropped : Replacer → ℕ → ℕ → Replacer
dropped r it f = record r {
  frame_list = erase it r.frame_list;
  frame_map = update r.frame_map f none;
}

dropped-IsValid :
    (r : Replacer) (it f : ℕ)
    → IsValid r
    → locate f r.frame_list ≡ some it
    → IsValid (dropped r it f)
      × (frames (dropped r it f).frame_list ≡ without f (frames r.frame_list))
unfolding dropped
dropped-IsValid r it f v e =
    let x = erase-locate f it r.frame_list v.distinct e in
    (
      record {
        distinct = Distinct-erase it r.frame_list v.distinct;
        fresh = All-erase _ it r.frame_list v.fresh;
        frame_map = λ g. elim (Bool-cases (g == f)) [
          | inl t ↦ rw (t, ==→eq g f t) (sym x.1)
          | inr t ↦ rw t (v.frame_map g ∙ sym (x.2 g (==→ne g f t)))
        ];
      },
      x.0,
    )

without_held : (f : ℕ) (xs : List ℕ) → holds f xs ≡ false → without f xs ≡ xs
unfolding holds without
without_held f [] h = refl
without_held f (x ∷ xs) h = elim (Bool-cases (f == x)) [
  | inl t ↦ absurd (let q = rw t at h in cc)
  | inr t ↦ rw (ne→== x f (λ y. ==→ne f x t (sym y))) (ap (◌∷◌ x) (without_held f xs (rw t at h)))
]

-- A use moves a frame that the replacer holds to the front of the sequence, and leaves a frame
-- out that it does not hold.
pub record_access-frames :
    (r : Replacer) (f : ℕ)
    → IsValid r
    → IsValid (record_access r f)
      × (frames (record_access r f).frame_list ≡ used f (frames r.frame_list))
unfolding record_access
record_access-frames r f v = elim (holds-locate f r.frame_list) [
  | inl (e, g) ↦ rw (record_access, v.frame_map f ∙ e, g) (v, refl)
  | inr (it, e, g) ↦
      let x = erase-locate f it r.frame_list v.distinct e in
      let p =
        push_front-IsValid (record r { frame_list = erase it r.frame_list }) f
          (Distinct-erase it r.frame_list v.distinct) (All-erase _ it r.frame_list v.fresh) x.1
          (λ k ne. v.frame_map k ∙ sym (x.2 k ne)) in
      rw (record_access, v.frame_map f ∙ e, g) (p.0, p.1 ∙ ap (◌∷◌ f) x.0)
]

pub remove_from_replacer-frames :
    (r : Replacer) (f : ℕ)
    → IsValid r
    → IsValid (remove_from_replacer r f)
      × (frames (remove_from_replacer r f).frame_list ≡ without f (frames r.frame_list))
unfolding remove_from_replacer dropped
remove_from_replacer-frames r f v = elim (holds-locate f r.frame_list) [
  | inl (e, g) ↦
      rw (remove_from_replacer, v.frame_map f ∙ e) (v, sym (without_held f (frames r.frame_list) g))
  | inr (it, e, g) ↦ rw (remove_from_replacer, v.frame_map f ∙ e) (dropped-IsValid r it f v e)
]

-- A frame made evictable that the replacer does not hold goes to the front of the sequence, one
-- that it holds stays where it is; a frame that is not evictable is taken out.
pub set_evictable-frames :
    (r : Replacer) (f : ℕ) (evictable : Bool)
    → IsValid r
    → IsValid (set_evictable r f evictable)
      × (frames (set_evictable r f evictable).frame_list ≡ (
          if evictable
          then made_evictable f (frames r.frame_list)
          else without f (frames r.frame_list)))
unfolding set_evictable remove_from_replacer
set_evictable-frames r f false v = remove_from_replacer-frames r f v
set_evictable-frames r f true v = elim (holds-locate f r.frame_list) [
  | inl (e, g) ↦
      rw (set_evictable, v.frame_map f ∙ e, g)
        (push_front-IsValid r f v.distinct v.fresh e (λ k ne. v.frame_map k))
  | inr (it, e, g) ↦ rw (set_evictable, v.frame_map f ∙ e, g) (v, refl)
]

back-none : (ns : List Node) → back ns ≡ none → ns ≡ []
unfolding back
back-none [] e = refl
back-none (n ∷ []) e = absurd (cc)
back-none (n ∷ m ∷ ns) e = absurd (let q = back-none (m ∷ ns) e in cc)

evict-none : (r : Replacer) → back r.frame_list ≡ none → evict r ≡ (none, r)
unfolding evict
evict-none r e = rw (evict, e) refl

evict-some :
    (r : Replacer) (f it : ℕ)
    → back r.frame_list ≡ some f
    → pop_back r.frame_list ≡ erase it r.frame_list
    → evict r ≡ (some f, dropped r it f)
unfolding evict dropped
evict-some r f it e p = rw (evict, e, p) refl

-- The victim is the frame at the end of the sequence, which leaves the replacer; an empty replacer
-- has none.
pub evict-frames :
    (r : Replacer)
    → IsValid r
    → ((frames r.frame_list ≡ []) × (evict r ≡ (none, r)))
      ⊎ ((f : ℕ) × ((evict r).0 ≡ some f)
          × IsValid (evict r).1
          × (frames r.frame_list ≡ frames (evict r).1.frame_list ++ (f ∷ [])))
evict-frames r v = elim (Option-cases (back r.frame_list)) [
  | inl e ↦ inl (ap frames (back-none r.frame_list e), evict-none r e)
  | inr (f, e) ↦
      let p = pop_back-erase f r.frame_list v.distinct e in
      let d = dropped-IsValid r p.0 f v p.1 in
      let left = p.3 ∙ ap (λ x. frames x ++ (f ∷ [])) p.2 in
      rw (evict-some r f p.0 e p.2) (inr (f, refl, d.0, unfold dropped in left))
]

-- A new replacer holds no frame.
pub new_replacer-IsValid : (n : ℕ) → IsValid (new_replacer n)
unfolding new_replacer locate
new_replacer-IsValid n = record { distinct = tt; fresh = tt; frame_map = λ f. refl }

-- The victim was in the replacer, and is not any more.
pub evict-without :
    (r : Replacer) (f : ℕ)
    → IsValid r
    → (evict r).0 ≡ some f
    → IsValid (evict r).1
      × (holds f (frames r.frame_list) ≡ true)
      × (frames (evict r).1.frame_list ≡ without f (frames r.frame_list))
evict-without r f v h = elim (Option-cases (back r.frame_list)) [
  | inl e ↦ absurd (let q = rw (evict-none r e) at h in cc)
  | inr (g, e) ↦
      let p = pop_back-erase g r.frame_list v.distinct e in
      let d = dropped-IsValid r p.0 g v p.1 in
      let same : g ≡ f = some_inj.0 (rw (evict-some r g p.0 e p.2) at h) in
      let held : holds g (frames r.frame_list) ≡ true = elim (holds-locate g r.frame_list) [
        | inl (n, q) ↦ absurd (cc (p.1, n))
        | inr (x, q, t) ↦ t
      ] in
      rw (evict-some r g p.0 e p.2, ← same) (d.0, held, d.1)
]
