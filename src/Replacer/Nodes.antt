-- ===== src/Replacer/Nodes.antt =====
-- Lists of nodes in which no handle and no frame occurs twice.
use persist_x.Base.{
  ℕ, ◌≡◌, ◌≢◌, ◌⊎◌, refl, sym, ap, ◌∙◌, Bool, true, false, List, [], ◌∷◌, ◌++◌, Option, none, some,
  some_inj, ◌==◌, if◌then◌else◌, All, Bool-cases, inl, inr, ==→eq, eq→==, ==→ne, ne→==,
}
use mathlib.Core.Path.{subst}
use persist_x.Replacer.{Node, back, pop_back, erase}

-- The frames in their order.
abbrev pub frames : List Node → List ℕ
frames [] = []
frames (n ∷ ns) = n.1 ∷ frames ns

-- The handle of a frame's node.
unfoldable pub locate : ℕ → List Node → Option ℕ
locate f [] = none
locate f (n ∷ ns) = let rest = locate f ns in if f == n.1 then some n.0 else rest

abbrev pub Distinct : List Node → Type 0
Distinct [] = Unit
Distinct (n ∷ ns) = All (λ m. (m.0 ≢ n.0) × (m.1 ≢ n.1)) ns × Distinct ns

-- A list without a value.
unfoldable pub without : ℕ → List ℕ → List ℕ
without f [] = []
without f (x ∷ xs) = let rest = without f xs in if x == f then rest else x ∷ rest

unfoldable pub holds : ℕ → List ℕ → Bool
holds f [] = false
holds f (x ∷ xs) = let rest = holds f xs in if f == x then true else rest

pub holds-locate :
    (f : ℕ) (ns : List Node)
    → ((locate f ns ≡ none) × (holds f (frames ns) ≡ false))
      ⊎ ((h : ℕ) × (locate f ns ≡ some h) × (holds f (frames ns) ≡ true))
unfolding holds locate
holds-locate f [] = inl (refl, refl)
holds-locate f (n ∷ ns) = elim (Bool-cases (f == n.1)) [
  | inl e ↦ rw e (inr (n.0, refl, refl))
  | inr e ↦ rw e (holds-locate f ns)
]

pub All-erase : (P : Node → Type 0) (h : ℕ) (ns : List Node) → All P ns → All P (erase h ns)
unfolding erase
All-erase P h [] a = a
All-erase P h (n ∷ ns) (p, a) = elim (Bool-cases (n.0 == h)) [
  | inl e ↦ rw e a
  | inr e ↦ rw e (p, All-erase P h ns a)
]

pub Distinct-erase : (h : ℕ) (ns : List Node) → Distinct ns → Distinct (erase h ns)
unfolding erase
Distinct-erase h [] d = d
Distinct-erase h (n ∷ ns) (a, d) = elim (Bool-cases (n.0 == h)) [
  | inl e ↦ rw e d
  | inr e ↦ rw e (All-erase _ h ns a, Distinct-erase h ns d)
]

-- A frame other than those of the list is not located, nor is its removal seen.
locate_absent : (f : ℕ) (ns : List Node) → All (λ m. m.1 ≢ f) ns → locate f ns ≡ none
unfolding locate
locate_absent f [] a = refl
locate_absent f (n ∷ ns) (p, a) = rw (ne→== f n.1 (λ e. p (sym e))) (locate_absent f ns a)

without_absent :
    (f : ℕ) (ns : List Node) → All (λ m. m.1 ≢ f) ns → without f (frames ns) ≡ frames ns
unfolding without
without_absent f [] a = refl
without_absent f (n ∷ ns) (p, a) = rw (ne→== n.1 f p, without_absent f ns a) refl

other_frames :
    (n : Node) (ns : List Node) → All (λ m. (m.0 ≢ n.0) × (m.1 ≢ n.1)) ns → All (λ m. m.1 ≢ n.1) ns
other_frames n [] a = a
other_frames n (m ∷ ns) (p, a) = (p.1, other_frames n ns a)

-- A located handle is the handle of a node of the list.
located_other :
    (n : Node) (ns : List Node) (f h : ℕ)
    → All (λ m. (m.0 ≢ n.0) × (m.1 ≢ n.1)) ns
    → locate f ns ≡ some h
    → n.0 ≢ h
unfolding locate
located_other n [] f h a e = absurd (cc)
located_other n (m ∷ ns) f h (p, a) e = elim (Bool-cases (f == m.1)) [
  | inl t ↦ let q = some_inj.0 (rw t at e) in λ x. p.0 (q ∙ sym x)
  | inr t ↦ located_other n ns f h a (rw t at e)
]

-- Erasing the node that holds a frame takes that frame out, and no other.
pub erase-locate :
    (f h : ℕ) (ns : List Node)
    → Distinct ns
    → locate f ns ≡ some h
    → (frames (erase h ns) ≡ without f (frames ns))
      × (locate f (erase h ns) ≡ none)
      × ((g : ℕ) → g ≢ f → locate g (erase h ns) ≡ locate g ns)
unfolding locate without erase
erase-locate f h [] d e = absurd (cc)
erase-locate f h (n ∷ ns) (a, d) e = elim (Bool-cases (f == n.1)) [
  | inl t ↦
      let q : n.0 ≡ h = some_inj.0 (rw t at e) in
      let away = subst (λ x. All (λ m. m.1 ≢ x) ns) (sym (==→eq f n.1 t)) (other_frames n ns a) in
      rw (eq→== n.0 h q, eq→== n.1 f (sym (==→eq f n.1 t)))
        (
          sym (without_absent f ns away),
          locate_absent f ns away,
          λ g ne. rw (ne→== g n.1 (λ y. ne (y ∙ sym (==→eq f n.1 t)))) refl,
        )
  | inr t ↦
      let ih = erase-locate f h ns d (rw t at e) in
      rw
        (
          ne→== n.0 h (located_other n ns f h a (rw t at e)),
          ne→== n.1 f (λ y. ==→ne f n.1 t (sym y)),
          t,
        )
        (ap (◌∷◌ n.1) ih.0, ih.1, λ g ne. ap (λ x. if g == n.1 then some n.0 else x) (ih.2 g ne))
]

-- The frame of a located node is none of those that the rest of the list avoids.
located_frame :
    (n : Node) (ns : List Node) (f h : ℕ)
    → All (λ m. (m.0 ≢ n.0) × (m.1 ≢ n.1)) ns
    → locate f ns ≡ some h
    → f ≢ n.1
unfolding locate
located_frame n [] f h a e = absurd (cc)
located_frame n (m ∷ ns) f h (p, a) e = elim (Bool-cases (f == m.1)) [
  | inl t ↦ λ x. p.1 (sym (==→eq f m.1 t) ∙ x)
  | inr t ↦ located_frame n ns f h a (rw t at e)
]

-- Taking the last node off is erasing the node of its frame.
pub pop_back-erase :
    (f : ℕ) (ns : List Node)
    → Distinct ns
    → back ns ≡ some f
    → (h : ℕ) × (locate f ns ≡ some h)
      × (pop_back ns ≡ erase h ns)
      × (frames ns ≡ frames (pop_back ns) ++ (f ∷ []))
unfolding back pop_back locate erase
pop_back-erase f [] d e = absurd (cc)
pop_back-erase f ((h, g) ∷ []) d e =
    let q : g ≡ f = some_inj.0 e in rw (q, eq→== f f refl) (h, refl, rw (eq→== h h refl) refl, refl)
pop_back-erase f (n ∷ m ∷ ns) (a, d) e =
    let ih = pop_back-erase f (m ∷ ns) d e in
    (
      ih.0,
      rw (ne→== f n.1 (located_frame n (m ∷ ns) f ih.0 a ih.1)) ih.1,
      rw (ne→== n.0 ih.0 (located_other n (m ∷ ns) f ih.0 a ih.1)) (ap (◌∷◌ n) ih.2),
      ap (◌∷◌ n.1) ih.3,
    )
