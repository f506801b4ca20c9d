-- ===== src/Replacer/Held.antt =====
-- Which frames a sequence holds after each change of it.
use persist_x.Base.{
  ℕ, ◌≡◌, ◌≢◌, ◌⊎◌, inl, inr, refl, sym, ap, ◌∙◌, true, false, List, [], ◌∷◌, ◌++◌, ◌==◌,
  Bool-cases, ==→eq, ==→ne, eq→==,
}
use persist_x.Replacer.Nodes.{without, holds}
use persist_x.Replacer.Lru.{used, made_evictable}

pub holds-cons : (g x : ℕ) (xs : List ℕ) → holds g (x ∷ xs) ≡ true → (g ≡ x) ⊎ (holds g xs ≡ true)
unfolding holds
holds-cons g x xs h = elim (Bool-cases (g == x)) [
  | inl e ↦ inl (==→eq g x e)
  | inr e ↦ inr (rw e at h)
]

pub holds-tail : (g x : ℕ) (xs : List ℕ) → holds g xs ≡ true → holds g (x ∷ xs) ≡ true
unfolding holds
holds-tail g x xs h = elim (Bool-cases (g == x)) [ inl e ↦ rw e refl | inr e ↦ rw e h ]

pub holds-head : (x : ℕ) (xs : List ℕ) → holds x (x ∷ xs) ≡ true
unfolding holds
holds-head x xs = rw (eq→== x x refl) refl

pub holds-without :
    (g f : ℕ) (xs : List ℕ) → holds g (without f xs) ≡ true → (holds g xs ≡ true) × (g ≢ f)
unfolding without
holds-without g f [] h = absurd (unfold holds in cc h)
holds-without g f (x ∷ xs) h = elim (Bool-cases (x == f)) [
  | inl e ↦ let ih = holds-without g f xs (rw e at h) in (holds-tail g x xs ih.0, ih.1)
  | inr e ↦ elim (holds-cons g x (without f xs) (rw e at h)) [
    | inl same ↦ (rw same (holds-head x xs), λ y. ==→ne x f e (sym same ∙ y))
    | inr later ↦ let ih = holds-without g f xs later in (holds-tail g x xs ih.0, ih.1)
  ]
]

pub holds-without_self : (f : ℕ) (xs : List ℕ) → holds f (without f xs) ≡ false
holds-without_self f xs = elim (Bool-cases (holds f (without f xs))) [
  | inl e ↦ absurd ((holds-without f f xs e).1 refl)
  | inr e ↦ e
]

pub holds-used : (g f : ℕ) (xs : List ℕ) → holds g (used f xs) ≡ true → holds g xs ≡ true
holds-used g f xs h = elim (Bool-cases (holds f xs)) [
  | inl e ↦ elim (holds-cons g f (without f xs) (rw e at h)) [
    | inl same ↦ rw same e
    | inr later ↦ (holds-without g f xs later).0
  ]
  | inr e ↦ rw e at h
]

pub holds-made :
    (g f : ℕ) (xs : List ℕ) → holds g (made_evictable f xs) ≡ true → (g ≡ f) ⊎ (holds g xs ≡ true)
holds-made g f xs h = elim (Bool-cases (holds f xs)) [
  | inl e ↦ inr (rw e at h)
  | inr e ↦ holds-cons g f xs (rw e at h)
]

pub holds-snoc :
    (g f : ℕ) (xs : List ℕ) → holds g (xs ++ (f ∷ [])) ≡ true → (g ≡ f) ⊎ (holds g xs ≡ true)
holds-snoc g f [] h = holds-cons g f [] h
holds-snoc g f (x ∷ xs) h = elim (holds-cons g x (xs ++ (f ∷ [])) h) [
  | inl same ↦ inr (rw same (holds-head x xs))
  | inr later ↦ elim (holds-snoc g f xs later) [
    | inl same ↦ inl same
    | inr held ↦ inr (holds-tail g x xs held)
  ]
]

-- No value stands twice.
abbrev pub Once : List ℕ → Type 0
Once [] = Unit
Once (x ∷ xs) = (holds x xs ≡ false) × Once xs

not_holds-tail : (f x : ℕ) (xs : List ℕ) → holds f (x ∷ xs) ≡ false → holds f xs ≡ false
not_holds-tail f x xs h = elim (Bool-cases (holds f xs)) [
  | inl e ↦ absurd (cc (h, holds-tail f x xs e))
  | inr e ↦ e
]

pub Once-snoc : (f : ℕ) (xs : List ℕ) → holds f xs ≡ false → Once xs → Once (xs ++ (f ∷ []))
Once-snoc f [] h o = (unfold holds in refl, tt)
Once-snoc f (x ∷ xs) h (n, o) =
    let ne : f ≢ x = λ y. cc (h, ap (λ z. holds z (x ∷ xs)) y ∙ holds-head x xs) in
    (
      elim (Bool-cases (holds x (xs ++ (f ∷ [])))) [
        | inr e ↦ e
        | inl e ↦ elim (holds-snoc x f xs e) [
          | inl same ↦ absurd (ne (sym same))
          | inr held ↦ absurd (cc (n, held))
        ]
      ],
      Once-snoc f xs (not_holds-tail f x xs h) o,
    )
