-- ===== src/BtreePage/Internal/Route.antt =====
-- lookup_child: the child between the keys.
use persist_x.Base.{
  ℕ, zero, suc, ◌+◌, ◌≡◌, ◌<◌, ◌≤◌, inl, inr, refl, sym, ap, arith, true, false, Bool-cases, dec_lt,
}
use mathlib.Core.Path.{subst}
use persist_x.Page.{Page}
use persist_x.BtreePage.Keys.{rank, less_key, less_key_iff, not_less_key}
use persist_x.BtreePage.Internal.{get_num_keys, get_key_at, get_child_at, scan, lookup_child}

-- The keys are in order, equal ones allowed.
abbrev pub Sorted : Page → Type 0
Sorted p = (i j : ℕ) → i ≤ j → j < get_num_keys p → rank (get_key_at p i) ≤ rank (get_key_at p j)

-- The keys below `r` are at most `key`, and the others are larger.
abbrev pub Routes : Page → ℕ → ℕ → Type 0
Routes p key r =
    (r ≤ get_num_keys p)
    × ((i : ℕ) → i < r → rank (get_key_at p i) ≤ rank key)
    × ((i : ℕ) → r ≤ i → i < get_num_keys p → rank key < rank (get_key_at p i))

pub Routes-unique : (p : Page) (key a b : ℕ) → Routes p key a → Routes p key b → a ≡ b
Routes-unique p key a b x y = elim (dec_lt a b) [
  | yes h ↦
      let low = y.1 a h in
      let high = x.2 a (omega arith) (omega (arith, h, y.0)) in absurd (omega (arith, low, high))
  | no h ↦ elim (dec_lt b a) [
    | yes k ↦
        let low = x.1 b k in
        let high = y.2 b (omega arith) (omega (arith, k, x.0)) in absurd (omega (arith, low, high))
    | no k ↦ omega (arith, h, k)
  ]
]

scan_stop :
    (k : ℕ) (p : Page) (key i : ℕ) → less_key key (get_key_at p i) ≡ true → scan (suc k) p key i ≡ i
unfolding scan
scan_stop k p key i e = rw (scan, e) refl

scan_on :
    (k : ℕ) (p : Page) (key i : ℕ)
    → less_key key (get_key_at p i) ≡ false
    → scan (suc k) p key i ≡ scan k p key (i + 1)
unfolding scan
scan_on k p key i e = rw (scan, e) refl

scan-Routes :
    (k : ℕ) (p : Page) (key i : ℕ)
    → Sorted p
    → i + k ≡ get_num_keys p
    → ((j : ℕ) → j < i → rank (get_key_at p j) ≤ rank key)
    → Routes p key (scan k p key i)
unfolding scan
scan-Routes zero p key i s e below =
    (omega (arith, e), below, λ j le lt. absurd (omega (arith, le, lt, e)))
scan-Routes (suc k) p key i s e below = elim (Bool-cases (less_key key (get_key_at p i))) [
  | inl h ↦
      let larger = less_key_iff key (get_key_at p i) h in
      subst (Routes p key) (sym (scan_stop k p key i h))
        (omega (arith, e), below, λ j le lt. let o = s i j le lt in omega (arith, o, larger))
  | inr h ↦
      let smaller = not_less_key key (get_key_at p i) h in
      subst (Routes p key) (sym (scan_on k p key i h)) (
        scan-Routes k p key (i + 1) s (omega (arith, e)) (λ j lt. elim (dec_lt j i) [
          | yes b ↦ below j b
          | no nb ↦
              let same : j ≡ i = omega (arith, lt, nb) in
              let o = ap (λ x. rank (get_key_at p x)) same in omega (arith, o, smaller)
        ]))
]

-- lookup_child follows the child behind the last key that is at most the key searched: all keys to
-- the left of the child are at most the key, and all to the right are larger.
pub lookup_child-Routes :
    (p : Page) (key : ℕ)
    → Sorted p
    → (r : ℕ) × Routes p key r × (lookup_child p key ≡ get_child_at p r)
unfolding lookup_child
lookup_child-Routes p key s = (
  scan (get_num_keys p) p key 0,
  scan-Routes (get_num_keys p) p key 0 s (omega arith) (λ j h. absurd (omega (arith, h))),
  refl,
)
