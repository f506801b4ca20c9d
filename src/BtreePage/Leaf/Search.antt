-- ===== src/BtreePage/Leaf/Search.antt =====
-- The binary search of key_index finds the lower bound.
use persist_x.Base.{
  ℕ, zero, suc, ◌+◌, ◌-◌, ◌/◌, ◌%◌, ◌^◌, ◌≡◌, ◌<◌, ◌≤◌, inl, inr, refl, sym, arith, true, false,
  ltb, Bool-cases, ltb→lt,
}
use mathlib.Core.Path.{subst}
use persist_x.Page.{Page}
use persist_x.BtreePage.Keys.{rank, less_key, less_key_iff, not_less_key}
use persist_x.BtreePage.Leaf.{get_num_keys, get_key_at, search, key_index}

-- The keys are in order, equal ones allowed.
abbrev pub Sorted : Page → Type 0
Sorted p = (i j : ℕ) → i ≤ j → j < get_num_keys p → rank (get_key_at p i) ≤ rank (get_key_at p j)

-- The keys below `r` are smaller than `key`, and the others are not.
abbrev pub LowerBound : Page → ℕ → ℕ → Type 0
LowerBound p key r =
    (r ≤ get_num_keys p)
    × ((i : ℕ) → i < r → rank (get_key_at p i) < rank key)
    × ((i : ℕ) → r ≤ i → i < get_num_keys p → rank key ≤ rank (get_key_at p i))

abbrev middle : ℕ → ℕ → ℕ
middle lo hi = (lo + (hi - lo) / 2) % 2 ^ 16

search_up :
    (n : ℕ) (p : Page) (key lo hi : ℕ)
    → ltb lo hi ≡ true
    → less_key (get_key_at p (middle lo hi)) key ≡ true
    → search (suc n) p key lo hi ≡ search n p key ((middle lo hi + 1) % 2 ^ 16) hi
unfolding search
search_up n p key lo hi e k = rw (search, e, k) refl

search_down :
    (n : ℕ) (p : Page) (key lo hi : ℕ)
    → ltb lo hi ≡ true
    → less_key (get_key_at p (middle lo hi)) key ≡ false
    → search (suc n) p key lo hi ≡ search n p key lo (middle lo hi)
unfolding search
search_down n p key lo hi e k = rw (search, e, k) refl

search_stop :
    (n : ℕ) (p : Page) (key lo hi : ℕ) → ltb lo hi ≡ false → search (suc n) p key lo hi ≡ lo
unfolding search
search_stop n p key lo hi e = rw (search, e) refl

search-LowerBound :
    (n : ℕ) (p : Page) (key lo hi : ℕ)
    → Sorted p
    → get_num_keys p < 2 ^ 16
    → lo ≤ hi
    → hi ≤ get_num_keys p
    → hi - lo ≤ n
    → ((i : ℕ) → i < lo → rank (get_key_at p i) < rank key)
    → ((i : ℕ) → hi ≤ i → i < get_num_keys p → rank key ≤ rank (get_key_at p i))
    → LowerBound p key (search n p key lo hi)
unfolding search
search-LowerBound zero p key lo hi s w le top fuel below above =
    (omega (arith, le, top), below, λ i h. above i (omega (arith, h, le, fuel)))
search-LowerBound (suc n) p key lo hi s w le top fuel below above = elim (Bool-cases (ltb lo hi)) [
  | inr e ↦
      let done : hi ≤ lo = ground (arith, e) in
      subst (LowerBound p key) (sym (search_stop n p key lo hi e))
        (omega (arith, le, top), below, λ i h. above i (omega (arith, h, done)))
  | inl e ↦
      let lt = ltb→lt lo hi e in
      let m = middle lo hi in
      let here : (lo ≤ m) × (m < hi) = (omega (arith, lt, w, top), omega (arith, lt, w, top)) in
      let next : (m + 1) % 2 ^ 16 ≡ m + 1 = omega (arith, here, w, top) in
      elim (Bool-cases (less_key (get_key_at p m) key)) [
        | inl k ↦ subst (LowerBound p key) (sym (search_up n p key lo hi e k)) (
            search-LowerBound n p key ((m + 1) % 2 ^ 16) hi s w (omega (arith, here, next)) top
              (omega (arith, fuel, here, next, lt))
              (λ i h.
                let before = s i m (omega (arith, h, next)) (omega (arith, here, top)) in
                let smaller = less_key_iff (get_key_at p m) key k in omega (arith, before, smaller))
              above)
        | inr k ↦ subst (LowerBound p key) (sym (search_down n p key lo hi e k)) (
            search-LowerBound n p key lo m s w here.0 (omega (arith, here, top))
              (omega (arith, fuel, here, lt)) below
              (λ i h q.
                let after = s m i h q in
                let larger = not_less_key (get_key_at p m) key k in omega (arith, after, larger)))
      ]
]

-- key_index returns the lower bound of a key in a leaf whose keys are in order: as many rounds as
-- the leaf has keys are enough for its loop.
pub key_index-LowerBound :
    (p : Page) (key : ℕ) → Sorted p → get_num_keys p < 2 ^ 16 → LowerBound p key (key_index p key)
unfolding key_index
key_index-LowerBound p key s w =
    search-LowerBound (get_num_keys p) p key 0 (get_num_keys p) s w (omega arith) (omega arith)
      (omega arith) (λ i h. absurd (omega (arith, h))) (λ i h k. absurd (omega (arith, h, k)))
