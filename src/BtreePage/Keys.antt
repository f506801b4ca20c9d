-- ===== src/BtreePage/Keys.antt =====
-- int64_t keys as their 64-bit patterns, and the bytes of a node.
use persist_x.Base.{
  ℕ, zero, suc, ◌+◌, ◌-◌, ◌/◌, ◌%◌, ◌^◌, ◌≡◌, ◌<◌, ◌≤◌, ℕ_discrete, dec_lt, ◌⊎◌, inl, inr, sym, ap,
  ◌∙◌, arith, Bool, true, false, ltb, get_or, Bool-cases,
}
use persist_x.Bytes.{Buffer, put, le_bytes, wr}

-- The order of two's complement: flipping the sign bit makes it the order of the patterns.
unfoldable pub rank : ℕ → ℕ
rank key = (key + 2 ^ 63) % 2 ^ 64

-- `a < b` on int64_t.
unfoldable pub less_key : ℕ → ℕ → Bool
less_key a b = ltb (rank a) (rank b)

pub rank_injective : (a b : ℕ) → a < 2 ^ 64 → b < 2 ^ 64 → rank a ≡ rank b → a ≡ b
unfolding rank
rank_injective a b ha hb e = omega (arith, ha, hb, e)

pub less_key_iff : (a b : ℕ) → less_key a b ≡ true → rank a < rank b
unfolding less_key
less_key_iff a b e = ground (arith, e)

pub not_less_key : (a b : ℕ) → less_key a b ≡ false → rank b ≤ rank a
unfolding less_key
not_less_key a b e = ground (arith, e)

-- Every cell holds a byte.
abbrev pub IsBytes : Buffer → Type 0
IsBytes p = (i : ℕ) → p i < 256

le_bytes-small : (w v i d : ℕ) → d < 256 → get_or (le_bytes w v) i d < 256
unfolding le_bytes
le_bytes-small zero v i d h = h
le_bytes-small (suc w) v zero d h = omega arith
le_bytes-small (suc w) v (suc i) d h = le_bytes-small w (v / 256) i d h

pub wr-IsBytes : (w : ℕ) (p : Buffer) (off v : ℕ) → IsBytes p → IsBytes (wr w p off v)
unfolding wr put
wr-IsBytes w p off v h i = elim (Bool-cases (ltb i off)) [
  | inl e ↦ rw e (h i)
  | inr e ↦ rw e (le_bytes-small w v (i - off) (p i) (h i))
]

-- ─── sequences in order ───

-- The first `n` values are in order.
abbrev pub Ordered : (ℕ → ℕ) → ℕ → Type 0
Ordered f n = (i j : ℕ) → i ≤ j → j < n → f i ≤ f j

-- `g` is `f` with `x` put in at `pos`.
pub record PutIn (f : ℕ → ℕ) (n pos x : ℕ) (g : ℕ → ℕ) : Type 0 where
  pub below : (j : ℕ) → j < pos → g j ≡ f j
  pub here : g pos ≡ x
  pub moved : (j : ℕ) → pos ≤ j → j < n → g (j + 1) ≡ f j

module _ (f g : ℕ → ℕ) (n pos x : ℕ) (s : PutIn f n pos x g) where
  -- A value below, at or behind the new one.
  pub place : (j : ℕ) → j < n + 1 → (j < pos) ⊎ (j ≡ pos) ⊎ ((pos < j) × (g j ≡ f (j - 1)))
  place j lt = elim (dec_lt j pos) [
    | yes h ↦ inl h
    | no h ↦ elim (ℕ_discrete j pos) [
      | yes e ↦ inr (inl e)
      | no ne ↦
          let back : j - 1 + 1 ≡ j = omega (arith, h, ne) in
          inr (
            inr (
              omega (arith, h, ne),
              ap g (sym back) ∙ s.moved (j - 1) (omega (arith, h, ne)) (omega (arith, lt, h, ne)),
            ))
    ]
  ]

  -- Putting a value in where it belongs keeps the order.
  pub put_in-Ordered :
      Ordered f n
      → ((j : ℕ) → j < pos → f j ≤ x)
      → ((j : ℕ) → pos ≤ j → j < n → x ≤ f j)
      → pos ≤ n
      → Ordered g (n + 1)
  put_in-Ordered o lo hi le i j ij lt = elim (place i (omega (arith, ij, lt))) [
    | inl bi ↦
        let a = s.below i bi in
        elim (place j lt) [
          | inl bj ↦
              let b = s.below j bj in
              let k = o i j ij (omega (arith, bj, le)) in omega (arith, a, b, k)
          | inr (inl ej) ↦ let b = ap g ej ∙ s.here in let k = lo i bi in omega (arith, a, b, k)
          | inr (inr (bj, b)) ↦
              let k = o i (j - 1) (omega (arith, bi, bj)) (omega (arith, bj, lt)) in
              omega (arith, a, b, k)
        ]
    | inr (inl ei) ↦
        let a = ap g ei ∙ s.here in
        elim (place j lt) [
          | inl bj ↦ absurd (omega (arith, bj, ei, ij))
          | inr (inl ej) ↦ let b = ap g ej ∙ s.here in omega (arith, a, b)
          | inr (inr (bj, b)) ↦
              let k = hi (j - 1) (omega (arith, bj)) (omega (arith, bj, lt)) in
              omega (arith, a, b, k)
        ]
    | inr (inr (bi, a)) ↦ elim (place j lt) [
      | inl bj ↦ absurd (omega (arith, bj, bi, ij))
      | inr (inl ej) ↦ absurd (omega (arith, ej, bi, ij))
      | inr (inr (bj, b)) ↦
          let k = o (i - 1) (j - 1) (omega (arith, ij)) (omega (arith, bj, lt)) in
          omega (arith, a, b, k)
    ]
  ]
