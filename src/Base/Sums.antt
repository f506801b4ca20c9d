-- ===== src/Base/Sums.antt =====
-- Sums of a function over the indices below a bound: counts and totals over a slot directory.
use Prim.Native.Nat.{ℕ, zero, suc, ◌+◌, ◌<◌, ◌≤◌}
use mathlib.Core.Path.{◌≡◌, refl}
use mathlib.Core.Logic.{◌≢◌}
use native.Mathlib.Decide.{ℕ_discrete}
use native.Mathlib.Omega.{arith}

pub sum_below : (ℕ → ℕ) → ℕ → ℕ
sum_below f zero = 0
sum_below f (suc n) = sum_below f n + f n

pub sum_below_suc : (f : ℕ → ℕ) (n : ℕ) → sum_below f (n + 1) ≡ sum_below f n + f n
unfolding sum_below
sum_below_suc f n = ground arith

pub sum_below_zero : (f : ℕ → ℕ) → sum_below f 0 ≡ 0
unfolding sum_below
sum_below_zero f = refl

-- Only the values below the bound matter.
pub sum_below_cong :
    (f g : ℕ → ℕ) (n : ℕ) → ((k : ℕ) → k < n → f k ≡ g k) → sum_below f n ≡ sum_below g n
unfolding sum_below
sum_below_cong f g zero h = refl
sum_below_cong f g (suc n) h =
    omega (arith, h n (omega arith), sum_below_cong f g n (λ k p. h k (omega arith)))

-- One changed value changes the sum by the difference.
pub sum_below_change :
    (f g : ℕ → ℕ) (n j : ℕ)
    → j < n
    → ((k : ℕ) → k < n → k ≢ j → f k ≡ g k)
    → sum_below f n + g j ≡ sum_below g n + f j
unfolding sum_below
sum_below_change f g zero j p h = elim p [ ]
sum_below_change f g (suc n) j p h = elim (ℕ_discrete n j) [
  | yes e ↦ rw e (omega (arith, sum_below_cong f g j (λ k q. h k (omega arith) (omega arith))))
  | no d ↦ omega (
    arith,
    h n (omega arith) d,
    sum_below_change f g n j (omega arith) (λ k q ne. h k (omega arith) ne),
  )
]

-- A positive sum has a positive term.
pub sum_below_pos : (f : ℕ → ℕ) (n : ℕ) → 0 < sum_below f n → (k : ℕ) × (k < n) × (0 < f k)
unfolding sum_below
sum_below_pos f zero h = absurd (omega arith)
sum_below_pos f (suc n) h = elim (ℕ_discrete (f n) 0) [
  | no d ↦ (n, omega arith, omega arith)
  | yes e ↦ let r = sum_below_pos f n (omega arith) in (r.0, omega (arith, r.1), r.2)
]

-- A term is at most the sum.
pub le-sum_below : (f : ℕ → ℕ) (n k : ℕ) → k < n → f k ≤ sum_below f n
unfolding sum_below
le-sum_below f zero k h = elim h [ ]
le-sum_below f (suc n) k h = elim (ℕ_discrete n k) [
  | yes e ↦ rw e (omega arith)
  | no d ↦ omega (arith, le-sum_below f n k (omega arith))
]

-- A count of indices is at most their number.
pub sum_below-le : (f : ℕ → ℕ) (n : ℕ) → ((k : ℕ) → f k ≤ 1) → sum_below f n ≤ n
unfolding sum_below
sum_below-le f zero h = omega arith
sum_below-le f (suc n) h = omega (arith, h n, sum_below-le f n h)

pub sum_below_mono : (f : ℕ → ℕ) (m n : ℕ) → m ≤ n → sum_below f m ≤ sum_below f n
unfolding sum_below
sum_below_mono f m zero h = let e : m ≡ 0 = omega arith in rw e (omega arith)
sum_below_mono f m (suc n) h = elim (ℕ_discrete m (suc n)) [
  | yes e ↦ rw e (omega arith)
  | no d ↦ omega (arith, sum_below_mono f m n (omega arith))
]
