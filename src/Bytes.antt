-- ===== src/Bytes.antt =====
-- Byte buffers and little-endian integers: the `memcpy` helpers of src/page.cpp, and the way
-- every on-disk structure of the engine is written. A buffer is memory from its first byte on, so
-- a write past its end is seen as a write to a later address.
use persist_x.Base.{
  ℕ, zero, suc, ◌+◌, ◌-◌, ◌*◌, ◌/◌, ◌%◌, ◌^◌, ◌≤◌, ◌<◌, ◌≡◌, refl, ap, ◌∙◌, ◌⊎◌, inl, inr, List, [],
  ◌∷◌, arith, ltb, if◌then◌else◌, length, get_or, get_or_beyond, get_or_inside,
}
use mathlib.Core.Path.{ap₂}
use native.Mathlib.Nat.{pow-suc}

abbrev pub Buffer : Type 0
Buffer = ℕ → ℕ

unfoldable pub le_bytes : ℕ → ℕ → List ℕ
le_bytes zero v = []
le_bytes (suc w) v = (v % 256) ∷ le_bytes w (v / 256)

unfoldable pub from_le : List ℕ → ℕ
from_le [] = 0
from_le (x ∷ xs) = x + 256 * from_le xs

-- `memcpy(buffer + off, xs, length xs)`
unfoldable pub put : Buffer → ℕ → List ℕ → Buffer
put b off xs = λ i. if ltb i off then b i else get_or xs (i - off) (b i)

-- The `n` bytes from `off` on.
unfoldable pub peek : Buffer → ℕ → ℕ → List ℕ
peek b off zero = []
peek b off (suc n) = b off ∷ peek b (off + 1) n

pub length-le_bytes : (w v : ℕ) → length (le_bytes w v) ≡ w
unfolding le_bytes
length-le_bytes zero v = refl
length-le_bytes (suc w) v = ap suc (length-le_bytes w (v / 256))

pub from_le-le_bytes : (w v : ℕ) → v < 256 ^ w → from_le (le_bytes w v) ≡ v
unfolding le_bytes from_le
from_le-le_bytes zero v h = omega arith
from_le-le_bytes (suc w) v h =
    let ih = from_le-le_bytes w (v / 256) (omega (arith, pow-suc 256 w)) in omega (arith, ih)

pub length-peek : (b : Buffer) (off n : ℕ) → length (peek b off n) ≡ n
unfolding peek
length-peek b off zero = refl
length-peek b off (suc n) = ap suc (length-peek b (off + 1) n)

-- A write leaves every address outside its range alone.
pub put_outside :
    (b : Buffer) (off : ℕ) (xs : List ℕ) (i : ℕ)
    → (i < off) ⊎ (off + length xs ≤ i)
    → put b off xs i ≡ b i
unfolding put
put_outside b off xs i (inl h) = ground arith
put_outside b off xs i (inr h) = ground (arith, get_or_beyond xs (i - off) (b i) (omega arith))

pub put_inside :
    (b : Buffer) (off : ℕ) (xs : List ℕ) (k : ℕ)
    → put b off xs (off + k) ≡ get_or xs k (b (off + k))
unfolding put
put_inside b off xs k = let e : off + k - off ≡ k = omega arith in ground arith

pub peek_cong :
    (b c : Buffer) (i j n : ℕ) → ((k : ℕ) → k < n → b (i + k) ≡ c (j + k)) → peek b i n ≡ peek c j n
unfolding peek
peek_cong b c i j zero h = refl
peek_cong b c i j (suc n) h =
    ap₂ ◌∷◌ (ground (arith, h 0))
      (peek_cong b c (i + 1) (j + 1) n (λ k p. ground (arith, h (suc k))))

-- Bytes that are the elements of a list read back as the list.
pub peek_of_get_or :
    (b : Buffer) (off : ℕ) (xs : List ℕ)
    → ((k : ℕ) → k < length xs → b (off + k) ≡ get_or xs k 0)
    → peek b off (length xs) ≡ xs
unfolding peek
peek_of_get_or b off [] h = refl
peek_of_get_or b off (x ∷ xs) h =
    ap₂ ◌∷◌ (ground (arith, h 0)) (peek_of_get_or b (off + 1) xs (λ k p. ground (arith, h (suc k))))

pub peek-put_self :
    (b : Buffer) (off n : ℕ) (xs : List ℕ) → length xs ≡ n → peek (put b off xs) off n ≡ xs
peek-put_self b off n xs e = rw (← e) (
    peek_of_get_or (put b off xs) off xs
      (λ k p. put_inside b off xs k ∙ get_or_inside xs k (b (off + k)) 0 p))

pub peek-put_outside :
    (b : Buffer) (off : ℕ) (xs : List ℕ) (i n : ℕ)
    → (i + n ≤ off) ⊎ (off + length xs ≤ i)
    → peek (put b off xs) i n ≡ peek b i n
peek-put_outside b off xs i n (inl h) =
    peek_cong (put b off xs) b i i n (λ k p. put_outside b off xs (i + k) (inl (omega arith)))
peek-put_outside b off xs i n (inr h) =
    peek_cong (put b off xs) b i i n (λ k p. put_outside b off xs (i + k) (inr (omega arith)))

-- An unsigned integer of `w` bytes at an address: `wr_u16` is `wr 2`, and so on.
unfoldable pub rd : ℕ → Buffer → ℕ → ℕ
unfolding peek from_le
rd w b off = from_le (peek b off w)

unfoldable pub wr : ℕ → Buffer → ℕ → ℕ → Buffer
unfolding put le_bytes
wr w b off v = put b off (le_bytes w v)

pub rd-wr_self : (w : ℕ) (b : Buffer) (off v : ℕ) → v < 256 ^ w → rd w (wr w b off v) off ≡ v
rd-wr_self w b off v h =
    unfold rd wr in
    ap from_le (peek-put_self b off w (le_bytes w v) (length-le_bytes w v)) ∙ from_le-le_bytes w v h

pub rd-wr_outside :
    (w w' : ℕ) (b : Buffer) (off i v : ℕ)
    → (i + w ≤ off) ⊎ (off + w' ≤ i)
    → rd w (wr w' b off v) i ≡ rd w b i
rd-wr_outside w w' b off i v h =
    unfold rd wr in
    let n = length-le_bytes w' v in ap from_le (peek-put_outside b off (le_bytes w' v) i w (rw n h))

pub rd-put_outside :
    (w : ℕ) (b : Buffer) (off i : ℕ) (xs : List ℕ)
    → (i + w ≤ off) ⊎ (off + length xs ≤ i)
    → rd w (put b off xs) i ≡ rd w b i
rd-put_outside w b off i xs h = unfold rd in ap from_le (peek-put_outside b off xs i w h)

pub wr_outside :
    (w : ℕ) (b : Buffer) (off v i : ℕ) → (i < off) ⊎ (off + w ≤ i) → wr w b off v i ≡ b i
wr_outside w b off v i h =
    unfold wr in let n = length-le_bytes w v in put_outside b off (le_bytes w v) i (rw n h)

pub rd_cong :
    (w : ℕ) (b c : Buffer) (i : ℕ) → ((k : ℕ) → i ≤ k → k < i + w → b k ≡ c k) → rd w b i ≡ rd w c i
rd_cong w b c i h =
    unfold rd in ap from_le (peek_cong b c i i w (λ k p. h (i + k) (omega arith) (omega arith)))

pub rd-lt : (w : ℕ) (b : Buffer) (i : ℕ) → ((k : ℕ) → b k < 256) → rd w b i < 256 ^ w
unfolding rd
rd-lt zero b i h = omega arith
rd-lt (suc w) b i h = omega (arith, pow-suc 256 w, rd-lt w b (i + 1) h, h i)

pub peek-wr_outside :
    (w : ℕ) (b : Buffer) (off v i n : ℕ)
    → (i + n ≤ off) ⊎ (off + w ≤ i)
    → peek (wr w b off v) i n ≡ peek b i n
peek-wr_outside w b off v i n h =
    unfold wr in let e = length-le_bytes w v in peek-put_outside b off (le_bytes w v) i n (rw e h)

-- A 16-bit field keeps the low 16 bits of what is stored.
pub rd-wr_u16 : (b : Buffer) (off v : ℕ) → rd 2 (wr 2 b off v) off ≡ v % 2 ^ 16
rd-wr_u16 b off v =
    unfold rd wr in ap from_le (peek-put_self b off 2 (le_bytes 2 v) refl) ∙ omega arith

-- What a write leaves at an address depends on what was there.
pub put_cong :
    (b c : Buffer) (off : ℕ) (xs : List ℕ) (i : ℕ) → b i ≡ c i → put b off xs i ≡ put c off xs i
unfolding put
put_cong b c off xs i h = rw h refl

pub wr_cong : (w : ℕ) (b c : Buffer) (off v i : ℕ) → b i ≡ c i → wr w b off v i ≡ wr w c off v i
unfolding wr
wr_cong w b c off v i h = put_cong b c off (le_bytes w v) i h
