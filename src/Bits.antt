-- ===== src/Bits.antt =====
-- Shifts, masks and `|` of disjoint fields as arithmetic: the laws that byte swapping rests on.
use Prim.Native.Nat.{digits, bit_and-bitwise, bit_or-bitwise}
use native.Mathlib.Nat.{pow-suc, div-div-eq-div-mul}
use thread_pool.Base.{
  ℕ, zero, suc, ◌+◌, ◌*◌, ◌/◌, ◌%◌, ◌^◌, ◌≤◌, ◌<◌, min, max, bit_and, bit_or, ◌≡◌, refl, ap, ◌∙◌,
  arith,
}

-- The recursion behind the native operations does not depend on its count of digits.
module _ (z : ℕ → ℕ) (f : ℕ → ℕ → ℕ) where
  digits_agree : (n k a b : ℕ) → a ≤ n → a ≤ k → digits z f n a b ≡ digits z f k a b
  digits_agree zero zero a b _ _ = refl
  digits_agree zero (suc k) zero b _ _ = refl
  digits_agree zero (suc k) (suc a) b h _ = absurd (omega arith)
  digits_agree (suc n) zero zero b _ _ = refl
  digits_agree (suc n) zero (suc a) b _ h = absurd (omega arith)
  digits_agree (suc n) (suc k) zero b _ _ = refl
  digits_agree (suc n) (suc k) (suc a) b h h' =
      ap (λ (t : ℕ). t * 2 + f (suc a % 2) (b % 2))
        (digits_agree n k (suc a / 2) (b / 2) (omega arith) (omega arith))

  digits_halves :
      (a b : ℕ)
      → digits z f (suc a) (suc a) b
        ≡ digits z f (suc a / 2) (suc a / 2) (b / 2) * 2 + f (suc a % 2) (b % 2)
  digits_halves a b =
      ap (λ (t : ℕ). t * 2 + f (suc a % 2) (b % 2))
        (digits_agree a (suc a / 2) (suc a / 2) (b / 2) (omega arith) (omega arith))

bit_or_halves : (a b : ℕ) → bit_or a b ≡ bit_or (a / 2) (b / 2) * 2 + max (a % 2) (b % 2)
bit_or_halves zero b = simp bit_or-bitwise (omega arith)
bit_or_halves (suc a) b = simp bit_or-bitwise (digits_halves (λ y. y) max a b)

bit_and_halves : (a b : ℕ) → bit_and a b ≡ bit_and (a / 2) (b / 2) * 2 + min (a % 2) (b % 2)
bit_and_halves zero b = simp bit_and-bitwise (omega arith)
bit_and_halves (suc a) b = simp bit_and-bitwise (digits_halves (λ y. 0) min a b)

-- With zero on the right, by recursion on a bound.
bit_or-zero_below : (n a : ℕ) → a ≤ n → bit_or a 0 ≡ a
bit_or-zero_below n zero h = refl
bit_or-zero_below zero (suc a) h = absurd (omega arith)
bit_or-zero_below (suc n) (suc a) h =
    omega (arith, bit_or_halves (suc a) 0, bit_or-zero_below n (suc a / 2) (omega arith))

bit_and-zero_below : (n a : ℕ) → a ≤ n → bit_and a 0 ≡ 0
bit_and-zero_below n zero h = refl
bit_and-zero_below zero (suc a) h = absurd (omega arith)
bit_and-zero_below (suc n) (suc a) h =
    omega (arith, bit_and_halves (suc a) 0, bit_and-zero_below n (suc a / 2) (omega arith))

scaled : (k q : ℕ) → q * 2 ^ suc k ≡ q * 2 ^ k * 2
scaled k q = omega (arith, ap (λ (t : ℕ). q * t) (pow-suc 2 k))

-- `|` adds a field to the bits above it.
pub bit_or_add : (k q r : ℕ) → r < 2 ^ k → bit_or (q * 2 ^ k) r ≡ q * 2 ^ k + r
bit_or_add zero q zero h =
    let e : q * 1 ≡ q = omega arith in
    omega (arith, bit_or-zero_below (q * 1) (q * 1) (omega arith))
bit_or_add zero q (suc r) h = absurd (omega arith)
bit_or_add (suc k) q r h =
    let below : r / 2 < 2 ^ k = omega (arith, pow-suc 2 k) in
    let halves = bit_or_halves (q * 2 ^ k * 2) r in
    let half : q * 2 ^ k * 2 / 2 ≡ q * 2 ^ k = omega arith in
    rw scaled
      (omega (arith, halves, bit_or_add k q (r / 2) below, ap (λ (t : ℕ). bit_or t (r / 2)) half))

-- A mask that starts at bit `k` keeps what the shifted-down mask keeps of the shifted-down number.
pub bit_and_shifted : (k m a : ℕ) → bit_and a (m * 2 ^ k) ≡ bit_and (a / 2 ^ k) m * 2 ^ k
bit_and_shifted zero m a = omega (
  arith,
  ap (λ (t : ℕ). bit_and a t) (let e : m * 1 ≡ m = omega arith in e),
  ap (λ (t : ℕ). bit_and t m) (let e : a / 1 ≡ a = omega arith in e),
)
bit_and_shifted (suc k) m a =
    let half : m * 2 ^ k * 2 / 2 ≡ m * 2 ^ k = omega arith in
    let down : a / 2 / 2 ^ k ≡ a / 2 ^ suc k =
      div-div-eq-div-mul a 2 (2 ^ k) ∙ ap (λ (t : ℕ). a / t) (omega (arith, pow-suc 2 k)) in
    rw scaled (
      omega (
        arith,
        bit_and_halves a (m * 2 ^ k * 2),
        bit_and_shifted k m (a / 2),
        ap (λ (t : ℕ). bit_and (a / 2) t) half,
        scaled k (bit_and (a / 2 ^ suc k) m),
        ap (λ (t : ℕ). bit_and t m * 2 ^ k) down,
      ))

-- An odd mask keeps the lowest bit.
bit_and_odd : (a m : ℕ) → bit_and a (m * 2 + 1) ≡ bit_and (a / 2) m * 2 + a % 2
bit_and_odd a m =
    let half : (m * 2 + 1) / 2 ≡ m = omega arith in
    let low : (m * 2 + 1) % 2 ≡ 1 = omega arith in
    bit_and_halves a (m * 2 + 1) ∙ rw (half, low) (omega arith)

bit_and_nibble : (a : ℕ) → bit_and a 0xf ≡ a % 16
bit_and_nibble a = omega (
  arith,
  bit_and_odd a 7,
  bit_and_odd (a / 2) 3,
  bit_and_odd (a / 2 / 2) 1,
  bit_and_odd (a / 2 / 2 / 2) 0,
  bit_and-zero_below (a / 2 / 2 / 2 / 2) (a / 2 / 2 / 2 / 2) (omega arith),
)

-- The mask of one byte.
pub bit_and_byte : (a : ℕ) → bit_and a 0xff ≡ a % 256
bit_and_byte a = omega (
  arith,
  bit_and_odd a 0x7f,
  bit_and_odd (a / 2) 0x3f,
  bit_and_odd (a / 2 / 2) 0x1f,
  bit_and_odd (a / 2 / 2 / 2) 0xf,
  bit_and_nibble (a / 2 / 2 / 2 / 2),
)

bit_or_comm_below : (n a b : ℕ) → a ≤ n → b ≤ n → bit_or a b ≡ bit_or b a
bit_or_comm_below zero zero zero _ _ = refl
bit_or_comm_below zero (suc a) b h _ = absurd (omega arith)
bit_or_comm_below zero zero (suc b) _ h = absurd (omega arith)
bit_or_comm_below (suc n) a b h h' = omega (
  arith,
  bit_or_halves a b,
  bit_or_halves b a,
  bit_or_comm_below n (a / 2) (b / 2) (omega arith) (omega arith),
)

pub bit_or_comm : (a b : ℕ) → bit_or a b ≡ bit_or b a
bit_or_comm a b = bit_or_comm_below (a + b) a b (omega arith) (omega arith)

-- The form in which a chain of `|` is summed up: the left side is a multiple of `2 ^ k`.
pub bit_or_sum : (k q l r : ℕ) → l ≡ q * 2 ^ k → r < 2 ^ k → bit_or l r ≡ l + r
bit_or_sum k q l r e h = rw e (bit_or_add k q r h)
