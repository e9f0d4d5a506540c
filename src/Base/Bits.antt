-- ===== src/Base/Bits.antt =====
-- Masks, single-bit tests and disjoint `|` as arithmetic, at every width.
use Prim.Native.Nat.{
  ℕ, zero, suc, ◌+◌, ◌-◌, ◌*◌, ◌/◌, ◌%◌, ◌^◌, ◌≤◌, ◌<◌, min, max, digits, bit_and, bit_or,
  bit_and-bitwise, bit_or-bitwise,
}
use mathlib.Core.Path.{◌≡◌, refl, ap}
use native.Mathlib.Nat.{pow-suc, one-le-pow, mul_comm, div-div-eq-div-mul}
use native.Mathlib.Omega.{arith}

module _ (z : ℕ → ℕ) (f : ℕ → ℕ → ℕ) where
  -- Fuel beyond the first number changes nothing.
  digits_enough : (n a b : ℕ) → a ≤ n → digits z f n a b ≡ digits z f a a b
  digits_enough n a b h = two n a a b h (omega arith)
    where
      two : (n m a b : ℕ) → a ≤ n → a ≤ m → digits z f n a b ≡ digits z f m a b
      two zero zero a b p q = refl
      two zero (suc m) zero b p q = refl
      two zero (suc m) (suc a) b p q = absurd (omega arith)
      two (suc n) zero zero b p q = refl
      two (suc n) zero (suc a) b p q = absurd (omega arith)
      two (suc n) (suc m) zero b p q = refl
      two (suc n) (suc m) (suc a) b p q =
          rw (two n m (suc a / 2) (b / 2) (omega arith) (omega arith))

pub bit_and_step : (a b : ℕ) → bit_and a b ≡ bit_and (a / 2) (b / 2) * 2 + min (a % 2) (b % 2)
bit_and_step zero b = omega (arith, bit_and-bitwise 0 b, bit_and-bitwise 0 (b / 2))
bit_and_step (suc a) b = omega (
  arith,
  bit_and-bitwise (suc a) b,
  bit_and-bitwise (suc a / 2) (b / 2),
  digits_enough (λ _. 0) min a (suc a / 2) (b / 2) (omega arith),
)

pub bit_or_step : (a b : ℕ) → bit_or a b ≡ bit_or (a / 2) (b / 2) * 2 + max (a % 2) (b % 2)
bit_or_step zero b = omega (arith, bit_or-bitwise 0 b, bit_or-bitwise 0 (b / 2))
bit_or_step (suc a) b = omega (
  arith,
  bit_or-bitwise (suc a) b,
  bit_or-bitwise (suc a / 2) (b / 2),
  digits_enough (λ y. y) max a (suc a / 2) (b / 2) (omega arith),
)

bit_and-zero_upto : (n a : ℕ) → a ≤ n → bit_and a 0 ≡ 0
bit_and-zero_upto n zero h = bit_and-bitwise 0 0
bit_and-zero_upto zero (suc a) h = absurd (omega arith)
bit_and-zero_upto (suc n) (suc a) h =
    omega (arith, bit_and_step (suc a) 0, bit_and-zero_upto n (suc a / 2) (omega arith))

pub bit_and-zero : (a : ℕ) → bit_and a 0 ≡ 0
bit_and-zero a = bit_and-zero_upto a a (omega arith)

pub zero-bit_or : (b : ℕ) → bit_or 0 b ≡ b
zero-bit_or b = bit_or-bitwise 0 b

pub double_pow : (k q : ℕ) → q * 2 ^ suc k ≡ q * 2 ^ k * 2
double_pow k q = omega (arith, ap (λ (t : ℕ). q * t) (pow-suc 2 k))

-- `v & (1 << k)` is the digit at position k, in its place.
pub bit_and-pow : (k v : ℕ) → bit_and v (2 ^ k) ≡ v / 2 ^ k % 2 * 2 ^ k
bit_and-pow zero v = omega (arith, bit_and_step v 1, bit_and-zero (v / 2))
bit_and-pow (suc k) v =
    rw
      (
        bit_and_step v (2 ^ suc k),
        pow-suc 2 k,
        ← mul_comm 2 (2 ^ k),
        ← div-div-eq-div-mul v 2 (2 ^ k),
      )
      (ground (arith, bit_and-pow k (v / 2)))

-- A mask of k low bits keeps what lies below it.
bit_and-low : (k q r : ℕ) → r < 2 ^ k → bit_and (q * 2 ^ k + r) (2 ^ k - 1) ≡ r
bit_and-low zero q r h = rw bit_and-zero (omega arith)
bit_and-low (suc k) q r h = ground (
  arith,
  bit_and_step (q * 2 ^ suc k + r) (2 ^ suc k - 1),
  double_pow k q,
  pow-suc 2 k,
  bit_and-low k q (r / 2),
)

pub bit_and-mask : (k v : ℕ) → bit_and v (2 ^ k - 1) ≡ v % 2 ^ k
bit_and-mask k v = ground (arith, one-le-pow k 2, bit_and-low k (v / 2 ^ k) (v % 2 ^ k))

-- `lo | hi << k` is a sum when `lo` fits k bits.
pub bit_or-shift : (k lo hi : ℕ) → lo < 2 ^ k → bit_or lo (hi * 2 ^ k) ≡ lo + hi * 2 ^ k
bit_or-shift zero lo hi h = ground (arith, zero-bit_or (hi * 2 ^ 0))
bit_or-shift (suc k) lo hi h = ground (
  arith,
  bit_or_step lo (hi * 2 ^ suc k),
  double_pow k hi,
  pow-suc 2 k,
  bit_or-shift k (lo / 2) hi,
)
